-- ===== src/Telemetry/Tests.antt =====
-- Runs of an ingestion, with whole numbers for floats and simple texts for the cryptography.
use hec_mvp.Base.{
  ℕ, ◌+◌, ◌*◌, ◌/◌, ◌-◌, ◌≡◌, refl, ap, ◌⊎◌, ◌↔◌, Bool, true, false, Option, none, some, [], ◌∷◌,
  arith, ◌==◌, leb, ltb, if◌then◌else◌, nat_eq, string_eq, total, length,
}
use hec_mvp.Base.Float.{Float}
use hec_mvp.Base.Int.{ℤ, negsuc}
use hec_mvp.Base.Result.{Exn, ok, err}
use hec_mvp.Chain.{init}
use hec_mvp.Chain.Provider.{mock}
use hec_mvp.Confidence.{calculate_confidence}
use hec_mvp.Consensus.{Plant}
use hec_mvp.Instant.{Datetime, naive, east, instant}
use hec_mvp.Ipfs.{Kind}
use hec_mvp.Issuance.{HecIssuanceResult}
use hec_mvp.Ledger.{HecCertificate}
use hec_mvp.Ledger.Books.{IsBooked}
use hec_mvp.Ledger.Samples.{shop, shop-IsBooked}
use hec_mvp.Physics.{Sun, sky_of}
use hec_mvp.Physics.Laws.{AreExactAtZero, is_dark}
use hec_mvp.Satellite.{SatelliteProvider}
use hec_mvp.Satellite.Laws.{physics_passes, satellite_passes, dark_passes_zero}
use hec_mvp.Security.Drift.{Iso, check_ntp_drift, check_ntp_drift_iff, AreClose}
use hec_mvp.Security.Signature.{elliptic}
use hec_mvp.Telemetry.{Edge, TelemetryRequest, Draws, Site, Layers, Ingested, ingest_telemetry}
use hec_mvp.Telemetry.Answer.{names, message_for, fails, names_iff, ntp}
use hec_mvp.Telemetry.Unreadable.{code_after, unreadable_timestamp}
use hec_mvp.Telemetry.Laws.{Ingests, ingest-Ingests, Vouched, certified-Vouched}
use hec_mvp.Telemetry.Runs.{Arrival, serve, serve_all, ingest_twice, ingest_all-IsBooked}
use hec_mvp.Telemetry.{
  check_layers, store_reading, try_issue, confidence_of, physics_of, satellite_of, consensus_of,
  admit_reading, anomaly_flags_of, report_of, telemetry_row, validation_row,
}
use hec_mvp.Security.Signature.{verify_ecdsa_signature, verify_with, canonical_payload, sha256_hash}
use hec_mvp.Security.{check_nonce_replay, register_nonce}
use hec_mvp.Security.Drift.{check_ntp_drift, compute_ntp_drift_ms}
use hec_mvp.Confidence.{calculate_confidence, consensus_points}
use hec_mvp.Physics.{compute_theoretical_max, sky_of, try_pvlib, judge}
use hec_mvp.Satellite.{validate_satellite, fetch_irradiance, fetch_mock, compare_reading}
use hec_mvp.Consensus.{
  validate_consensus, find_neighbors, known_plants, get_neighbor_readings, median, deviation_of,
  plant_ratio_of,
}
use hec_mvp.Issuance.{issue_hec, new_hec, final_status}
use hec_mvp.Chain.Provider.{register_on_chain}
use hec_mvp.Chain.Mock.{register, record_registration, next_tx_hash}
use hec_mvp.Ipfs.{upload_certificate_to_ipfs, upload, cid_of, pin}

-- A float counts 10^-5.
abbrev unit : ℕ → ℕ
unit k =
    if k == 0
    then 100000
    else if k == 1
    then 10000
    else if k == 2
    then 1000
    else if k == 3
    then 100
    else if k == 4
    then 10
    else 1

abbrev whole : Float
whole = record {
  F = ℕ;
  lit = λ n k. n * unit k;
  add = λ a b. a + b;
  sub = λ a b. a - b;
  mul = λ a b. a * b / 100000;
  div = λ a b. a * 100000 / b;
  pow = λ a b. a;
  neg = λ a. 0;
  sin = λ a. a;
  cos = λ a. a;
  asin = λ a. a;
  pi = 314159;
  radians = λ a. a;
  degrees = λ a. a;
  le = leb;
  lt = ltb;
  round = λ k a. a;
}

whole-AreExactAtZero : AreExactAtZero whole
whole-AreExactAtZero = record { lit_zero = λ a. ground arith; zero-mul = refl; round_zero = refl }

-- The sun stands at 45 degrees and gives 800 W/m2, or has set.
abbrev noon : Sun whole
noon = record { pvlib = λ lat lng dt alt. some (4500000, 80000000); day_of_year = λ d. 1 }

abbrev night : Sun whole
night = record { pvlib = λ lat lng dt alt. some (0, 0); day_of_year = λ d. 1 }

abbrev moment : Datetime
moment = record { wall = 1000000000000; zone = naive }

abbrev clock : Iso
clock = record { replace_z = λ t. t; fromisoformat = λ t. some moment }

abbrev toy : Edge
toy = record {
  host = record { sha256 = λ bs. "d"; utf8 = λ s. 1 ∷ []; float_sum = total (λ e. e) };
  crypto = record {
    load_pem_public_key = λ t. some (elliptic "k");
    from_hex = λ t. some (1 ∷ []);
    verify = λ k s m. true;
    dumps = λ d. "m";
    float_text = λ n. "f";
  };
  iso = clock;
  fl = whole;
  sun = noon;
  geo = record {
    postgis = λ p. some [];
    is_within = λ p q. true;
    distance_km = λ p q. 10000;
    ratio = λ energy capacity. energy;
    deviation = λ energy capacity med. 0;
  };
  coords = λ p. (0, 0);
  uuid_text = λ n. "u";
  certificate = λ id v t. id ∷ [];
  pdf = λ json hash. json;
}

-- 4 kWh of a plant of 10 kWp.
abbrev report_in : (e : Edge) → TelemetryRequest e
report_in e = record {
  plant_id = 5;
  timestamp = "t";
  power_kw = 40000;
  energy_kwh = 40000;
  signature = "s";
  public_key = "p";
  nonce = "n1";
  voltage_v = none;
  temperature_c = none;
  irradiance_wm2 = none;
}

-- What is drawn, with the server's clock in a zone three hours to the east and ahead by some microseconds.
abbrev drawn_in : (e : Edge) → ℕ → ℕ → Draws e
drawn_in e ahead time = record {
  checked_at = time;
  server_now = record { wall = 1010800000000 + ahead; zone = east 10800000000 };
  registered_at = time;
  telemetry_id = 1;
  validation_id = 2;
  hec_id = 104;
  issued_at = 40;
  now = 41;
  commit_fails = false;
  gauss = λ x. x;
}

abbrev seer : SatelliteProvider whole noon
seer = SatelliteProvider.mock (some 80000000) none false

abbrev site_plant : Plant
site_plant = record { plant_id = 5; name = "site"; capacity_kw = 10000; status = "active" }

abbrev site_in : (e : Edge) → Site e
site_in e = record {
  world = record {
    db = shop;
    provider = mock init;
    ipfs = record { kind = Kind.mock; objects = []; pinned = [] };
  };
  plants = site_plant ∷ [];
  telemetry = [];
  reports = [];
  nonces = [];
}

abbrev report : TelemetryRequest toy
report = report_in toy

abbrev drawn : ℕ → ℕ → Draws toy
drawn = drawn_in toy

abbrev plain_site : Site toy
plain_site = site_in toy

-- A reading on time, and one whose clock is 5001 microseconds off.
abbrev timely : Arrival toy
timely = record { provider = seer; req = report; draws = drawn 5000 1000 }

abbrev late : Arrival toy
late = record { provider = seer; req = report; draws = drawn 5001 1000 }

abbrev again : Arrival toy
again = record { provider = seer; req = report; draws = drawn 0 60001000 }

ingest-Ingests_example :
    ((x : Exn) × (ingest_telemetry toy seer report (drawn 5000 1000) plain_site
        ≡ (err x, plain_site)))
    ⊎ ((l : Layers toy) × (issued : Option HecIssuanceResult) × (v : Site toy) × (ingest_telemetry
            toy seer report
            (drawn 5000 1000)
            plain_site
          ≡ (ok (l, issued), v))
        × Ingests toy seer report (drawn 5000 1000) plain_site l v)
ingest-Ingests_example = ingest-Ingests toy seer report (drawn 5000 1000) plain_site

ran : length (serve toy plain_site timely).world.db.hecs ≡ 4
unfolding ingest_telemetry check_layers store_reading try_issue confidence_of physics_of
    satellite_of consensus_of admit_reading anomaly_flags_of report_of telemetry_row validation_row
    verify_ecdsa_signature verify_with canonical_payload sha256_hash check_nonce_replay
    register_nonce check_ntp_drift compute_ntp_drift_ms calculate_confidence consensus_points
    compute_theoretical_max sky_of try_pvlib judge validate_satellite fetch_irradiance fetch_mock
    compare_reading validate_consensus find_neighbors known_plants get_neighbor_readings median
    deviation_of plant_ratio_of issue_hec new_hec final_status register_on_chain register
    record_registration next_tx_hash upload_certificate_to_ipfs upload cid_of pin
ran = refl

ran_late : length (serve toy plain_site late).world.db.hecs ≡ 3
unfolding ingest_telemetry check_layers store_reading try_issue confidence_of physics_of
    satellite_of consensus_of admit_reading anomaly_flags_of report_of telemetry_row validation_row
    verify_ecdsa_signature verify_with canonical_payload sha256_hash check_nonce_replay
    register_nonce check_ntp_drift compute_ntp_drift_ms calculate_confidence consensus_points
    compute_theoretical_max sky_of try_pvlib judge validate_satellite fetch_irradiance fetch_mock
    compare_reading validate_consensus find_neighbors known_plants get_neighbor_readings median
    deviation_of plant_ratio_of
ran_late = refl

certified-Vouched_example : Vouched toy seer report (drawn 5000 1000) plain_site
certified-Vouched_example =
    certified-Vouched toy seer report (drawn 5000 1000) plain_site
      (λ same. absurd (omega (arith, ap (length {A = HecCertificate}) same, ran)))

-- What is answered to the late reading.
abbrev late_answer : Ingested toy
late_answer = (
  record {
    ntp_pass = false;
    drift = negsuc 5000;
    ts = moment;
    physics = physics_of toy site_plant report moment;
    satellite = satellite_of toy seer (drawn 5001 1000) site_plant report moment;
    consensus = consensus_of toy site_plant report moment plain_site;
  },
  none,
)

ingest_twice_example :
    let w = serve_all toy (serve toy plain_site late) (timely ∷ []) in
    ingest_telemetry toy seer report (drawn 0 60001000) w ≡ (err Exn.replayed, w)
unfolding ingest_telemetry check_layers store_reading try_issue confidence_of physics_of
    satellite_of consensus_of admit_reading anomaly_flags_of report_of telemetry_row validation_row
    verify_ecdsa_signature verify_with canonical_payload sha256_hash check_nonce_replay
    register_nonce check_ntp_drift compute_ntp_drift_ms calculate_confidence consensus_points
    compute_theoretical_max sky_of try_pvlib judge validate_satellite fetch_irradiance fetch_mock
    compare_reading validate_consensus find_neighbors known_plants get_neighbor_readings median
    deviation_of plant_ratio_of
ingest_twice_example =
    ingest_twice toy late again (timely ∷ []) plain_site late_answer refl (omega arith)

ingest_all-IsBooked_example : IsBooked (serve_all toy plain_site (late ∷ timely ∷ [])).world.db
unfolding ingest_telemetry check_layers store_reading try_issue confidence_of physics_of
    satellite_of consensus_of admit_reading anomaly_flags_of report_of telemetry_row validation_row
    verify_ecdsa_signature verify_with canonical_payload sha256_hash check_nonce_replay
    register_nonce check_ntp_drift compute_ntp_drift_ms calculate_confidence consensus_points
    compute_theoretical_max sky_of try_pvlib judge validate_satellite fetch_irradiance fetch_mock
    compare_reading validate_consensus find_neighbors known_plants get_neighbor_readings median
    deviation_of plant_ratio_of
ingest_all-IsBooked_example =
    ingest_all-IsBooked toy plain_site (late ∷ timely ∷ []) shop-IsBooked (refl, (refl, tt))

names_iff_example :
    names ntp (
      message_for (calculate_confidence true false true true none).status false true true none none)
    ≡ fails ntp false true true none
names_iff_example = names_iff ntp false true true none none

check_ntp_drift_iff_example :
    (clock.fromisoformat "t" ≡ none) × (check_ntp_drift clock "t" moment ≡ err Exn.no_timestamp)
    ⊎ ((dt : Datetime) × (passed : Bool) × (drift : ℤ) × (clock.fromisoformat "t" ≡ some dt)
        × (check_ntp_drift clock "t" moment ≡ ok (passed, drift))
        × ((passed ≡ true) ↔ AreClose 5000 (instant dt) (instant moment)))
check_ntp_drift_iff_example = check_ntp_drift_iff clock "t" moment

abbrev lets_physics : Sun whole → ℕ → Bool
lets_physics sun =
    physics_passes whole sun (SatelliteProvider.mock (some 0) none false) (λ x. x) 0 0 1000000
      moment 0 115000 120000 false

abbrev lets_satellite : Sun whole → ℕ → Bool
lets_satellite sun =
    satellite_passes whole sun (SatelliteProvider.mock (some 0) none false) (λ x. x) 0 0 1000000
      moment 0 115000 120000 false

dark_passes_zero_example :
    (is_dark whole night (sky_of whole night 0 0 moment 0 false) ≡ true
      → lets_physics night 1 ≡ (1 == 0))
    × (leb
            (fetch_irradiance whole night
              (SatelliteProvider.mock (some 0) none false)
              (λ x. x)
              0
              0
              moment).ghi_wm2
            0
          ≡ true
        → lets_satellite night 1 ≡ (1 == 0))
dark_passes_zero_example =
    dark_passes_zero whole night (SatelliteProvider.mock (some 0) none false) (λ x. x) 0 0 1000000
      moment 0 115000 120000 false 1 whole-AreExactAtZero

-- An edge whose texts are no timestamps.
abbrev unclear : Edge
unclear = record toy { iso = record { replace_z = λ t. t; fromisoformat = λ t. none } }

unreadable_timestamp_example :
    let o =
      ingest_telemetry unclear seer
        (report_in unclear)
        (drawn_in unclear 0 1000)
        (site_in unclear) in
    (code_after o.0 ≡ 500) × (o.1 ≡ site_in unclear)
unfolding verify_ecdsa_signature verify_with check_nonce_replay
unreadable_timestamp_example =
    unreadable_timestamp unclear seer (report_in unclear) (drawn_in unclear 0 1000)
      (site_in unclear) site_plant refl refl refl refl
