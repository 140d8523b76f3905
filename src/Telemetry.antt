-- ===== src/Telemetry.antt =====
-- app/api/telemetry.py: the ingestion of a reading. The layers are checked in the order of the handler,
-- the reading and its verdict are stored with the nonce, and an approved one is given a certificate.
-- `Edge` has what the handler takes from outside; the bounds that pydantic sets on a request are not
-- checked again, and a text that only repeats stored values is left out of flags and messages.
pub mod Answer
pub mod Cases
pub mod Laws
pub mod Runs
pub mod Unreadable
pub mod Tests
use hec_mvp.Base.{
  ℕ, ◌+◌, String, Bool, true, false, not, Option, none, some, List, [], ◌∷◌, ◌++◌, map, ◌==◌,
  nat_eq, string_eq, find, if◌then◌else◌,
}
use hec_mvp.Base.Int.{ℤ}
use hec_mvp.Base.Float.{Float}
use hec_mvp.Base.Result.{
  Exn, ok, err, Action, pure, gets, or_raise, raise_if, modify, transaction, ◌>>=◌, ◌>>◌,
}
use hec_mvp.Instant.{Datetime, instant, hour_us}
use hec_mvp.Confidence.{
  Status, ConfidenceBreakdown, approved, review, rejected, calculate_confidence,
}
use hec_mvp.Consensus.{Plant, Telemetry, NeighborReading, ConsensusResult, Geo, validate_consensus}
use hec_mvp.Ledger.{ValidationStatus, Validation}
use hec_mvp.Physics.{
  Sun, PhysicsResult, compute_theoretical_max, default_interval_hours, safety_margin,
}
use hec_mvp.Satellite.{
  SatelliteProvider, SatelliteValidationResult, validate_satellite, satellite_safety_margin,
}
use hec_mvp.Security.{UsedNonce, check_nonce_replay, register_nonce}
use hec_mvp.Security.Drift.{Iso, check_ntp_drift, ntp_max_drift}
use hec_mvp.Security.Signature.{Crypto, canonical_payload, sha256_hash, verify_ecdsa_signature}
use hec_mvp.Issuance.{HecIssuanceResult, issue_hec}
use hec_mvp.World.{World, Host}

-- `coords`: a plant's latitude and longitude; `certificate` and `pdf` are those of an issuance.
pub record Edge : Type 1 where
  pub host : Host
  pub crypto : Crypto
  pub iso : Iso
  pub fl : Float
  pub sun : Sun fl
  pub geo : Geo
  pub coords : Plant → fl.F × fl.F
  pub uuid_text : ℕ → String
  pub certificate : ℕ → Validation → ℕ → List ℕ
  pub pdf : List ℕ → String → List ℕ

-- `str(val_status)` as the column has it.
abbrev pub stored_status : Status → ValidationStatus
stored_status approved = ValidationStatus.approved
stored_status review = ValidationStatus.review
stored_status rejected = ValidationStatus.rejected

-- The keys of `anomaly_flags`.
pub data Flag : Type 0 where
  ntp_drift_exceeded energy_exceeds_theoretical energy_exceeds_satellite : Flag
  high_generation_low_irradiance consensus_divergence : Flag

module _ (e : Edge) where
  -- Energies and powers count 10^-4: requests that are finer are not modelled.
  pub record TelemetryRequest : Type 0 where
    pub plant_id : ℕ
    pub timestamp : String
    pub power_kw : ℕ
    pub energy_kwh : ℕ
    pub signature : String
    pub public_key : String
    pub nonce : String
    pub voltage_v : Option e.fl.F
    pub temperature_c : Option e.fl.F
    pub irradiance_wm2 : Option e.fl.F

  -- What a request reads of clocks, of uuid4 and of random, and whether its second commit raises.
  pub record Draws : Type 0 where
    pub checked_at : ℕ
    pub server_now : Datetime
    pub registered_at : ℕ
    pub telemetry_id : ℕ
    pub validation_id : ℕ
    pub hec_id : ℕ
    pub issued_at : ℕ
    pub now : ℕ
    pub commit_fails : Bool
    pub gauss : e.fl.F → e.fl.F

  -- A row of `telemetry`: the columns that the consensus reads, and the others.
  pub record TelemetryRow : Type 0 where
    pub id : ℕ
    pub reading : Telemetry
    pub payload : TelemetryRequest
    pub ntp_delta : ℤ
    pub ntp_pass : Bool
    pub payload_sha256 : String

  -- The columns of a validation that the ledger does not read, by its id.
  pub record Report : Type 0 where
    pub validation_id : ℕ
    pub telemetry_id : ℕ
    pub confidence : ConfidenceBreakdown
    pub anomaly_flags : Option (List Flag)
    pub ntp_drift : ℤ
    pub physics : PhysicsResult e.fl e.sun
    pub satellite : SatelliteValidationResult e.fl e.sun
    pub consensus : ConsensusResult
    pub consensus_details : Option (List NeighborReading)

  -- The state that an ingestion reads and writes: the shared world, whose database has the
  -- validations and the certificates, and the tables that only telemetry uses.
  pub record Site : Type 0 where
    pub world : World
    pub plants : List Plant
    pub telemetry : List TelemetryRow
    pub reports : List Report
    pub nonces : List UsedNonce

  -- What the five layers say of a reading.
  pub record Layers : Type 0 where
    pub ntp_pass : Bool
    pub drift : ℤ
    pub ts : Datetime
    pub physics : PhysicsResult e.fl e.sun
    pub satellite : SatelliteValidationResult e.fl e.sun
    pub consensus : ConsensusResult

  unfoldable pub physics_of : Plant → TelemetryRequest → Datetime → PhysicsResult e.fl e.sun
  physics_of plant req ts =
      compute_theoretical_max e.fl e.sun (e.coords plant).0 (e.coords plant).1
        (e.fl.lit plant.capacity_kw 3) ts (e.fl.lit req.energy_kwh 4)
        (default_interval_hours e.fl e.sun) (e.fl.lit 0 0) (safety_margin e.fl e.sun) false

  unfoldable pub satellite_of :
      SatelliteProvider e.fl e.sun
      → Draws
      → Plant
      → TelemetryRequest
      → Datetime
      → SatelliteValidationResult e.fl e.sun
  satellite_of provider draws plant req ts =
      validate_satellite e.fl e.sun provider draws.gauss (e.coords plant).0 (e.coords plant).1
        (e.fl.lit plant.capacity_kw 3) ts (e.fl.lit req.energy_kwh 4) (e.fl.lit 1 0)
        (satellite_safety_margin e.fl e.sun)

  unfoldable pub consensus_of : Plant → TelemetryRequest → Datetime → Site → ConsensusResult
  consensus_of plant req ts s =
      validate_consensus e.geo
        (record {
          plants = s.plants;
          telemetry = map (λ (r : TelemetryRow). r.reading) s.telemetry;
        })
        plant req.energy_kwh (instant ts)

  abbrev pub flag_if : Bool → Flag → List Flag
  flag_if true f = f ∷ []
  flag_if false f = []

  abbrev pub is_divergent : Option Bool → Bool
  is_divergent (some false) = true
  is_divergent _ = false

  unfoldable pub anomaly_flags_of : Layers → List Flag
  anomaly_flags_of l =
      flag_if (not l.ntp_pass) ntp_drift_exceeded
      ++ flag_if (not l.physics.physics_pass) energy_exceeds_theoretical
      ++ flag_if (not l.satellite.satellite_pass) energy_exceeds_satellite
      ++ flag_if l.satellite.high_generation_low_sun high_generation_low_irradiance
      ++ flag_if (is_divergent l.consensus.consensus_pass) consensus_divergence

  abbrev pub or_null : {A : Type 0} → List A → Option (List A)
  or_null [] = none
  or_null (x ∷ xs) = some (x ∷ xs)

  unfoldable pub confidence_of : Layers → ConfidenceBreakdown
  confidence_of l =
      calculate_confidence true l.ntp_pass l.physics.physics_pass l.satellite.satellite_pass
        l.consensus.consensus_pass

  abbrev pub message_of : TelemetryRequest → String
  message_of req =
      canonical_payload e.host e.crypto (e.uuid_text req.plant_id) req.timestamp req.power_kw
        req.energy_kwh req.nonce

  unfoldable pub telemetry_row : TelemetryRequest → Draws → Layers → TelemetryRow
  telemetry_row req draws l = record {
    id = draws.telemetry_id;
    reading = record { plant_id = req.plant_id; time = instant l.ts; energy_kwh = req.energy_kwh };
    payload = req;
    ntp_delta = l.drift;
    ntp_pass = l.ntp_pass;
    payload_sha256 = sha256_hash e.host e.crypto (message_of req);
  }

  unfoldable pub validation_row : TelemetryRequest → Draws → Layers → Validation
  unfolding confidence_of
  validation_row req draws l = record {
    validation_id = draws.validation_id;
    plant_id = req.plant_id;
    period_start = instant l.ts;
    period_end = instant l.ts + hour_us;
    energy_kwh = req.energy_kwh;
    status = stored_status (confidence_of l).status;
  }

  unfoldable pub report_of : Draws → Layers → Report
  unfolding anomaly_flags_of confidence_of
  report_of draws l = record {
    validation_id = draws.validation_id;
    telemetry_id = draws.telemetry_id;
    confidence = confidence_of l;
    anomaly_flags = or_null (anomaly_flags_of l);
    ntp_drift = l.drift;
    physics = l.physics;
    satellite = l.satellite;
    consensus = l.consensus;
    consensus_details = or_null l.consensus.neighbors;
  }

  -- An action on the table of nonces.
  abbrev pub on_nonces : {A : Type 0} → Action (List UsedNonce) A → Action Site A
  on_nonces m s = let (r, n) = m s.nonces in (r, record s { nonces = n })

  abbrev pub store_rows : TelemetryRow → Validation → Report → Site → Site
  store_rows row validation report s = record s {
    telemetry = s.telemetry ++ row ∷ [];
    reports = s.reports ++ report ∷ [];
    world = record s.world {
      db = record s.world.db { validations = s.world.db.validations ++ validation ∷ [] };
    };
  }

  -- The steps up to the layers, which write nothing.
  unfoldable pub check_layers :
      SatelliteProvider e.fl e.sun → TelemetryRequest → Draws → Action Site Layers
  check_layers provider req draws = do
    found ← gets (λ s. find (λ (p : Plant). p.plant_id == req.plant_id) s.plants)
    plant ← or_raise found Exn.plant_not_found
    raise_if
        (not (verify_ecdsa_signature e.host e.crypto req.public_key req.signature (message_of req)))
        Exn.bad_signature
    seen ← gets (λ s. check_nonce_replay req.nonce req.plant_id draws.checked_at s.nonces)
    raise_if seen Exn.replayed
    ntp ← λ s. (check_ntp_drift e.iso req.timestamp draws.server_now, s)
    ts ← or_raise (e.iso.fromisoformat (e.iso.replace_z req.timestamp)) Exn.bad_timestamp
    consensus ← gets (consensus_of plant req ts)
    pure (record {
      ntp_pass = ntp.0;
      drift = ntp.1;
      ts = ts;
      physics = physics_of plant req ts;
      satellite = satellite_of provider draws plant req ts;
      consensus = consensus;
    })

  -- The rows and the nonce, up to the first commit.
  unfoldable pub store_reading : TelemetryRequest → Draws → Layers → Action Site (Unit {0})
  store_reading req draws l = do
    modify (store_rows (telemetry_row req draws l) (validation_row req draws l) (report_of draws l))
    on_nonces (register_nonce req.nonce req.plant_id draws.registered_at)

  -- The issuance for an approved reading, and the second commit. Whatever is raised is caught: the
  -- database is rolled back to the first commit, the providers keep what was done to them, and the
  -- result of the issuance stays if it is the commit that raises.
  unfoldable pub try_issue :
      TelemetryRequest → Draws → Layers → Site → Option HecIssuanceResult × Site
  try_issue req draws l s =
      let (r, w) =
        issue_hec e.host e.certificate e.pdf draws.hec_id req.plant_id (validation_row req draws l)
          draws.issued_at draws.now s.world in
      elim ((confidence_of l).status) [
        | approved ↦ elim r [
          | ok issued ↦
              let kept = if draws.commit_fails then s.world.db else w.db in
              (some issued, record s { world = record w { db = kept } })
          | err x ↦ (none, record s { world = record w { db = s.world.db } })
        ]
        | review ↦ (none, s)
        | rejected ↦ (none, s)
      ]

  -- What is answered, from the layers and the certificate.
  abbrev pub Ingested : Type 0
  Ingested = Layers × Option HecIssuanceResult

  -- Up to the first commit; a request that raises before it leaves everything as it was.
  unfoldable pub admit_reading :
      SatelliteProvider e.fl e.sun → TelemetryRequest → Draws → Action Site Layers
  admit_reading provider req draws =
      transaction (do l ← check_layers provider req draws; store_reading req draws l; pure l)

  unfoldable pub ingest_telemetry :
      SatelliteProvider e.fl e.sun → TelemetryRequest → Draws → Action Site Ingested
  unfolding admit_reading
  ingest_telemetry provider req draws = do
    l ← admit_reading provider req draws
    issued ← λ s. let (i, t) = try_issue req draws l s in (ok i, t)
    pure (l, issued)
