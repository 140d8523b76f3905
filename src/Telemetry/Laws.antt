-- ===== src/Telemetry/Laws.antt =====
-- What an ingestion guarantees: of the rows it leaves, of certificates, of replays and of the books.
use hec_mvp.Base.{
  ◌+◌, ◌≡◌, refl, sym, ap, ◌∙◌, subst, ◌≢◌, ◌⊎◌, inl, inr, Bool, true, false, Option, none, some,
  [], ◌∷◌, ◌++◌, ◌==◌, nat_eq, string_eq, find,
}
use hec_mvp.Base.Int.{ℤ}
use hec_mvp.Base.Result.{
  Exn, Result, ok, err, Action, pure, ◌>>=◌, ◌>>◌, settle, settle_err, bind_ok, bind_err,
}
use hec_mvp.Confidence.{ConfidenceBreakdown, approved, calculate_confidence}
use hec_mvp.Confidence.Laws.{approved_iff}
use hec_mvp.Consensus.{Plant, ConsensusResult}
use hec_mvp.Physics.{PhysicsResult, compute_theoretical_max}
use hec_mvp.Instant.{Datetime, instant, hour_us}
use hec_mvp.Ledger.{Db, Validation}
use hec_mvp.Satellite.{SatelliteProvider, SatelliteValidationResult, validate_satellite}
use hec_mvp.Security.Drift.{ntp_max_drift, check_ntp_drift_iff, AreClose}
use hec_mvp.Security.Signature.{verify_ecdsa_signature}
use hec_mvp.Issuance.{HecIssuanceResult}
use hec_mvp.Telemetry.{
  stored_status, Report, TelemetryRow, Edge, TelemetryRequest, Draws, Layers, Site, Ingested,
  message_of, physics_of, satellite_of, consensus_of, check_layers, store_reading, telemetry_row,
  report_of, validation_row, try_issue, confidence_of, ingest_telemetry,
}
use hec_mvp.Telemetry.Cases.{
  Passed, check_layers-cases, entry, stored, is_held, store_reading-cases, Issued,
  try_issue-Finishes,
}

module _ (e : Edge) where
  module _ (provider : SatelliteProvider e.fl e.sun) (req : TelemetryRequest e)
      (draws : Draws e) where
    -- The score of the layers, the signature having been checked.
    abbrev pub score_of : Layers e → ConfidenceBreakdown
    score_of l =
        calculate_confidence true l.ntp_pass l.physics.physics_pass l.satellite.satellite_pass
          l.consensus.consensus_pass

    -- A validation and its report that say what the layers say of the reading.
    pub record Reports (l : Layers e) (row : Validation) (report : Report e) : Type 0 where
      pub same_id : report.validation_id ≡ row.validation_id
      pub of_plant : row.plant_id ≡ req.plant_id
      pub energy : row.energy_kwh ≡ req.energy_kwh
      pub hour : (row.period_start ≡ instant l.ts) × (row.period_end ≡ instant l.ts + hour_us)
      pub status : row.status ≡ stored_status (score_of l).status
      pub confidence : report.confidence ≡ score_of l
      pub drift : report.ntp_drift ≡ l.drift
      pub physics : report.physics ≡ l.physics
      pub satellite : report.satellite ≡ l.satellite
      pub consensus : report.consensus ≡ l.consensus

    -- The row of the reading that was sent.
    pub record Logs (l : Layers e) (row : TelemetryRow e) : Type 0 where
      pub of_plant : row.reading.plant_id ≡ req.plant_id
      pub time : row.reading.time ≡ instant l.ts
      pub energy : row.reading.energy_kwh ≡ req.energy_kwh
      pub payload : row.payload ≡ req
      pub drift : (row.ntp_delta ≡ l.drift) × (row.ntp_pass ≡ l.ntp_pass)

    -- What a reading that was accepted leaves: one row of telemetry, one report and one nonce more; in
    -- the database one validation, with the verdict of its layers, and at most one certificate, only if
    -- the verdict is "approved".
    pub record Ingests (s : Site e) (l : Layers e) (v : Site e) : Type 0 where
      pub passed : Passed e provider req draws s l
      pub free : is_held e provider req draws s ≡ false
      pub logged : Logs l (telemetry_row e req draws l)
      pub reported : Reports l (validation_row e req draws l) (report_of e draws l)
      pub telemetry : v.telemetry ≡ s.telemetry ++ telemetry_row e req draws l ∷ []
      pub reports : v.reports ≡ s.reports ++ report_of e draws l ∷ []
      pub nonces : v.nonces ≡ s.nonces ++ entry e provider req draws ∷ []
      pub plants : v.plants ≡ s.plants
      pub database :
          let db = record s.world.db {
            validations = s.world.db.validations ++ validation_row e req draws l ∷ [];
          } in
          (v.world.db ≡ db)
          ⊎ ((confidence_of e l).status ≡ approved) × Issued e provider req draws db v.world.db

    row-Logs : (l : Layers e) → Logs l (telemetry_row e req draws l)
    unfolding telemetry_row
    row-Logs l = record {
      of_plant = refl;
      time = refl;
      energy = refl;
      payload = refl;
      drift = (refl, refl);
    }

    rows-Reports : (l : Layers e) → Reports l (validation_row e req draws l) (report_of e draws l)
    unfolding validation_row report_of confidence_of
    rows-Reports l = record {
      same_id = refl;
      of_plant = refl;
      energy = refl;
      hour = (refl, refl);
      status = refl;
      confidence = refl;
      drift = refl;
      physics = refl;
      satellite = refl;
      consensus = refl;
    }

    -- What the first checks refuse is refused.
    pub ingest_refused :
        (s : Site e) {x : Exn}
        → check_layers e provider req draws s ≡ (err x, s)
        → ingest_telemetry e provider req draws s ≡ (err x, s)
    unfolding ingest_telemetry
    ingest_refused s refused =
        let store = λ (l : Layers e). store_reading e req draws l >> pure l in
        let after : Layers e → Action (Site e) (Ingested e) =
          λ l t. let o = try_issue e req draws l t in (ok (l, o.0), o.1) in
        ap (λ o. ((λ (_ : Site e). settle s o) >>= after) s)
          (ap (λ o. ((λ (_ : Site e). o) >>= store) s) refused)

    -- A request is refused and leaves every table and provider as it was, or is accepted: then it
    -- passed the checks of its plant, signature, nonce and timestamp, its layers are those of its
    -- plant at its time, and it leaves exactly one reading, one nonce, one validation and its report
    -- more, with the energy that was sent, the hour from the reading's time and the score and status of
    -- the layers, and at most one certificate, in no lot, if the status is "approved".
    pub ingest-Ingests :
        (s : Site e)
        → ((x : Exn) × (ingest_telemetry e provider req draws s ≡ (err x, s)))
          ⊎ ((l : Layers e) × (issued : Option HecIssuanceResult) × (v : Site e) × (ingest_telemetry
                  e provider req draws s
                ≡ (ok (l, issued), v))
              × Ingests s l v)
    unfolding ingest_telemetry
    ingest-Ingests s =
        let store = λ (l : Layers e). store_reading e req draws l >> pure l in
        let whole : Action (Site e) (Layers e) = check_layers e provider req draws >>= store in
        let after : Layers e → Action (Site e) (Ingested e) =
          λ l t. let o = try_issue e req draws l t in (ok (l, o.0), o.1) in
        elim (check_layers-cases e provider req draws s) [
          | inl (x, refused) ↦ inl (x, ingest_refused s refused)
          | inr (l, let_through, passed) ↦
              let begun = bind_ok (check_layers e provider req draws) store s let_through in
              elim (store_reading-cases e provider req draws l s) [
                | inl (held, failed) ↦
                    let raised = bind_err (store_reading e req draws l) (λ _. pure l) s failed in
                    let undone : settle s (whole s) ≡ (err Exn.integrity_error, s) =
                      settle_err s (whole s)
                        (ap (λ (o : Result (Layers e) × Site e). o.0) begun ∙ raised) in
                    inl (Exn.integrity_error, ap (λ o. ((λ (_ : Site e). o) >>= after) s) undone)
                | inr (free, done) ↦
                    let u = stored e provider req draws l s in
                    let o = try_issue e req draws l u in
                    let f = try_issue-Finishes e provider req draws l u in
                    let ended =
                      begun ∙ bind_ok (store_reading e req draws l) (λ _. pure l) s done in
                    inr (
                      l,
                      o.0,
                      o.1,
                      ap (λ o. ((λ (_ : Site e). settle s o) >>= after) s) ended,
                      record {
                        passed = passed;
                        free = free;
                        logged = row-Logs l;
                        reported = rows-Reports l;
                        telemetry = f.telemetry;
                        reports = f.reports;
                        nonces = f.nonces;
                        plants = f.plants;
                        database = f.database;
                      },
                    )
              ]
        ]

    -- What vouches for a reading that was certified.
    pub record Vouched (s : Site e) : Type 0 where
      pub plant : Plant
      pub ts : Datetime
      pub known : find (λ (p : Plant). p.plant_id == req.plant_id) s.plants ≡ some plant
      pub signed :
          verify_ecdsa_signature e.host e.crypto req.public_key req.signature (message_of e req)
          ≡ true
      pub read : e.iso.fromisoformat (e.iso.replace_z req.timestamp) ≡ some ts
      pub close : AreClose ntp_max_drift (instant ts) (instant draws.server_now)
      pub possible :
          e.fl.le (e.fl.lit req.energy_kwh 4) (physics_of e plant req ts).theoretical_max_kwh ≡ true
      pub seen :
          e.fl.le
            (e.fl.lit req.energy_kwh 4)
            (satellite_of e provider draws plant req ts).satellite_max_kwh
          ≡ true
      pub uncontested : (consensus_of e plant req ts s).consensus_pass ≢ some false

    Passed-AreClose :
        (s : Site e) (l : Layers e)
        → Passed e provider req draws s l
        → l.ntp_pass ≡ true
        → AreClose ntp_max_drift (instant l.ts) (instant draws.server_now)
    Passed-AreClose s l p timely = elim (check_ntp_drift_iff e.iso req.timestamp draws.server_now) [
      | inl (bad, raised) ↦ absurd (let no : none ≡ some l.ts = sym bad ∙ p.read in cc)
      | inr (dt, passed, drift, read, result, iff) ↦
          let same : some dt ≡ some l.ts = sym read ∙ p.read in
          let verdict : ◌≡◌ {A = Result (Bool × ℤ)} (ok (passed, drift))
              (ok (l.ntp_pass, l.drift)) =
            sym result ∙ p.timed in
          let on_time : passed ≡ true = cc in
          let at : dt ≡ l.ts = cc in
          subst (λ t. AreClose ntp_max_drift (instant t) (instant draws.server_now)) at
            (iff.0 on_time)
    ]

    -- A layer's pass is the comparison of the reported energy with its maximum.
    physics-compares :
        (plant : Plant) (ts : Datetime)
        → (physics_of e plant req ts).physics_pass
          ≡ e.fl.le (e.fl.lit req.energy_kwh 4) (physics_of e plant req ts).theoretical_max_kwh
    unfolding physics_of compute_theoretical_max
    physics-compares plant ts = refl

    satellite-compares :
        (plant : Plant) (ts : Datetime)
        → (satellite_of e provider draws plant req ts).satellite_pass
          ≡ e.fl.le
              (e.fl.lit req.energy_kwh 4)
              (satellite_of e provider draws plant req ts).satellite_max_kwh
    unfolding satellite_of validate_satellite
    satellite-compares plant ts = refl

    Passed-Vouched :
        (s : Site e) (l : Layers e)
        → Passed e provider req draws s l
        → (confidence_of e l).status ≡ approved
        → Vouched s
    unfolding confidence_of
    Passed-Vouched s l p passed =
        let (_, timely, possible, seen, uncontested) =
          (approved_iff true l.ntp_pass l.physics.physics_pass l.satellite.satellite_pass
              l.consensus.consensus_pass).0
            passed in
        record {
          plant = p.plant;
          ts = l.ts;
          known = p.known;
          signed = p.signed;
          read = p.read;
          close = Passed-AreClose s l p timely;
          possible =
              sym (physics-compares p.plant l.ts)
              ∙ ap (λ (r : PhysicsResult e.fl e.sun). r.physics_pass) (sym p.physics)
              ∙ possible;
          seen =
              sym (satellite-compares p.plant l.ts)
              ∙ ap (λ (r : SatelliteValidationResult e.fl e.sun). r.satellite_pass)
                  (sym p.satellite)
              ∙ seen;
          uncontested =
              subst (λ (c : ConsensusResult). c.consensus_pass ≢ some false) p.consensus
                uncontested;
        }

    -- An ingestion changes the table of certificates only if its reading is vouched for by all: its
    -- plant is on record, its signature verifies, its time is within 5 ms of the server's, its energy
    -- is at most what physics and satellite allow, and the neighbours do not contradict it.
    pub certified-Vouched :
        (s : Site e)
        → (ingest_telemetry e provider req draws s).1.world.db.hecs ≢ s.world.db.hecs
        → Vouched s
    certified-Vouched s changed = elim (ingest-Ingests s) [
      | inl (x, refused) ↦ absurd (changed (ap (λ o. o.1.world.db.hecs) refused))
      | inr (l, issued, v, done, i) ↦ elim i.database [
        | inl same ↦
            absurd (changed (ap (λ o. o.1.world.db.hecs) done ∙ ap (λ (d : Db). d.hecs) same))
        | inr (passed, more) ↦ Passed-Vouched s l i.passed passed
      ]
    ]
