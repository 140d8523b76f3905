-- ===== src/Telemetry/Cases.antt =====
-- What each stage of an ingestion does, on every outcome.
use hec_mvp.Base.{
  ◌≡◌, refl, ◌⊎◌, inl, inr, Bool, true, false, none, some, [], ◌∷◌, ◌++◌, ◌==◌, text_beq,
  Bool-cases, Option-cases, is_some, nat_eq, string_eq, find, if◌then◌else◌,
}
use hec_mvp.Base.Result.{Exn, ok, err, Result-cases}
use hec_mvp.Confidence.{Status, approved, review, rejected}
use hec_mvp.Consensus.{Plant}
use hec_mvp.Ledger.{HecCertificate, Db}
use hec_mvp.Satellite.{SatelliteProvider}
use hec_mvp.Security.{UsedNonce, check_nonce_replay, register_nonce}
use hec_mvp.Security.Drift.{check_ntp_drift}
use hec_mvp.Security.Signature.{verify_ecdsa_signature}
use hec_mvp.Issuance.{issue_hec}
use hec_mvp.Issuance.Laws.{issue_hec-rows}
use hec_mvp.World.{World}
use hec_mvp.Telemetry.{
  Edge, TelemetryRequest, Draws, Layers, Site, message_of, physics_of, satellite_of, consensus_of,
  check_layers, store_reading, store_rows, telemetry_row, validation_row, report_of, try_issue,
  confidence_of,
}

Status-cases : (st : Status) → (st ≡ approved) ⊎ (st ≡ review) ⊎ (st ≡ rejected)
Status-cases approved = inl refl
Status-cases review = inr (inl refl)
Status-cases rejected = inr (inr refl)

module _ (e : Edge) (provider : SatelliteProvider e.fl e.sun) (req : TelemetryRequest e)
    (draws : Draws e) where
  -- The layers `l` of a reading that was let through: of a plant on record, signed, with a nonce not
  -- seen, at a time that can be read.
  pub record Passed (s : Site e) (l : Layers e) : Type 0 where
    pub plant : Plant
    pub known : find (λ (p : Plant). p.plant_id == req.plant_id) s.plants ≡ some plant
    pub signed :
        verify_ecdsa_signature e.host e.crypto req.public_key req.signature (message_of e req)
        ≡ true
    pub fresh : check_nonce_replay req.nonce req.plant_id draws.checked_at s.nonces ≡ false
    pub read : e.iso.fromisoformat (e.iso.replace_z req.timestamp) ≡ some l.ts
    pub timed : check_ntp_drift e.iso req.timestamp draws.server_now ≡ ok (l.ntp_pass, l.drift)
    pub physics : l.physics ≡ physics_of e plant req l.ts
    pub satellite : l.satellite ≡ satellite_of e provider draws plant req l.ts
    pub consensus : l.consensus ≡ consensus_of e plant req l.ts s

  pub check_layers-cases :
      (s : Site e)
      → ((x : Exn) × (check_layers e provider req draws s ≡ (err x, s)))
        ⊎ ((l : Layers e) × (check_layers e provider req draws s ≡ (ok l, s)) × Passed s l)
  unfolding check_layers
  check_layers-cases s =
      let signature =
        verify_ecdsa_signature e.host e.crypto req.public_key req.signature (message_of e req) in
      let time = e.iso.fromisoformat (e.iso.replace_z req.timestamp) in
      elim (Option-cases (find (λ (p : Plant). p.plant_id == req.plant_id) s.plants)) [
        | inl unknown ↦ inl (Exn.plant_not_found, rw unknown refl)
        | inr (plant, known) ↦ elim (Bool-cases signature) [
          | inr unsigned ↦ inl (Exn.bad_signature, rw (known, unsigned) refl)
          | inl signed ↦
              elim (Bool-cases
                (check_nonce_replay req.nonce req.plant_id draws.checked_at s.nonces)) [
                  | inl seen ↦ inl (Exn.replayed, rw (known, signed, seen) refl)
                  | inr fresh ↦
                      elim (Result-cases (check_ntp_drift e.iso req.timestamp draws.server_now)) [
                        | inl (x, failed) ↦ inl (x, rw (known, signed, fresh, failed) refl)
                        | inr (ntp, timed) ↦ elim (Option-cases time) [
                          | inl bad ↦
                              inl (Exn.bad_timestamp, rw (known, signed, fresh, timed, bad) refl)
                          | inr (ts, read) ↦ inr (
                            record {
                              ntp_pass = ntp.0;
                              drift = ntp.1;
                              ts = ts;
                              physics = physics_of e plant req ts;
                              satellite = satellite_of e provider draws plant req ts;
                              consensus = consensus_of e plant req ts s;
                            },
                            rw (known, signed, fresh, timed, read) refl,
                            record {
                              plant = plant;
                              known = known;
                              signed = signed;
                              fresh = fresh;
                              read = read;
                              timed = timed;
                              physics = refl;
                              satellite = refl;
                              consensus = refl;
                            },
                          )
                        ]
                      ]
                ]
        ]
      ]

  abbrev pub entry : UsedNonce
  entry = record { nonce = req.nonce; plant_id = req.plant_id; used_at = draws.registered_at }

  -- The site after the first commit.
  abbrev pub stored : Layers e → Site e → Site e
  stored l s =
      let t =
        store_rows e (telemetry_row e req draws l) (validation_row e req draws l)
          (report_of e draws l) s in
      record t { nonces = s.nonces ++ entry ∷ [] }

  abbrev pub is_held : Site e → Bool
  is_held s = is_some (find (λ (u : UsedNonce). text_beq u.nonce req.nonce) s.nonces)

  pub store_reading-cases :
      (l : Layers e) (s : Site e)
      → (is_held s ≡ true) × ((store_reading e req draws l s).0 ≡ err Exn.integrity_error)
        ⊎ (is_held s ≡ false) × (store_reading e req draws l s ≡ (ok tt, stored l s))
  unfolding store_reading register_nonce
  store_reading-cases l s = elim (Bool-cases (is_held s)) [
    | inl held ↦ inl (held, rw held refl)
    | inr free ↦ inr (free, rw free refl)
  ]

  -- A certificate more in the database: of no lot, with the id drawn.
  pub record Issued (db : Db) (after : Db) : Type 0 where
    pub row : HecCertificate
    pub lotless : row.lot_id ≡ none
    pub named : row.hec_id ≡ draws.hec_id
    pub rows : after ≡ record db { hecs = db.hecs ++ row ∷ [] }

  -- Only the world is written, and of the database only a certificate, for an approved reading.
  pub record Finishes (l : Layers e) (u v : Site e) : Type 0 where
    pub telemetry : v.telemetry ≡ u.telemetry
    pub reports : v.reports ≡ u.reports
    pub nonces : v.nonces ≡ u.nonces
    pub plants : v.plants ≡ u.plants
    pub database :
        (v.world.db ≡ u.world.db)
        ⊎ ((confidence_of e l).status ≡ approved) × Issued u.world.db v.world.db

  -- The ends of a site whose world is another.
  in_world :
      (l : Layers e) (u : Site e) (w : World)
      → (w.db ≡ u.world.db) ⊎ ((confidence_of e l).status ≡ approved) × Issued u.world.db w.db
      → Finishes l u (record u { world = w })
  in_world l u w h = record {
    telemetry = refl;
    reports = refl;
    nonces = refl;
    plants = refl;
    database = h;
  }

  -- The second commit, or its rollback.
  committed :
      (l : Layers e) (fails : Bool) (u : Site e) (w : World)
      → (w.db ≡ u.world.db) ⊎ ((confidence_of e l).status ≡ approved) × Issued u.world.db w.db
      → Finishes l u (record u { world = record w { db = if fails then u.world.db else w.db } })
  committed l true u w h = in_world l u (record w { db = u.world.db }) (inl refl)
  committed l false u w h = in_world l u w h

  pub try_issue-Finishes : (l : Layers e) (u : Site e) → Finishes l u (try_issue e req draws l u).1
  unfolding try_issue
  try_issue-Finishes l u =
      let issue =
        issue_hec e.host e.certificate e.pdf draws.hec_id req.plant_id
          (validation_row e req draws l) draws.issued_at draws.now in
      let o = issue u.world in
      elim (Status-cases (confidence_of e l).status) [
        | inr (inl other) ↦ rw (try_issue, other) (in_world l u u.world (inl refl))
        | inr (inr other) ↦ rw (try_issue, other) (in_world l u u.world (inl refl))
        | inl passed ↦ elim (Result-cases o.0) [
          | inl (x, failed) ↦
              rw (try_issue, passed, failed)
                (in_world l u (record o.1 { db = u.world.db }) (inl refl))
          | inr (r, done) ↦
              rw (try_issue, passed, done)
                (committed l draws.commit_fails u o.1
                  (elim (issue_hec-rows e.host e.certificate e.pdf draws.hec_id req.plant_id
                    (validation_row e req draws l) draws.issued_at draws.now u.world) [
                      | inl same ↦ inl same
                      | inr (row, named, lotless, rows) ↦ inr (
                        passed,
                        record { row = row; lotless = lotless; named = named; rows = rows },
                      )
                    ]))
        ]
      ]
