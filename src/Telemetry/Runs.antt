-- ===== src/Telemetry/Runs.antt =====
-- Sequences of ingestions: a replay is refused after any of them, and the custody books stay balanced.
use hec_mvp.Base.{
  ℕ, ◌+◌, ◌≤◌, String, ◌≡◌, refl, sym, ap, ◌∙◌, subst, inl, inr, Bool, true, ◌&&◌, none, some, List,
  [], ◌∷◌, ◌++◌, arith, ◌==◌, text_beq, is_some, nat_eq, string_eq, find, eq_iff,
}
use hec_mvp.Base.Rows.{find-append_any, find-append_last}
use hec_mvp.Base.Result.{Exn, Result, ok, err}
use hec_mvp.Consensus.{Plant}
use hec_mvp.Ledger.{HecCertificate, Db}
use hec_mvp.Ledger.Books.{IsBooked}
use hec_mvp.Satellite.{SatelliteProvider}
use hec_mvp.Security.{UsedNonce, check_nonce_replay, nonce_window, is_recent}
use hec_mvp.Issuance.Laws.{add_hec-IsBooked}
use hec_mvp.Telemetry.{
  Edge, TelemetryRequest, Draws, Site, Ingested, check_layers, ingest_telemetry, message_of,
  validation_row,
}
use hec_mvp.Security.Signature.{verify_ecdsa_signature}
use hec_mvp.Telemetry.Cases.{entry}
use hec_mvp.Telemetry.Laws.{ingest-Ingests, ingest_refused}

module _ (e : Edge) where
  pub record Arrival : Type 0 where
    pub provider : SatelliteProvider e.fl e.sun
    pub req : TelemetryRequest e
    pub draws : Draws e

  abbrev pub serve : Site e → Arrival → Site e
  serve s a = (ingest_telemetry e a.provider a.req a.draws s).1

  unfoldable pub serve_all : Site e → List Arrival → Site e
  serve_all s [] = s
  serve_all s (a ∷ arrivals) = serve_all (serve s a) arrivals

  module _ (nonce : String) (plant_id t : ℕ) where
    abbrev seen : UsedNonce → Bool
    seen u = text_beq u.nonce nonce && u.plant_id == plant_id && is_recent t u

    -- The plants are those of before, and what was seen of the nonce still is.
    abbrev Remembers : Site e → Site e → Type 0
    Remembers s v =
        (v.plants ≡ s.plants)
        × (is_some (find seen s.nonces) ≡ true → is_some (find seen v.nonces) ≡ true)

    serve-Remembers : (s : Site e) (a : Arrival) → Remembers s (serve s a)
    serve-Remembers s a = elim (ingest-Ingests e a.provider a.req a.draws s) [
      | inl (x, refused) ↦
          subst (Remembers s) (sym (ap (λ (o : Result (Ingested e) × Site e). o.1) refused))
            (refl, λ h. h)
      | inr (l, issued, v, done, i) ↦
          subst (Remembers s) (sym (ap (λ (o : Result (Ingested e) × Site e). o.1) done)) (
            i.plants,
            λ h.
                subst (λ ns. is_some (find seen ns) ≡ true) (sym i.nonces)
                  (find-append_any seen s.nonces (entry e a.provider a.req a.draws ∷ []) h),
          )
    ]

    serve_all-Remembers :
        (s : Site e) (arrivals : List Arrival) → Remembers s (serve_all s arrivals)
    unfolding serve_all
    serve_all-Remembers s [] = (refl, λ h. h)
    serve_all-Remembers s (a ∷ arrivals) =
        let first = serve-Remembers s a in
        let rest = serve_all-Remembers (serve s a) arrivals in
        (rest.0 ∙ first.0, λ h. rest.1 (first.1 h))

  -- A signed request of a plant on record, whose nonce was seen, is a replay.
  replay_refused :
      (provider : SatelliteProvider e.fl e.sun) (req : TelemetryRequest e) (draws : Draws e)
      (s : Site e) (plant : Plant)
      → find (λ (p : Plant). p.plant_id == req.plant_id) s.plants ≡ some plant
      → verify_ecdsa_signature e.host e.crypto req.public_key req.signature (message_of e req)
        ≡ true
      → check_nonce_replay req.nonce req.plant_id draws.checked_at s.nonces ≡ true
      → ingest_telemetry e provider req draws s ≡ (err Exn.replayed, s)
  unfolding check_layers
  replay_refused provider req draws s plant known signed again =
      ingest_refused e provider req draws s (rw (check_layers, known, signed, again) refl)

  -- After a reading was accepted and any other requests were served, with any outcomes, the same
  -- request that is checked within 60 seconds of the nonce's entry is refused as a replay and changes
  -- nothing, whatever the clocks, ids and satellite readings that it meets.
  pub ingest_twice :
      (a again : Arrival) (between : List Arrival) (s : Site e) (r : Ingested e)
      → (ingest_telemetry e a.provider a.req a.draws s).0 ≡ ok r
      → again.draws.checked_at ≤ a.draws.registered_at + nonce_window
      → let w = serve_all (serve s a) between in
        ingest_telemetry e again.provider a.req again.draws w ≡ (err Exn.replayed, w)
  unfolding check_nonce_replay
  ingest_twice a again between s r accepted soon =
      let t = again.draws.checked_at in
      let w = serve_all (serve s a) between in
      elim (ingest-Ingests e a.provider a.req a.draws s) [
        | inl (x, refused) ↦ absurd (
            let no : ◌≡◌ {A = Result (Ingested e)} (err x) (ok r) =
              sym (ap (λ (o : Result (Ingested e) × Site e). o.0) refused) ∙ accepted in
            cc)
        | inr (l, issued, v, done, i) ↦
            let kept = serve_all-Remembers a.req.nonce a.req.plant_id t v between in
            let new = entry e a.provider a.req a.draws in
            let entered : is_some (find (seen a.req.nonce a.req.plant_id t) v.nonces) ≡ true =
              subst (λ ns. is_some (find (seen a.req.nonce a.req.plant_id t) ns) ≡ true)
                (sym i.nonces)
                (find-append_last (seen a.req.nonce a.req.plant_id t) s.nonces new
                  (ground (arith, eq_iff a.req.nonce a.req.nonce))) in
            subst
              (λ u.
                let z = serve_all u between in
                ingest_telemetry e again.provider a.req again.draws z ≡ (err Exn.replayed, z))
              (sym (ap (λ (o : Result (Ingested e) × Site e). o.1) done))
              (replay_refused again.provider a.req again.draws (serve_all v between) i.passed.plant
                (ap (find (λ (p : Plant). p.plant_id == a.req.plant_id)) (kept.0 ∙ i.plants)
                  ∙ i.passed.known)
                i.passed.signed (kept.1 entered))
      ]

  -- The id that an arrival draws for a certificate is new.
  abbrev pub DrawsNew : Site e → Arrival → Type 0
  DrawsNew s a = find (λ (h : HecCertificate). h.hec_id == a.draws.hec_id) s.world.db.hecs ≡ none

  ingest-IsBooked :
      (a : Arrival) (s : Site e)
      → IsBooked s.world.db
      → DrawsNew s a
      → IsBooked (serve s a).world.db
  ingest-IsBooked a s books new = elim (ingest-Ingests e a.provider a.req a.draws s) [
    | inl (x, refused) ↦
        subst (λ v. IsBooked v.world.db)
          (sym (ap (λ (o : Result (Ingested e) × Site e). o.1) refused)) books
    | inr (l, issued, v, done, i) ↦
        let db : Db = record s.world.db {
          validations = s.world.db.validations ++ validation_row e a.req a.draws l ∷ [];
        } in
        let validated : IsBooked db = record {
          hec_keys = books.hec_keys;
          lot_keys = books.lot_keys;
          wallet_keys = books.wallet_keys;
          backed = books.backed;
          held = books.held;
          balanced = books.balanced;
        } in
        subst (λ v. IsBooked v.world.db) (sym (ap (λ (o : Result (Ingested e) × Site e). o.1) done))
          (elim i.database [
            | inl same ↦ subst IsBooked (sym same) validated
            | inr (passed, more) ↦ subst IsBooked (sym more.rows) (
                add_hec-IsBooked db more.row validated more.lotless (
                  subst (λ k. find (λ (h : HecCertificate). h.hec_id == k) db.hecs ≡ none)
                    (sym more.named) new))
          ])
  ]

  -- Each arrival draws an id that is new when it is served.
  abbrev pub AllDrawNew : Site e → List Arrival → Type 0
  AllDrawNew s [] = Unit {0}
  AllDrawNew s (a ∷ arrivals) = DrawsNew s a × AllDrawNew (serve s a) arrivals

  -- Any sequence of readings, accepted or refused, certified or not, and with any failures of the
  -- providers, keeps the custody books balanced, if each draws a new id for its certificate.
  pub ingest_all-IsBooked :
      (s : Site e) (arrivals : List Arrival)
      → IsBooked s.world.db
      → AllDrawNew s arrivals
      → IsBooked (serve_all s arrivals).world.db
  unfolding serve_all
  ingest_all-IsBooked s [] books new = books
  ingest_all-IsBooked s (a ∷ arrivals) books new =
      ingest_all-IsBooked (serve s a) arrivals (ingest-IsBooked a s books new.0) new.1
