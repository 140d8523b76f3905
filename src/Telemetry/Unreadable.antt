-- ===== src/Telemetry/Unreadable.antt =====
-- The answer to a timestamp that cannot be read.
use hec_mvp.Base.{ℕ, ◌≡◌, refl, ap, true, false, none, some, ◌==◌, find, nat_eq, string_eq}
use hec_mvp.Base.Result.{Exn, Result, ok, err}
use hec_mvp.Consensus.{Plant}
use hec_mvp.Satellite.{SatelliteProvider}
use hec_mvp.Security.{check_nonce_replay}
use hec_mvp.Security.Drift.{check_ntp_drift, compute_ntp_drift_ms}
use hec_mvp.Security.Signature.{verify_ecdsa_signature}
use hec_mvp.Telemetry.{
  Edge, TelemetryRequest, Draws, Site, Ingested, message_of, check_layers, ingest_telemetry,
}
use hec_mvp.Telemetry.Answer.{code_of}
use hec_mvp.Telemetry.Laws.{ingest_refused}

-- The status of an answer.
abbrev pub code_after : {A : Type 0} → Result A → ℕ
code_after (ok a) = 201
code_after (err x) = code_of x

-- A signed request of a plant on record, with a new nonce and a timestamp that cannot be read, changes
-- nothing and is answered with a 500, not with the 422 that the handler has for it.
pub unreadable_timestamp :
    (e : Edge) (provider : SatelliteProvider e.fl e.sun) (req : TelemetryRequest e)
    (draws : Draws e) (s : Site e) (plant : Plant)
    → find (λ (p : Plant). p.plant_id == req.plant_id) s.plants ≡ some plant
    → verify_ecdsa_signature e.host e.crypto req.public_key req.signature (message_of e req) ≡ true
    → check_nonce_replay req.nonce req.plant_id draws.checked_at s.nonces ≡ false
    → e.iso.fromisoformat (e.iso.replace_z req.timestamp) ≡ none
    → let o = ingest_telemetry e provider req draws s in (code_after o.0 ≡ 500) × (o.1 ≡ s)
unfolding check_layers check_ntp_drift
unreadable_timestamp e provider req draws s plant known signed fresh bad =
    let raised : check_ntp_drift e.iso req.timestamp draws.server_now ≡ err Exn.no_timestamp =
      rw (check_ntp_drift, compute_ntp_drift_ms, bad) refl in
    let refused =
      ingest_refused e provider req draws s {x = Exn.no_timestamp}
        (rw (check_layers, known, signed, fresh, raised) refl) in
    (ap (λ (o : Result (Ingested e) × Site e). code_after o.0) refused, ap (λ o. o.1) refused)
