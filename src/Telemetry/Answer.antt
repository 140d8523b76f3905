-- ===== src/Telemetry/Answer.antt =====
-- app/api/telemetry.py: the status code of a refusal, and the answer to a reading that was stored. The
-- numbers in a message are values of the answer too and are left out of it.
use hec_mvp.Base.{
  ℕ, ◌≡◌, String, Bool, true, false, not, ◌||◌, if◌then◌else◌, is_some, Option, none, some, List,
  [], ◌∷◌, ◌++◌, arith, is_empty, nat_eq, string_eq,
}
use mathlib.Core.Option
use hec_mvp.Base.Int.{ℤ}
use hec_mvp.Base.Result.{Exn}
use hec_mvp.Confidence.{
  Status, ConfidenceBreakdown, approved, review, rejected, calculate_confidence,
}
use hec_mvp.Issuance.{HecIssuanceResult}
use hec_mvp.Telemetry.{Edge, TelemetryRequest, Draws, Ingested, confidence_of, message_of}
use hec_mvp.Security.Signature.{sha256_hash}

abbrev pub code_of : Exn → ℕ
code_of Exn.plant_not_found = 404
code_of Exn.bad_signature = 401
code_of Exn.replayed = 409
code_of Exn.bad_timestamp = 422
code_of _ = 500

-- The layers that a message names.
pub data Layer : Type 0 where
  physics ntp satellite consensus : Layer

abbrev pub layer_eq : Layer → Layer → Bool
layer_eq physics physics = true
layer_eq ntp ntp = true
layer_eq satellite satellite = true
layer_eq consensus consensus = true
layer_eq _ _ = false

abbrev pub listed : Layer → List Layer → Bool
listed l [] = false
listed l (k ∷ ks) = layer_eq l k || listed l ks

-- `consensus_pass is False`
abbrev pub is_false : Option Bool → Bool
is_false (some false) = true
is_false _ = false

abbrev pub named_if : Bool → Layer → List Layer
named_if true l = l ∷ []
named_if false l = []

-- The note on a certificate: its id, registered or pending.
pub data HecNote : Type 0 where
  hec_registered hec_pending : ℕ → HecNote

-- `message`: "REJECTED" and "REVIEW" with their failures, "APPROVED" with the verdict of the consensus.
pub data Message : Type 0 where
  rejected_for review_for : List Layer → Message
  approved_with : Option Bool → Option HecNote → Message

unfoldable pub hec_note : Option HecIssuanceResult → Option HecNote
hec_note none = none
hec_note (some r) =
    some (if is_empty r.registry_tx_hash then hec_pending r.hec_id else hec_registered r.hec_id)

-- The message of a verdict over the four layers that can fail.
unfoldable pub message_for :
    Status → Bool → Bool → Bool → Option Bool → Option HecIssuanceResult → Message
unfolding hec_note
message_for rejected ntp_pass physics_pass satellite_pass consensus_pass issued = rejected_for (
    named_if (not physics_pass) physics
    ++ named_if (not ntp_pass) ntp
    ++ named_if (not satellite_pass) satellite
    ++ named_if (is_false consensus_pass) consensus)
message_for review ntp_pass physics_pass satellite_pass consensus_pass issued = review_for (
    named_if (not ntp_pass) ntp
    ++ named_if (not satellite_pass) satellite
    ++ named_if (is_false consensus_pass) consensus)
message_for approved ntp_pass physics_pass satellite_pass consensus_pass issued =
    approved_with consensus_pass (hec_note issued)

-- Whether a message names a layer.
unfoldable pub names : Layer → Message → Bool
names l (rejected_for ls) = listed l ls
names l (review_for ls) = listed l ls
names l (approved_with c n) = false

-- Whether a layer fails.
abbrev pub fails : Layer → Bool → Bool → Bool → Option Bool → Bool
fails physics n p t c = not p
fails ntp n p t c = not n
fails satellite n p t c = not t
fails consensus n p t c = is_false c

-- Whatever the layers say, the message of the verdict that they are given names exactly the layers
-- that fail: one of a review names no physics, and none is missing.
pub names_iff :
    (l : Layer) (n p t : Bool) (c : Option Bool) (issued : Option HecIssuanceResult)
    → names l (message_for (calculate_confidence true n p t c).status n p t c issued)
      ≡ fails l n p t c
unfolding names message_for calculate_confidence
names_iff l n p t c issued = ground arith

module _ (e : Edge) where
  pub record TelemetryResponse : Type 0 where
    pub status : Status
    pub telemetry_id : ℕ
    pub plant_id : ℕ
    pub timestamp : String
    pub payload_sha256 : String
    pub ntp_drift : ℤ
    pub ntp_pass : Bool
    pub theoretical_max_kwh : e.fl.F
    pub physics_pass : Bool
    pub solar_elevation_deg : e.fl.F
    pub ghi_clear_sky_wm2 : e.fl.F
    pub satellite_ghi_wm2 : e.fl.F
    pub satellite_max_kwh : e.fl.F
    pub satellite_pass : Bool
    pub cloud_cover_pct : e.fl.F
    pub consensus_pass : Option Bool
    pub consensus_deviation_pct : Option ℕ
    pub consensus_neighbors : ℕ
    pub validation_id : ℕ
    pub confidence : ConfidenceBreakdown
    pub hec_id : Option ℕ
    pub certificate_hash : Option String
    pub registry_tx_hash : Option String
    pub backing_complete : Bool
    pub message : Message

  -- `resp_status` is "accepted" for an approved reading, and otherwise the verdict.
  unfoldable pub telemetry_response : TelemetryRequest e → Draws e → Ingested e → TelemetryResponse
  unfolding message_for
  telemetry_response req draws (l, issued) =
      let conf = confidence_of e l in
      record {
        status = conf.status;
        telemetry_id = draws.telemetry_id;
        plant_id = req.plant_id;
        timestamp = req.timestamp;
        payload_sha256 = sha256_hash e.host e.crypto (message_of e req);
        ntp_drift = l.drift;
        ntp_pass = l.ntp_pass;
        theoretical_max_kwh = l.physics.theoretical_max_kwh;
        physics_pass = l.physics.physics_pass;
        solar_elevation_deg = l.physics.solar_elevation_deg;
        ghi_clear_sky_wm2 = l.physics.ghi_clear_sky_wm2;
        satellite_ghi_wm2 = l.satellite.satellite_ghi_wm2;
        satellite_max_kwh = l.satellite.satellite_max_kwh;
        satellite_pass = l.satellite.satellite_pass;
        cloud_cover_pct = l.satellite.cloud_cover_pct;
        consensus_pass = l.consensus.consensus_pass;
        consensus_deviation_pct = l.consensus.deviation_pct;
        consensus_neighbors = l.consensus.neighbors_used;
        validation_id = draws.validation_id;
        confidence = conf;
        hec_id = Option.map (λ (r : HecIssuanceResult). r.hec_id) issued;
        certificate_hash = Option.map (λ (r : HecIssuanceResult). r.certificate_hash) issued;
        registry_tx_hash = Option.map (λ (r : HecIssuanceResult). r.registry_tx_hash) issued;
        backing_complete = is_some issued;
        message =
            message_for conf.status l.ntp_pass l.physics.physics_pass l.satellite.satellite_pass
              l.consensus.consensus_pass issued;
      }
