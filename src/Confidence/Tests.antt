-- ===== src/Confidence/Tests.antt =====
-- Runs of the confidence score at concrete layers.
use hec_mvp.Base.{◌+◌, ◌≡◌, refl, ◌≢◌, ◌↔◌, true, false, not, none, some, nat_eq, string_eq}
use hec_mvp.Confidence.{
  approved, calculate_confidence, status_from_score, weight_signature, weight_ntp, weight_physics,
  weight_satellite, weight_consensus, total_weight,
}
use hec_mvp.Confidence.Laws.{approved_iff, score_of_penalties, penalty, contradicts}

satellite_fails : (calculate_confidence true true true false none).score ≡ 85
unfolding calculate_confidence
satellite_fails = refl

approved_iff_example :
    ((calculate_confidence true true true true none).status ≡ approved)
    ↔ ((true ≡ true) × (true ≡ true) × (true ≡ true) × (true ≡ true) × (none ≢ some false))
approved_iff_example = approved_iff true true true true none

score_of_penalties_example :
    let b = calculate_confidence true true true false (some false) in
    (b.score
        + penalty true weight_signature
        + penalty true weight_ntp
        + penalty true weight_physics
        + penalty false weight_satellite
        + penalty (not (contradicts (some false))) weight_consensus
      ≡ total_weight)
    × (b.signature_score + b.ntp_score + b.physics_score + b.satellite_score + b.consensus_score
        ≡ b.score)
    × (status_from_score b.score ≡ b.status)
score_of_penalties_example = score_of_penalties true true true false (some false)
