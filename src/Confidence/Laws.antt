-- ===== src/Confidence/Laws.antt =====
-- What the score of app/confidence.py says of the layers.
use hec_mvp.Base.{
  ℕ, ◌+◌, ◌≡◌, refl, ◌≢◌, ◌⊎◌, ◌↔◌, Bool, true, false, not, Option, some, arith, if◌then◌else◌,
  nat_eq, string_eq,
}
use hec_mvp.Confidence.{
  approved, review, rejected, calculate_confidence, status_from_score, weight_signature, weight_ntp,
  weight_physics, weight_satellite, weight_consensus, total_weight,
}

-- A verdict is "approved" exactly when signature, clock, physics and satellite all pass and the
-- neighbours do not contradict the plant (an inconclusive consensus does not count against it).
pub approved_iff :
    (s n p t : Bool) (c : Option Bool)
    → ((calculate_confidence s n p t c).status ≡ approved)
      ↔ ((s ≡ true) × (n ≡ true) × (p ≡ true) × (t ≡ true) × (c ≢ some false))
unfolding calculate_confidence
approved_iff s n p t c = (λ h. ground arith, λ h. ground arith)

-- A verdict is "review" exactly when signature, clock and physics pass and one alone of satellite
-- and consensus fails.
pub review_iff :
    (s n p t : Bool) (c : Option Bool)
    → ((calculate_confidence s n p t c).status ≡ review) ↔ (
        (s ≡ true)
        × (n ≡ true)
        × (p ≡ true)
        × ((t ≡ false) × (c ≢ some false) ⊎ (t ≡ true) × (c ≡ some false)))
unfolding calculate_confidence
review_iff s n p t c = (λ h. ground arith, λ h. ground arith)

-- Whatever the other layers say, a clock drift or an energy above the theoretical maximum alone
-- makes the verdict "rejected", never "review".
pub clock_or_physics_fail-rejected :
    (s n p t : Bool) (c : Option Bool)
    → (n ≡ false) ⊎ (p ≡ false)
    → (calculate_confidence s n p t c).status ≡ rejected
unfolding calculate_confidence
clock_or_physics_fail-rejected s n p t c h = ground arith

-- What a failed layer takes off.
abbrev pub penalty : Bool → ℕ → ℕ
penalty passed weight = if passed then 0 else weight

abbrev pub contradicts : Option Bool → Bool
contradicts (some false) = true
contradicts _ = false

-- The score is 100 less the weight of each layer that fails, the clamp to 0 .. 100 never acts, the
-- five layer scores add up to it, and the status is the one that `status_from_score` reads off it.
pub score_of_penalties :
    (s n p t : Bool) (c : Option Bool)
    → let b = calculate_confidence s n p t c in
      (b.score
          + penalty s weight_signature
          + penalty n weight_ntp
          + penalty p weight_physics
          + penalty t weight_satellite
          + penalty (not (contradicts c)) weight_consensus
        ≡ total_weight)
      × (b.signature_score + b.ntp_score + b.physics_score + b.satellite_score + b.consensus_score
          ≡ b.score)
      × (status_from_score b.score ≡ b.status)
unfolding calculate_confidence status_from_score
score_of_penalties s n p t c = (by_cases s n p t c, by_sum s n p t c, refl)
  where
    by_cases :
        (s n p t : Bool) (c : Option Bool)
        → (calculate_confidence s n p t c).score
            + penalty s weight_signature
            + penalty n weight_ntp
            + penalty p weight_physics
            + penalty t weight_satellite
            + penalty (not (contradicts c)) weight_consensus
          ≡ total_weight
    by_cases s n p t c = ground arith

    by_sum :
        (s n p t : Bool) (c : Option Bool)
        → let b = calculate_confidence s n p t c in
          b.signature_score + b.ntp_score + b.physics_score + b.satellite_score + b.consensus_score
          ≡ b.score
    by_sum s n p t c = ground arith
