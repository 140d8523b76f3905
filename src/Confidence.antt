-- ===== src/Confidence.antt =====
-- app/confidence.py: the official confidence score over the five layers. The weights are whole
-- numbers, so the float sum is exact and a score is a natural number.
pub mod Tests
pub mod Laws
use hec_mvp.Base.{
  ℕ, ◌+◌, ◌-◌, ◌/◌, min, max, Bool, true, false, Option, none, some, leb, if◌then◌else◌, nat_eq,
  string_eq,
}

-- The strings "approved", "review" and "rejected".
pub data Status : Type 0 where
  approved review rejected : Status

abbrev pub weight_signature : ℕ
weight_signature = 20

abbrev pub weight_ntp : ℕ
weight_ntp = 20

abbrev pub weight_physics : ℕ
weight_physics = 30

abbrev pub weight_satellite : ℕ
weight_satellite = 15

abbrev pub weight_consensus : ℕ
weight_consensus = 15

abbrev pub total_weight : ℕ
total_weight = weight_signature + weight_ntp + weight_physics + weight_satellite + weight_consensus

abbrev pub threshold_approved : ℕ
threshold_approved = 95

abbrev pub threshold_review : ℕ
threshold_review = 85

pub record ConfidenceBreakdown : Type 0 where
  pub score : ℕ
  pub status : Status
  pub signature_score : ℕ
  pub ntp_score : ℕ
  pub physics_score : ℕ
  pub satellite_score : ℕ
  pub consensus_score : ℕ
  pub signature_valid : Bool
  pub ntp_pass : Bool
  pub physics_pass : Bool
  pub satellite_pass : Bool
  pub consensus_pass : Option Bool

-- The helper at the end of the file.
pub status_from_score : ℕ → Status
status_from_score score =
    if leb threshold_approved score
    then approved
    else if leb threshold_review score
    then review
    else rejected

-- `None` stands for an inconclusive consensus, which costs nothing.
unfoldable pub consensus_points : Option Bool → ℕ
consensus_points none = weight_consensus
consensus_points (some true) = weight_consensus
consensus_points (some false) = 0

unfoldable pub calculate_confidence : Bool → Bool → Bool → Bool → Option Bool → ConfidenceBreakdown
unfolding consensus_points
calculate_confidence signature_valid ntp_pass physics_pass satellite_pass consensus_pass =
    let sig_score : ℕ = if signature_valid then weight_signature else 0 in
    let ntp_score : ℕ = if ntp_pass then weight_ntp else 0 in
    let phys_score : ℕ = if physics_pass then weight_physics else 0 in
    let sat_score : ℕ = if satellite_pass then weight_satellite else 0 in
    let cons_score : ℕ = consensus_points consensus_pass in
    let score : ℕ = max 0 (min 100 (sig_score + ntp_score + phys_score + sat_score + cons_score)) in
    record {
      score = score;
      status =
          if leb threshold_approved score
          then approved
          else if leb threshold_review score
          then review
          else rejected;
      signature_score = sig_score;
      ntp_score = ntp_score;
      physics_score = phys_score;
      satellite_score = sat_score;
      consensus_score = cons_score;
      signature_valid = signature_valid;
      ntp_pass = ntp_pass;
      physics_pass = physics_pass;
      satellite_pass = satellite_pass;
      consensus_pass = consensus_pass;
    }
