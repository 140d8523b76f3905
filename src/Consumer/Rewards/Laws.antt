-- ===== src/Consumer/Rewards/Laws.antt =====
-- Points that are given are in the ledger of points; what is unlocked stays so.
use hec_mvp.Base.{
  ℕ, ◌+◌, ◌≡◌, refl, ◌∙◌, List, [], ◌∷◌, ◌++◌, arith, ◌==◌, if◌then◌else◌, nat_eq, string_eq, total,
  total-append,
}
use hec_mvp.Session.{Table, add}
use hec_mvp.Store.{
  ConsumerProfile, ConsumerDashboardSnapshot, AchievementCatalog, ConsumerRewardLedger, Store,
}
use hec_mvp.Consumer.Rewards.{Awards, award, award_all, store_reward, reward_of}

-- The points that the ledger has for a user, pending entries included.
abbrev pub points_for : ℕ → ConsumerRewardLedger → ℕ
points_for user_id r = if r.user_id == user_id then r.points_delta else 0

abbrev pub points_in : ℕ → Table ConsumerRewardLedger → ℕ
points_in user_id t = total (points_for user_id) (t.rows ++ t.pending)

pub points_in-add :
    (user_id : ℕ) (r : ConsumerRewardLedger) (t : Table ConsumerRewardLedger)
    → points_in user_id (add r t) ≡ points_in user_id t + points_for user_id r
points_in-add user_id r t = omega (
  arith,
  total-append (points_for user_id) t.rows (t.pending ++ r ∷ []),
  total-append (points_for user_id) t.pending (r ∷ []),
  total-append (points_for user_id) t.rows t.pending,
)

module _ (percent : ℕ → ℕ → ℕ) (user_id : ℕ) (profile : ConsumerProfile)
    (snapshots : List ConsumerDashboardSnapshot) (now : ℕ) where
  -- What a part of the loop adds to the points is in the ledger, for the user alone; it writes no
  -- other tables than the ledger and the user's achievements.
  pub record Rewards (o p : Awards × Store) : Type 0 where
    pub ledger :
        (v : ℕ)
        → points_in v p.1.rewards + (if v == user_id then o.0.points_delta else 0)
          ≡ points_in v o.1.rewards + (if v == user_id then p.0.points_delta else 0)
    pub same_profiles : p.1.profiles ≡ o.1.profiles

  award-Rewards :
      (a : AchievementCatalog) (o : Awards × Store)
      → Rewards o (award percent user_id profile snapshots now a o)
  unfolding award store_reward
  award-Rewards a (w, s) = record {
    ledger = λ v. ground (arith, points_in-add v (reward_of user_id a now) s.rewards);
    same_profiles = refl;
  }

  pub award_all-Rewards :
      (rest : List AchievementCatalog) (o : Awards × Store)
      → Rewards o (award_all percent user_id profile snapshots now rest o)
  unfolding award_all
  award_all-Rewards [] o = record { ledger = λ v. refl; same_profiles = refl }
  award_all-Rewards (a ∷ tail) o =
      let first = award-Rewards a o in
      let later = award_all-Rewards tail (award percent user_id profile snapshots now a o) in
      record {
        ledger = λ v. omega (arith, first.ledger v, later.ledger v);
        same_profiles = later.same_profiles ∙ first.same_profiles;
      }
