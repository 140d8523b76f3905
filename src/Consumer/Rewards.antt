-- ===== src/Consumer/Rewards.antt =====
-- app/api/consumer_pf.py: the achievements, the points they bring, and the ledger of points.
pub mod Laws
use hec_mvp.Base.{
  ℕ, ◌+◌, ◌-◌, ◌/◌, min, String, Bool, true, false, not, ◌&&◌, ◌||◌, Option, none, some, List, [],
  ◌∷◌, ◌++◌, text_beq, ltb, leb, ◌==◌, if◌then◌else◌, nat_eq, string_eq, select, find, count_if,
  order_by,
}
use Prim.Native.String.{◌++◌ as text_append}
use hec_mvp.Session.{Table, add, write, has}
use hec_mvp.Store.{
  ConsumerProfile, ConsumerDashboardSnapshot, AchievementCatalog, UserAchievement,
  ConsumerRewardLedger, Store,
}
use hec_mvp.Identity.{save_profile}
use hec_mvp.Consumer.Seeds.{ensure_catalog_seed}

-- The body of an answer, for one achievement.
pub record AchievementItem : Type 0 where
  pub code : String
  pub icon : String
  pub name : String
  pub description : String
  pub done : Bool
  pub progress_pct : ℕ
  pub progress_value : ℕ
  pub target_value : ℕ
  pub unlocked_at : Option ℕ

-- The variables that the loop over the catalog changes.
pub record Awards : Type 0 where
  pub unlocked_codes : List String
  pub points_delta : ℕ
  pub items : List AchievementItem

-- `order_by(sort_order.asc(), created_at.asc())`
abbrev pub sooner : AchievementCatalog → AchievementCatalog → Bool
sooner a b =
    ltb a.sort_order b.sort_order || a.sort_order == b.sort_order && ltb a.created_at b.created_at

unfoldable pub active_catalog : Store → List AchievementCatalog
active_catalog s = order_by sooner (select (λ (a : AchievementCatalog). a.is_active) s.catalog.rows)

unfoldable pub metric_value : ConsumerProfile → List ConsumerDashboardSnapshot → String → ℕ
metric_value profile snapshots metric_key =
    if text_beq metric_key "total_retired_mhec"
    then profile.total_retired_mhec
    else if text_beq metric_key "current_streak_days"
    then profile.current_streak_days
    else if text_beq metric_key "total_referrals"
    then profile.total_referrals
    else if text_beq metric_key "carbon_zero_months"
    then count_if (λ (s : ConsumerDashboardSnapshot). leb 10000 s.retirement_pct) snapshots
    else 0

abbrev pub is_unlock : ℕ → ℕ → UserAchievement → Bool
is_unlock user_id achievement_id r = r.user_id == user_id && r.achievement_id == achievement_id

abbrev pub is_reward : ℕ → String → ConsumerRewardLedger → Bool
is_reward user_id code r =
    r.user_id == user_id && text_beq r.source_type "achievement" && text_beq r.source_ref code

abbrev pub new_unlock : ℕ → ℕ → ℕ → UserAchievement
new_unlock user_id achievement_id now = record {
  user_id = user_id;
  achievement_id = achievement_id;
  progress_value = 0;
  is_unlocked = false;
  unlocked_at = none;
  created_at = now;
}

-- The assignments to the row of an achievement.
unfoldable pub mark : ℕ → Bool → ℕ → UserAchievement → UserAchievement
mark progress_value done now r =
    if done && not r.is_unlocked
    then record r { progress_value = progress_value; is_unlocked = true; unlocked_at = some now }
    else record r { progress_value = progress_value }

abbrev pub reward_of : ℕ → AchievementCatalog → ℕ → ConsumerRewardLedger
reward_of user_id ach now = record {
  user_id = user_id;
  source_type = "achievement";
  source_ref = ach.code;
  points_delta = ach.points_reward;
  mhec_delta = 0;
  description = text_append "Achievement unlocked: " ach.name;
  created_at = now;
}

module _ (percent : ℕ → ℕ → ℕ) where
  unfoldable pub item_of : AchievementCatalog → ℕ → UserAchievement → AchievementItem
  item_of ach progress_value row = record {
    code = ach.code;
    icon = ach.icon;
    name = ach.name;
    description = ach.description;
    done = row.is_unlocked;
    progress_pct =
        if ach.target_value == 0
        then 10000
        else min 10000 (percent progress_value ach.target_value);
    progress_value = progress_value;
    target_value = ach.target_value;
    unlocked_at = row.unlocked_at;
  }

  -- The row of an achievement after its round, new or changed.
  unfoldable pub store_unlock : ℕ → ℕ → ℕ → Bool → ℕ → Table UserAchievement → Table UserAchievement
  store_unlock user_id achievement_id progress_value done now t =
      if has (is_unlock user_id achievement_id) t.rows
      then write (is_unlock user_id achievement_id) (mark progress_value done now) t
      else add (mark progress_value done now (new_unlock user_id achievement_id now)) t

  -- `existing.get(achievement_id)`, or the row that is made for it.
  unfoldable pub row_for : ℕ → ℕ → ℕ → Table UserAchievement → UserAchievement
  row_for user_id achievement_id now t = elim (find (is_unlock user_id achievement_id) t.rows) [
    | none ↦ new_unlock user_id achievement_id now
    | some r ↦ r
  ]

  -- The entry in the ledger, unless there is one for the achievement.
  unfoldable pub store_reward :
      ℕ → AchievementCatalog → ℕ → Table ConsumerRewardLedger → ℕ × Table ConsumerRewardLedger
  store_reward user_id ach now t =
      if has (is_reward user_id ach.code) t.rows
      then (0, t)
      else (ach.points_reward, add (reward_of user_id ach now) t)

  -- One round of the loop.
  unfoldable pub award :
      ℕ
      → ConsumerProfile
      → List ConsumerDashboardSnapshot
      → ℕ
      → AchievementCatalog
      → Awards × Store
      → Awards × Store
  award user_id profile snapshots now ach (w, s) =
      let progress_value = metric_value profile snapshots ach.metric_key in
      let done = leb ach.target_value progress_value in
      let row = row_for user_id ach.achievement_id now s.unlocks in
      let fresh = done && not row.is_unlocked in
      let reward = store_reward user_id ach now s.rewards in
      let item = item_of ach progress_value (mark progress_value done now row) in
      (
        record {
          unlocked_codes = if fresh then w.unlocked_codes ++ ach.code ∷ [] else w.unlocked_codes;
          points_delta = if fresh then w.points_delta + reward.0 else w.points_delta;
          items = w.items ++ item ∷ [];
        },
        record s {
          unlocks = store_unlock user_id ach.achievement_id progress_value done now s.unlocks;
          rewards = if fresh then reward.1 else s.rewards;
        },
      )

  unfoldable pub award_all :
      ℕ
      → ConsumerProfile
      → List ConsumerDashboardSnapshot
      → ℕ
      → List AchievementCatalog
      → Awards × Store
      → Awards × Store
  award_all user_id profile snapshots now [] o = o
  award_all user_id profile snapshots now (a ∷ rest) o =
      award_all user_id profile snapshots now rest (award user_id profile snapshots now a o)

  abbrev pub no_awards : Awards
  no_awards = record { unlocked_codes = []; points_delta = 0; items = [] }

  abbrev pub with_points : ℕ → ConsumerProfile → ConsumerProfile
  with_points points p = record p { premmia_points = p.premmia_points + points }

  -- The profile comes back with the points of what was unlocked.
  unfoldable pub sync_achievements :
      ConsumerProfile
      → List ConsumerDashboardSnapshot
      → ℕ
      → Store
      → (Awards × ConsumerProfile) × Store
  sync_achievements profile snapshots now s =
      let seeded = ensure_catalog_seed now s in
      let (w, t) =
        award_all profile.user_id profile snapshots now (active_catalog seeded)
          (no_awards, seeded) in
      let p = with_points w.points_delta profile in
      if w.points_delta == 0 then ((w, profile), t) else ((w, p), save_profile p t)
