-- ===== src/Consumer/Board.antt =====
-- app/api/consumer_pf.py: the bodies of the answers: the summaries of a user and of a tier, the months
-- and the leaderboard. `before` is the order of the texts of months.
pub mod Laws
use hec_mvp.Base.{
  ℕ, zero, suc, ◌+◌, ◌-◌, ◌*◌, ◌/◌, String, Bool, true, not, ◌&&◌, ◌||◌, Option, none, some, List,
  [], ◌∷◌, ◌++◌, map, text_beq, ltb, ◌==◌, if◌then◌else◌, is_some, nat_eq, string_eq, is_empty,
  take, select, find, count_if, order_by,
}
use Prim.Native.String.{◌++◌ as text_append}
use hec_mvp.Ledger.{User}
use hec_mvp.Store.{
  ConsumerProfile, ConsumerDashboardSnapshot, DnftDefinition, UserRoleBinding, Store,
}
use hec_mvp.Identity.{TextOps, avatar_seed_from_name, profile_of, text_or, has_text}
use hec_mvp.Consumer.Tiers.{ordered, dnft_progress_from_total}
use hec_mvp.Consumer.History.{Clock}

pub record MonthlyFootprintItem : Type 0 where
  pub month : String
  pub consumed_kwh : ℕ
  pub retired_mhec : ℕ
  pub retirement_pct : ℕ

pub record DnftTierHistoryItem : Type 0 where
  pub level : ℕ
  pub name : String
  pub at : ℕ
  pub icon : String

pub record DnftSummary : Type 0 where
  pub name : String
  pub tier : ℕ
  pub progress : ℕ
  pub mhecs_to_evolve : ℕ
  pub benefits : List String
  pub history : List DnftTierHistoryItem

pub record PfUserSummary : Type 0 where
  pub user_id : ℕ
  pub name : String
  pub email : String
  pub avatar : String
  pub plan : String
  pub person_type : String
  pub premmia_id : Option String
  pub premmia_points : ℕ
  pub level : ℕ
  pub level_name : String
  pub next_level : Option String
  pub next_level_at : ℕ
  pub current_xp : ℕ
  pub pct_level : ℕ
  pub total_retired_mhec : ℕ
  pub co2_avoided_tons : ℕ
  pub trees_equivalent : ℕ
  pub streak_days : ℕ
  pub joined_date : String
  pub roles : List String

pub record LeaderboardItem : Type 0 where
  pub position : ℕ
  pub name : String
  pub retired_mhec : ℕ
  pub level_name : String
  pub streak_days : ℕ
  pub is_user : Bool

-- `[now - timedelta(days=30 * i) for i in range(n - 1, -1, -1)]` as months.
pub month_keys_last_n : Clock → ℕ → ℕ → List String
month_keys_last_n clock zero now = []
month_keys_last_n clock (suc i) now =
    clock.month_of (clock.month_start now - 30 * i * 86400) ∷ month_keys_last_n clock i now

-- `_load_monthly_footprint`: the six latest months.
unfoldable pub load_monthly_footprint :
    (String → String → Bool) → ℕ → Store → List ConsumerDashboardSnapshot
load_monthly_footprint before user_id s = take 6 (
    order_by (λ (a b : ConsumerDashboardSnapshot). before b.reference_month a.reference_month)
      (select (λ (x : ConsumerDashboardSnapshot). x.user_id == user_id) s.snapshots.rows))

pub monthly_footprint_response :
    (String → String → Bool)
    → Clock
    → ℕ
    → List ConsumerDashboardSnapshot
    → List MonthlyFootprintItem
monthly_footprint_response before clock now snapshots = elim snapshots [
  | [] ↦
      map
        (λ (m : String). record {
          month = m;
          consumed_kwh = 0;
          retired_mhec = 0;
          retirement_pct = 0;
        })
        (month_keys_last_n clock 6 now)
  | x ∷ xs ↦
      map
        (λ (s : ConsumerDashboardSnapshot). record {
          month = s.reference_month;
          consumed_kwh = s.consumed_kwh;
          retired_mhec = s.retired_mhec;
          retirement_pct = s.retirement_pct;
        })
        (order_by (λ (a b : ConsumerDashboardSnapshot). before a.reference_month b.reference_month)
          (x ∷ xs))
]

pub dnft_history : List DnftDefinition → List DnftTierHistoryItem
dnft_history tiers =
    map
      (λ (t : DnftDefinition). record {
        level = t.tier_level;
        name = t.tier_name;
        at = t.min_mhec_required;
        icon = t.icon;
      })
      (ordered tiers)

pub build_dnft_summary : Clock → ConsumerProfile → List DnftDefinition → DnftSummary
build_dnft_summary clock profile tiers =
    let progress = dnft_progress_from_total clock.percent profile.total_retired_mhec tiers in
    record {
      name = text_append "Placa Solar - " progress.current_name;
      tier = progress.current_level;
      progress = progress.progress_pct;
      mhecs_to_evolve = progress.mhecs_to_evolve;
      benefits = progress.benefits;
      history = dnft_history tiers;
    }

pub current_roles : TextOps → User → Store → List String
current_roles ops user s =
    let values =
      map (λ (b : UserRoleBinding). b.role_code)
        (order_by (λ (a b : UserRoleBinding). ltb a.created_at b.created_at)
          (select (λ (b : UserRoleBinding). b.user_id == user.user_id) s.bindings.rows)) in
    let sold =
      if text_beq user.role "seller" && not (has_text "generator" values)
      then values ++ "generator" ∷ []
      else values in
    ops.sorted_set (if has_text "consumer" sold then sold else sold ++ "consumer" ∷ [])

pub build_user_summary :
    TextOps → Clock → User → ConsumerProfile → List DnftDefinition → ℕ → Store → PfUserSummary
build_user_summary ops clock user profile tiers now s =
    let progress = dnft_progress_from_total clock.percent profile.total_retired_mhec tiers in
    record {
      user_id = user.user_id;
      name = text_or profile.display_name user.name;
      email = user.email;
      avatar =
          if is_empty profile.avatar_seed
          then avatar_seed_from_name ops user.name
          else profile.avatar_seed;
      plan = if is_empty profile.plan_name then "Ouro Verde" else profile.plan_name;
      person_type = profile.person_type;
      premmia_id = profile.premmia_id;
      premmia_points = profile.premmia_points;
      level = progress.current_level;
      level_name = progress.current_name;
      next_level = progress.next_name;
      next_level_at = progress.next_target;
      current_xp = profile.total_retired_mhec;
      pct_level = progress.progress_pct;
      total_retired_mhec = profile.total_retired_mhec;
      co2_avoided_tons = profile.total_co2_avoided_tons;
      trees_equivalent = profile.total_trees_equivalent;
      streak_days = profile.current_streak_days;
      joined_date = elim profile.joined_at [
        | none ↦ clock.joined_of now
        | some t ↦ clock.joined_of t
      ];
      roles = current_roles ops user s;
    }

-- `desc(total_retired_mhec), desc(current_streak_days)`
abbrev pub outranks : ConsumerProfile → ConsumerProfile → Bool
outranks a b =
    ltb b.total_retired_mhec a.total_retired_mhec
    || a.total_retired_mhec == b.total_retired_mhec
      && ltb b.current_streak_days a.current_streak_days

abbrev pub time_or_zero : Option ℕ → ℕ
time_or_zero none = 0
time_or_zero (some t) = t

-- The order of the query, with `joined_at.asc()` last.
abbrev pub ranks : ConsumerProfile → ConsumerProfile → Bool
ranks a b =
    outranks a b
    || (a.total_retired_mhec == b.total_retired_mhec
        && a.current_streak_days == b.current_streak_days)
      && ltb (time_or_zero a.joined_at) (time_or_zero b.joined_at)

-- The join with the users.
abbrev pub owner_of : Store → ConsumerProfile → Option User
owner_of s p = find (λ (u : User). u.user_id == p.user_id) s.users.rows

abbrev pub owner_name : Store → ConsumerProfile → String
owner_name s p = elim (owner_of s p) [ none ↦ "" | some u ↦ u.name ]

unfoldable pub top_ten : Store → List ConsumerProfile
top_ten s =
    take 10
      (order_by ranks (select (λ (p : ConsumerProfile). is_some (owner_of s p)) s.profiles.rows))

-- `tier_name_by_level.get(level, default)`: of two rows with a level the later stays in the dict.
pub level_name_of : List DnftDefinition → ℕ → String → String
level_name_of [] level default = default
level_name_of (t ∷ ts) level default =
    level_name_of ts level (if t.tier_level == level then t.tier_name else default)

module _ (clock : Clock) where
  unfoldable pub board_item :
      List DnftDefinition → ℕ → String → Bool → ConsumerProfile → LeaderboardItem
  board_item tiers position name is_user p =
      let level = dnft_progress_from_total clock.percent p.total_retired_mhec tiers in
      record {
        position = position;
        name = text_or p.display_name name;
        retired_mhec = p.total_retired_mhec;
        level_name = level_name_of tiers level.current_level level.current_name;
        streak_days = p.current_streak_days;
        is_user = is_user;
      }

  -- `enumerate(rows, start=1)`
  unfoldable pub board_items :
      Store → List DnftDefinition → ℕ → ℕ → List ConsumerProfile → List LeaderboardItem
  board_items s tiers user_id position [] = []
  board_items s tiers user_id position (p ∷ ps) =
      board_item tiers position (owner_name s p) (p.user_id == user_id) p
      ∷ board_items s tiers user_id (position + 1) ps

  unfoldable pub build_leaderboard : User → List DnftDefinition → Store → List LeaderboardItem
  build_leaderboard user tiers s =
      let items = board_items s tiers user.user_id 1 (top_ten s) in
      if is_some (find (λ (i : LeaderboardItem). i.is_user) items)
      then items
      else elim (profile_of user.user_id s) [
        | none ↦ items
        | some p ↦
            let better = count_if (λ (q : ConsumerProfile). outranks q p) s.profiles.rows in
            items ++ board_item tiers (better + 1) user.name true p ∷ []
      ]
