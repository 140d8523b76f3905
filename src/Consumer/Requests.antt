-- ===== src/Consumer/Requests.antt =====
-- app/api/consumer_pf.py: the requests of the dashboard, for a user that the token check gives. Each
-- ends with a commit, or leaves the database as it was. `before` is the order of the texts of months.
pub mod Books
pub mod Parts
pub mod Seeding
pub mod Laws
use hec_mvp.Base.{
  ℕ, ◌+◌, ◌-◌, ◌*◌, ◌/◌, String, Bool, false, not, ◌&&◌, ◌||◌, Option, none, some, List, [], ◌∷◌,
  text_beq, ltb, ◌==◌, if◌then◌else◌, is_some, nat_eq, string_eq, is_empty, find, order_by,
}
use hec_mvp.Base.Result.{Exn, ok, Action, pure, gets, raise_if, modify, ◌>>=◌, ◌>>◌}
use Prim.Native.String.{◌++◌ as text_append}
use hec_mvp.Base.Text.{str}
use hec_mvp.Ledger.{User}
use hec_mvp.Session.{add, write}
use hec_mvp.Store.{
  ConsumerProfile, ConsumerDashboardSnapshot, ConsumerRewardLedger, DnftDefinition, Store, flush,
  request,
}
use hec_mvp.Identity.{
  TextOps, ensure_user_role_bindings, ensure_consumer_identity, avatar_seed_from_name, save_profile,
  text_or,
}
use hec_mvp.Consumer.Seeds.{ensure_catalog_seed, ensure_dnft_seed}
use hec_mvp.Consumer.Tiers.{sync_dnft_state}
use hec_mvp.Consumer.History.{Clock, sync_profile_from_burn_history, is_month, retirement_pct_of}
use hec_mvp.Consumer.Rewards.{AchievementItem, Awards, sync_achievements, with_points}
use hec_mvp.Consumer.Board.{
  PfUserSummary, DnftSummary, MonthlyFootprintItem, LeaderboardItem, load_monthly_footprint,
  monthly_footprint_response, build_dnft_summary, build_user_summary, build_leaderboard,
}

pub record DashboardResponse : Type 0 where
  pub user : PfUserSummary
  pub dnft : DnftSummary
  pub achievements : List AchievementItem
  pub monthly_footprint : List MonthlyFootprintItem
  pub leaderboard : List LeaderboardItem

pub record ProfileUpsertRequest : Type 0 where
  pub person_type : String
  pub document_id : Option String
  pub display_name : Option String
  pub avatar_seed : Option String
  pub plan_name : Option String

pub record SimulateResponse : Type 0 where
  pub amount_mhec : ℕ
  pub total_retired_mhec : ℕ
  pub unlocked_achievements : List String
  pub points_delta : ℕ
  pub premmia_points : ℕ

-- `order_by(min_mhec_required.asc()).all()`
abbrev pub tiers_of : Store → List DnftDefinition
tiers_of s =
    order_by (λ (a b : DnftDefinition). ltb a.min_mhec_required b.min_mhec_required) s.tiers.rows

-- `re.sub(r"\D+", "", document_id)` is `digits`; nothing is left of a text without digits.
unfoldable pub normalize_document : (String → String) → Option String → Option String
normalize_document digits none = none
normalize_document digits (some d) =
    let normalized = digits d in if is_empty d || is_empty normalized then none else some normalized

-- Another user's profile has the document.
abbrev pub is_taken : ℕ → Option String → Store → Bool
is_taken user_id document s = elim document [
  | none ↦ false
  | some d ↦ is_some (
      find
        (λ (p : ConsumerProfile).
          elim p.document_id [ none ↦ false | some e ↦ text_beq e d ] && not (p.user_id == user_id))
        s.profiles.rows)
]

module _ (ops : TextOps) (clock : Clock) (before : String → String → Bool) where
  -- `_sync_achievements`, with the profile that it changes.
  unfoldable pub reward :
      ConsumerProfile → List ConsumerDashboardSnapshot → ℕ → Action Store (Awards × ConsumerProfile)
  reward profile snapshots now s =
      let (r, t) = sync_achievements clock.percent profile snapshots now s in (ok r, t)

  abbrev pub dashboard_response :
      User
      → ℕ
      → List DnftDefinition
      → List ConsumerDashboardSnapshot
      → Awards × ConsumerProfile
      → Store
      → DashboardResponse
  dashboard_response user now tiers snapshots rewarded s = record {
    user = build_user_summary ops clock user rewarded.1 tiers now s;
    dnft = build_dnft_summary clock rewarded.1 tiers;
    achievements = rewarded.0.items;
    monthly_footprint = monthly_footprint_response before clock now snapshots;
    leaderboard = build_leaderboard clock user tiers s;
  }

  -- `_assemble_dashboard` from the snapshots on, from the history on, and as a whole.
  unfoldable pub fill_dashboard :
      User → ℕ → ConsumerProfile → List DnftDefinition → Action Store DashboardResponse
  fill_dashboard user now profile tiers = do
    snapshots ← gets (load_monthly_footprint before user.user_id)
    rewarded ← reward profile snapshots now
    flush
    gets (dashboard_response user now tiers snapshots rewarded)

  unfoldable pub dashboard_of : User → ℕ → ConsumerProfile → Action Store DashboardResponse
  dashboard_of user now profile = do
    tiers ← gets tiers_of
    sync_dnft_state clock.percent user.user_id profile tiers now
    fill_dashboard user now profile tiers

  unfoldable pub assemble_dashboard : User → ℕ → Action Store DashboardResponse
  assemble_dashboard user now = do
    modify (ensure_catalog_seed now)
    modify (ensure_dnft_seed now)
    modify (ensure_user_role_bindings ops user now)
    found ← ensure_consumer_identity ops user now
    profile ← sync_profile_from_burn_history clock found now
    dashboard_of user now profile

  unfoldable pub get_dashboard : User → ℕ → Action Store DashboardResponse
  get_dashboard user now = request (assemble_dashboard user now)

  unfoldable pub dnft_of : User → ℕ → ConsumerProfile → Action Store DnftSummary
  dnft_of user now profile = do
    tiers ← gets tiers_of
    sync_dnft_state clock.percent user.user_id profile tiers now
    pure (build_dnft_summary clock profile tiers)

  unfoldable pub load_dnft_summary : User → ℕ → Action Store DnftSummary
  load_dnft_summary user now = do
    modify (ensure_dnft_seed now)
    found ← ensure_consumer_identity ops user now
    profile ← sync_profile_from_burn_history clock found now
    dnft_of user now profile

  unfoldable pub get_dnft_summary : User → ℕ → Action Store DnftSummary
  get_dnft_summary user now = request (load_dnft_summary user now)

  -- The achievements of the user, with the rows and points that they bring.
  unfoldable pub achievements_of : User → ℕ → ConsumerProfile → Action Store (List AchievementItem)
  achievements_of user now profile = do
    snapshots ← gets (load_monthly_footprint before user.user_id)
    rewarded ← reward profile snapshots now
    pure rewarded.0.items

  unfoldable pub load_achievements : User → ℕ → Action Store (List AchievementItem)
  load_achievements user now = do
    modify (ensure_catalog_seed now)
    found ← ensure_consumer_identity ops user now
    profile ← sync_profile_from_burn_history clock found now
    achievements_of user now profile

  unfoldable pub get_achievements : User → ℕ → Action Store (List AchievementItem)
  get_achievements user now = request (load_achievements user now)

  -- The assignments to the profile.
  unfoldable pub edit_profile :
      User → ProfileUpsertRequest → Option String → ConsumerProfile → ConsumerProfile
  edit_profile user req document p =
      let name = text_or req.display_name (text_or p.display_name user.name) in
      record p {
        person_type = req.person_type;
        document_id = document;
        display_name = some name;
        avatar_seed = text_or req.avatar_seed (
            if is_empty p.avatar_seed
            then avatar_seed_from_name ops (if is_empty name then user.name else name)
            else p.avatar_seed);
        plan_name =
            text_or req.plan_name (if is_empty p.plan_name then "Ouro Verde" else p.plan_name);
      }

  -- What follows the check of the document, what follows the identity, and the whole.
  unfoldable pub save_edited :
      User → ℕ → ConsumerProfile → Action Store (ConsumerProfile × List DnftDefinition)
  save_edited user now edited = do
    modify (save_profile edited)
    modify (ensure_dnft_seed now)
    tiers ← gets tiers_of
    sync_dnft_state clock.percent user.user_id edited tiers now
    let both : ConsumerProfile × List DnftDefinition = (edited, tiers)
    pure both

  unfoldable pub edit_found :
      (String → String)
      → ProfileUpsertRequest
      → User
      → ℕ
      → ConsumerProfile
      → Action Store (ConsumerProfile × List DnftDefinition)
  edit_found digits req user now profile = do
    let document = normalize_document digits req.document_id
    taken ← gets (is_taken user.user_id document)
    raise_if taken Exn.document_taken
    save_edited user now (edit_profile user req document profile)

  unfoldable pub store_profile :
      (String → String)
      → ProfileUpsertRequest
      → User
      → ℕ
      → Action Store (ConsumerProfile × List DnftDefinition)
  store_profile digits req user now = do
    modify (ensure_user_role_bindings ops user now)
    profile ← ensure_consumer_identity ops user now
    edit_found digits req user now profile

  -- The answer is made after the commit.
  unfoldable pub upsert_profile :
      (String → String) → ProfileUpsertRequest → User → ℕ → Action Store PfUserSummary
  upsert_profile digits req user now = do
    stored ← request (store_profile digits req user now)
    gets (build_user_summary ops clock user stored.0 stored.1 now)

  -- The assignments of a simulated retirement to the profile; CO2 is added in 10^-5 t.
  unfoldable pub retire_profile : ℕ → ConsumerProfile → ConsumerProfile
  retire_profile amount p =
      let co2 = 10 * p.total_co2_avoided_tons + 4 * amount in
      record p {
        total_retired_mhec = p.total_retired_mhec + amount;
        current_streak_days = p.current_streak_days + 1;
        total_co2_avoided_tons = clock.column4 co2;
        total_trees_equivalent = clock.trees co2;
      }

  abbrev pub zero_snapshot : ℕ → String → ℕ → ConsumerDashboardSnapshot
  zero_snapshot user_id month now = record {
    user_id = user_id;
    reference_month = month;
    consumed_kwh = 0;
    retired_mhec = 0;
    retirement_pct = 0;
    co2_avoided_tons = 0;
    created_at = now;
  }

  -- The assignments to the snapshot of the month.
  unfoldable pub retire_snapshot : ℕ → ℕ → ConsumerDashboardSnapshot → ConsumerDashboardSnapshot
  retire_snapshot amount consumed_kwh s =
      let consumed = if ltb 0 consumed_kwh then consumed_kwh else s.consumed_kwh in
      record s {
        retired_mhec = s.retired_mhec + amount;
        consumed_kwh = consumed;
        retirement_pct = retirement_pct_of clock (s.retired_mhec + amount) consumed;
        co2_avoided_tons = clock.column4 (10 * s.co2_avoided_tons + 4 * amount);
      }

  unfoldable pub store_snapshot : ℕ → ℕ → ℕ → ℕ → Store → Store
  store_snapshot user_id amount consumed_kwh now s =
      let month = clock.month_of now in
      let known = is_some (find (is_month clock user_id month) s.snapshots.rows) in
      record s {
        snapshots =
            if known
            then write (is_month clock user_id month) (retire_snapshot amount consumed_kwh)
                s.snapshots
            else add (retire_snapshot amount consumed_kwh (zero_snapshot user_id month now))
                s.snapshots;
      }

  unfoldable pub burn_entry : ℕ → ℕ → ℕ → ConsumerRewardLedger
  burn_entry user_id amount now = record {
    user_id = user_id;
    source_type = "burn";
    source_ref = text_append "simulate:" (clock.isoformat now);
    points_delta = amount / 10;
    mhec_delta = amount;
    description = text_append "Simulated retirement of " (text_append (str amount) " mHEC");
    created_at = now;
  }

  -- The writes of a simulated retirement before the tiers and achievements are synchronised.
  unfoldable pub record_retirement : ConsumerProfile → ℕ → ℕ → ℕ → Store → ConsumerProfile × Store
  record_retirement profile amount consumed_kwh now s =
      let p = with_points clock.percent (amount / 10) (retire_profile amount profile) in
      let t = store_snapshot profile.user_id amount consumed_kwh now (save_profile p s) in
      (p, record t { rewards = add (burn_entry profile.user_id amount now) t.rewards })

  abbrev pub simulate_response : ℕ → Awards × ConsumerProfile → SimulateResponse
  simulate_response amount rewarded = record {
    amount_mhec = amount;
    total_retired_mhec = rewarded.1.total_retired_mhec;
    unlocked_achievements = rewarded.0.unlocked_codes;
    points_delta = amount / 10 + rewarded.0.points_delta;
    premmia_points = rewarded.1.premmia_points;
  }

  -- What follows the tiers, what follows the identity, and the whole.
  unfoldable pub reward_simulation : ℕ → User → ℕ → ConsumerProfile → Action Store SimulateResponse
  reward_simulation amount user now profile = do
    snapshots ← gets (load_monthly_footprint before user.user_id)
    rewarded ← reward profile snapshots now
    pure (simulate_response amount rewarded)

  unfoldable pub simulate_for : ℕ → ℕ → User → ℕ → ConsumerProfile → Action Store SimulateResponse
  simulate_for amount consumed_kwh user now found = do
    profile ← (λ s. let (p, t) = record_retirement found amount consumed_kwh now s in (ok p, t))
    tiers ← gets tiers_of
    sync_dnft_state clock.percent user.user_id profile tiers now
    reward_simulation amount user now profile

  unfoldable pub simulate : ℕ → ℕ → User → ℕ → Action Store SimulateResponse
  simulate amount consumed_kwh user now = do
    modify (ensure_catalog_seed now)
    modify (ensure_dnft_seed now)
    modify (ensure_user_role_bindings ops user now)
    found ← ensure_consumer_identity ops user now
    simulate_for amount consumed_kwh user now found

  unfoldable pub simulate_retirement : ℕ → ℕ → User → ℕ → Action Store SimulateResponse
  simulate_retirement amount consumed_kwh user now = request (simulate amount consumed_kwh user now)

-- A request with its user and the reading of the clock.
pub data Request : Type 0 where
  dashboard dnft achievements : User → ℕ → Request
  profile : ProfileUpsertRequest → User → ℕ → Request
  simulation : ℕ → ℕ → User → ℕ → Request

module _ (ops : TextOps) (clock : Clock) (before : String → String → Bool)
    (digits : String → String) where
  -- The database after a request, and after some.
  unfoldable pub serve : Request → Store → Store
  serve (Request.dashboard user now) s = (get_dashboard ops clock before user now s).1
  serve (Request.dnft user now) s = (get_dnft_summary ops clock before user now s).1
  serve (Request.achievements user now) s = (get_achievements ops clock before user now s).1
  serve (Request.profile req user now) s = (upsert_profile ops clock before digits req user now s).1
  serve (Request.simulation amount consumed user now) s =
      (simulate_retirement ops clock before amount consumed user now s).1

  unfoldable pub serve_all : List Request → Store → Store
  serve_all [] s = s
  serve_all (r ∷ rs) s = serve_all rs (serve r s)
