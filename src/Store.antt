-- ===== src/Store.antt =====
-- app/models/models.py: the tables of accounts and of the consumer dashboard, their unique
-- constraints, and the flush, the commit and the rollback of a session over them. Ids that nothing
-- reads are left out, as are timestamps of updates; a burn has the columns that the dashboard reads.
-- A uuid4 is the next number of a counter: the code relies on its being new. A percentage counts
-- hundredths, a mass of CO2 10^-4 t, consumed energy 10^-3 kWh.
pub mod Samples
pub mod Keeps
use hec_mvp.Base.{
  ℕ, ◌-◌, ◌/◌, String, Bool, false, ◌&&◌, ◌||◌, Option, none, some, List, text_beq, ◌==◌,
  if◌then◌else◌, nat_eq, string_eq, total,
}
use hec_mvp.Base.Int.{ℤ}
use hec_mvp.Base.Result.{Exn, ok, err, Action, pure, ◌>>=◌, ◌>>◌}
use hec_mvp.Ledger.{User, Wallet}
use hec_mvp.Session.{Table, flushed, has, fits}

pub record GeneratorProfile : Type 0 where
  pub profile_id : ℕ
  pub user_id : ℕ
  pub person_type : String
  pub document_id : String
  pub legal_name : Option String
  pub trade_name : Option String
  pub phone : Option String
  pub attribute_assignment_accepted : Bool
  pub assignment_accepted_at : Option ℕ
  pub onboarding_status : String

-- A plant as its owner enters it; a coordinate counts 10^-6 degrees, a capacity 10^-3 kW.
pub record OwnedPlant : Type 0 where
  pub plant_id : ℕ
  pub name : String
  pub absolar_id : Option String
  pub owner_name : Option String
  pub owner_user_id : Option ℕ
  pub lat : ℤ
  pub lng : ℤ
  pub capacity_kw : ℕ
  pub status : String
  pub inverter_brand : Option String
  pub inverter_model : Option String
  pub created_at : ℕ

pub record InverterConnection : Type 0 where
  pub connection_id : ℕ
  pub profile_id : ℕ
  pub plant_id : Option ℕ
  pub provider_name : String
  pub integration_mode : String
  pub external_account_ref : Option String
  pub inverter_serial : Option String
  pub consent_accepted : Bool
  pub consented_at : Option ℕ
  pub connection_status : String
  pub last_sync_at : Option ℕ
  pub created_at : ℕ

pub record BurnCertificate : Type 0 where
  pub user_id : ℕ
  pub burned_at : Option ℕ
  pub energy_kwh : ℕ

pub record ConsumerProfile : Type 0 where
  pub user_id : ℕ
  pub person_type : String
  pub document_id : Option String
  pub display_name : Option String
  pub avatar_seed : String
  pub plan_name : String
  pub premmia_id : Option String
  pub premmia_points : ℕ
  pub current_streak_days : ℕ
  pub total_retired_mhec : ℕ
  pub total_co2_avoided_tons : ℕ
  pub total_trees_equivalent : ℕ
  pub total_referrals : ℕ
  pub joined_at : Option ℕ

pub record UserRoleBinding : Type 0 where
  pub user_id : ℕ
  pub role_code : String
  pub is_primary : Bool
  pub created_at : ℕ

pub record AchievementCatalog : Type 0 where
  pub achievement_id : ℕ
  pub code : String
  pub name : String
  pub description : String
  pub icon : String
  pub metric_key : String
  pub target_value : ℕ
  pub points_reward : ℕ
  pub is_active : Bool
  pub sort_order : ℕ
  pub created_at : ℕ

pub record UserAchievement : Type 0 where
  pub user_id : ℕ
  pub achievement_id : ℕ
  pub progress_value : ℕ
  pub is_unlocked : Bool
  pub unlocked_at : Option ℕ
  pub created_at : ℕ

pub record DnftDefinition : Type 0 where
  pub tier_level : ℕ
  pub tier_name : String
  pub min_mhec_required : ℕ
  pub icon : String
  pub benefits_json : List String
  pub created_at : ℕ

pub record UserDnftState : Type 0 where
  pub user_id : ℕ
  pub current_tier_level : ℕ
  pub current_xp_mhec : ℕ
  pub next_tier_level : ℕ
  pub next_tier_target_mhec : ℕ
  pub progress_pct : ℕ
  pub created_at : ℕ

-- The payload of an event is the total at its time.
pub record UserDnftEvent : Type 0 where
  pub user_id : ℕ
  pub from_tier_level : ℕ
  pub to_tier_level : ℕ
  pub event_type : String
  pub total_retired_mhec : ℕ
  pub created_at : ℕ

pub record ConsumerRewardLedger : Type 0 where
  pub user_id : ℕ
  pub source_type : String
  pub source_ref : String
  pub points_delta : ℕ
  pub mhec_delta : ℕ
  pub description : String
  pub created_at : ℕ

pub record ConsumerDashboardSnapshot : Type 0 where
  pub user_id : ℕ
  pub reference_month : String
  pub consumed_kwh : ℕ
  pub retired_mhec : ℕ
  pub retirement_pct : ℕ
  pub co2_avoided_tons : ℕ
  pub created_at : ℕ

pub record Store : Type 0 where
  pub users : Table User
  pub wallets : Table Wallet
  pub generators : Table GeneratorProfile
  pub plants : Table OwnedPlant
  pub connections : Table InverterConnection
  pub burns : List BurnCertificate
  pub bindings : Table UserRoleBinding
  pub profiles : Table ConsumerProfile
  pub catalog : Table AchievementCatalog
  pub unlocks : Table UserAchievement
  pub tiers : Table DnftDefinition
  pub dnft_states : Table UserDnftState
  pub dnft_events : Table UserDnftEvent
  pub rewards : Table ConsumerRewardLedger
  pub snapshots : Table ConsumerDashboardSnapshot
  pub next_id : ℕ

-- The keys of the constraints.
abbrev pub same_binding : UserRoleBinding → UserRoleBinding → Bool
same_binding a b = a.user_id == b.user_id && text_beq a.role_code b.role_code

abbrev pub same_code : AchievementCatalog → AchievementCatalog → Bool
same_code a b = text_beq a.code b.code

-- A null is no key.
abbrev pub same_text : Option String → Option String → Bool
same_text none _ = false
same_text (some x) none = false
same_text (some x) (some y) = text_beq x y

abbrev pub same_generator : GeneratorProfile → GeneratorProfile → Bool
same_generator a b = a.user_id == b.user_id || text_beq a.document_id b.document_id

abbrev pub same_profile : ConsumerProfile → ConsumerProfile → Bool
same_profile a b =
    a.user_id == b.user_id
    || same_text a.document_id b.document_id
    || same_text a.premmia_id b.premmia_id

abbrev pub same_unlock : UserAchievement → UserAchievement → Bool
same_unlock a b = a.user_id == b.user_id && a.achievement_id == b.achievement_id

abbrev pub same_snapshot : ConsumerDashboardSnapshot → ConsumerDashboardSnapshot → Bool
same_snapshot a b = a.user_id == b.user_id && text_beq a.reference_month b.reference_month

-- The unique constraints over all rows, pending ones included.
unfoldable pub is_consistent : Store → Bool
is_consistent s =
    fits (λ (a b : User). a.user_id == b.user_id || text_beq a.email b.email) s.users
    && fits (λ (a b : Wallet). a.user_id == b.user_id) s.wallets
    && fits same_generator s.generators
    && fits (λ (a b : OwnedPlant). same_text a.absolar_id b.absolar_id) s.plants
    && fits same_binding s.bindings
    && fits same_profile s.profiles
    && fits same_code s.catalog
    && fits same_unlock s.unlocks
    && fits (λ (a b : DnftDefinition). a.tier_level == b.tier_level) s.tiers
    && fits (λ (a b : UserDnftState). a.user_id == b.user_id) s.dnft_states
    && fits same_snapshot s.snapshots

abbrev pub settled : Store → Store
settled s = record s {
  users = flushed s.users;
  wallets = flushed s.wallets;
  generators = flushed s.generators;
  plants = flushed s.plants;
  connections = flushed s.connections;
  bindings = flushed s.bindings;
  profiles = flushed s.profiles;
  catalog = flushed s.catalog;
  unlocks = flushed s.unlocks;
  tiers = flushed s.tiers;
  dnft_states = flushed s.dnft_states;
  dnft_events = flushed s.dnft_events;
  rewards = flushed s.rewards;
  snapshots = flushed s.snapshots;
}

-- `db.flush()`, and the flush that a commit makes.
unfoldable pub flush : Action Store (Unit {0})
flush s = if is_consistent s then (ok tt, settled s) else (err Exn.integrity_error, s)

-- A request: its session ends with a commit, or the database stays as it was.
unfoldable pub request : {A : Type 0} → Action Store A → Action Store A
unfolding flush
request m s =
    let (r, t) = (do a ← m; flush; pure a) s in elim r [ ok a ↦ (ok a, t) | err e ↦ (err e, s) ]
