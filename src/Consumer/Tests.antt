-- ===== src/Consumer/Tests.antt =====
-- Runs of the dashboard on a small database.
use hec_mvp.Base.{
  ℕ, ◌*◌, ◌/◌, String, ◌≡◌, refl, Bool, false, List, [], ◌∷◌, arith, nat_eq, string_eq,
}
use hec_mvp.Base.Result.{Exn, err}
use hec_mvp.Ledger.Samples.{buyer}
use hec_mvp.Store.Samples.{small, ana}
use hec_mvp.Identity.Tests.{plain}
use hec_mvp.Identity.{
  ensure_user_role_bindings, demote, ensure_roles, desired_roles, ensure_role, primary_role,
  repair_profile, infer_default_person_type,
}
use hec_mvp.Consumer.Seeds.{dnft_seed, ensure_catalog_seed}
use hec_mvp.Consumer.Tiers.{dnft_progress_from_total, ordered, progress_at, position, climb}
use hec_mvp.Consumer.Tiers.Laws.{IsStanding, dnft_progress-IsStanding}
use hec_mvp.Consumer.History.{Clock, run_back, compute_streak_from_burn_days}
use hec_mvp.Consumer.History.Laws.{IsStreak, compute-IsStreak}
use hec_mvp.Consumer.Board.{build_leaderboard}
use hec_mvp.Consumer.Board.Laws.{IsBoard, build_leaderboard-IsBoard}
use hec_mvp.Consumer.Requests.{Request, serve_all, get_achievements}
use hec_mvp.Consumer.Requests.Books.{IsAccounted}
use hec_mvp.Consumer.Requests.Laws.{serve_all-IsAccounted}
use hec_mvp.Consumer.Requests.Seeding.{IsComplete, get_achievements-fails}

abbrev shares : ℕ → ℕ → ℕ
shares a b = a * 10000 / b

abbrev calendar : Clock
calendar = record {
  month_of = λ t. "1970-04";
  joined_of = λ t. "Apr/1970";
  month_start = λ t. t;
  isoformat = λ t. "1970-04-12";
  percent = shares;
  kwh_percent = λ a b. a * 10000000 / b;
  trees = λ c. c * 66 / 1000000;
  column4 = λ c. c / 10;
}

abbrev later : String → String → Bool
later a b = false

bush : (dnft_progress_from_total shares 180 (dnft_seed 0)).current_name ≡ "Arbusto"
unfolding dnft_progress_from_total ordered progress_at position climb
bush = refl

dnft_progress-IsStanding_example :
    IsStanding 180 (dnft_seed 0) (dnft_progress_from_total shares 180 (dnft_seed 0))
dnft_progress-IsStanding_example = dnft_progress-IsStanding shares 180 (dnft_seed 0) refl

compute-IsStreak_example :
    IsStreak (7 ∷ 9 ∷ 8 ∷ 5 ∷ []) 10 (compute_streak_from_burn_days (7 ∷ 9 ∷ 8 ∷ 5 ∷ []) 10)
compute-IsStreak_example = compute-IsStreak (7 ∷ 9 ∷ 8 ∷ 5 ∷ []) 10

three_days : compute_streak_from_burn_days (7 ∷ 9 ∷ 8 ∷ 5 ∷ []) 10 ≡ 3
unfolding compute_streak_from_burn_days run_back
three_days = refl

build_leaderboard-IsBoard_example :
    IsBoard calendar
      (dnft_seed 0)
      small
      buyer
      (build_leaderboard calendar buyer (dnft_seed 0) small)
build_leaderboard-IsBoard_example = build_leaderboard-IsBoard calendar (dnft_seed 0) small buyer

small-IsAccounted : IsAccounted small
small-IsAccounted = record { no_pending = refl; points = λ u. ground arith }

abbrev requests : List Request
requests =
    Request.simulation 120 0 buyer 8726500
    ∷ Request.dashboard buyer 8726600
    ∷ Request.achievements buyer 8726700
    ∷ []

serve_all-IsAccounted_example : IsAccounted (serve_all plain calendar later (λ d. d) requests small)
serve_all-IsAccounted_example =
    serve_all-IsAccounted plain calendar later (λ d. d) requests small small-IsAccounted

ana-IsComplete : IsComplete plain calendar later buyer 8726500 ana small
unfolding IsComplete ensure_user_role_bindings demote ensure_roles desired_roles ensure_role
    primary_role ensure_catalog_seed repair_profile infer_default_person_type
ana-IsComplete = (refl, refl)

get_achievements-fails_example :
    get_achievements plain calendar later buyer 8726500 small ≡ (err Exn.integrity_error, small)
get_achievements-fails_example =
    get_achievements-fails plain calendar later buyer 8726500 ana small refl ana-IsComplete
