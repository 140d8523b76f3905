-- ===== src/Consumer/History.antt =====
-- app/api/consumer_pf.py: what the dashboard takes from a user's burns. A day is a number of days
-- since 1970, a time one of seconds.
pub mod Laws
use hec_mvp.Base.{
  ℕ, zero, suc, ◌+◌, ◌-◌, ◌*◌, ◌/◌, ◌%◌, min, max, String, Bool, ◌&&◌, none, some, List, [], ◌∷◌,
  text_beq, ltb, ◌==◌, if◌then◌else◌, nat_eq, string_eq, take, select, find,
}
use hec_mvp.Base.Dict.{Dict, lookup, insert}
use hec_mvp.Base.Keys.{elem}
use hec_mvp.Base.Result.{ok, Action}
use hec_mvp.Session.{add, write}
use hec_mvp.Store.{BurnCertificate, ConsumerProfile, ConsumerDashboardSnapshot, Store}
use hec_mvp.Identity.{save_profile}

-- What the requests take from Python: `month_of` is `strftime("%Y-%m")` and `joined_of`
-- `strftime("%b/%Y")` of a time, `month_start` the time with its day replaced by 1, `isoformat` its
-- text; `percent a b` is `round(a / b * 100, 2)` in hundredths, `kwh_percent` the same over thousandths of
-- a kWh; `trees` is `int(float(co2) * 6.6)` of 10^-5 t, and `column4` what a Numeric column with four
-- places keeps of 10^-5 t.
pub record Clock : Type 0 where
  pub month_of : ℕ → String
  pub joined_of : ℕ → String
  pub month_start : ℕ → ℕ
  pub isoformat : ℕ → String
  pub percent : ℕ → ℕ → ℕ
  pub kwh_percent : ℕ → ℕ → ℕ
  pub trees : ℕ → ℕ
  pub column4 : ℕ → ℕ

abbrev pub day_of : ℕ → ℕ
day_of time = time / 86400

-- `round(n / d)`, a half to the even neighbour.
unfoldable pub round_half_even : ℕ → ℕ → ℕ
round_half_even n d =
    let q = n / d in
    let r = 2 * (n % d) in if ltb r d then q else if ltb d r then q + 1 else q + q % 2

-- The loop of `_compute_streak_from_burn_days`: backwards from a day, while it is in the set.
unfoldable pub run_back : List ℕ → ℕ → ℕ
run_back days zero = if elem zero days then 1 else 0
run_back days (suc d) = let rest = run_back days d in if elem (suc d) days then suc rest else 0

-- The anchor is today, or else yesterday; the empty set has no streak.
unfoldable pub compute_streak_from_burn_days : List ℕ → ℕ → ℕ
compute_streak_from_burn_days days today =
    let anchor = if elem today days then today else today - 1 in
    if elem anchor days then run_back days anchor else 0

-- The variables that the loop over the burns changes.
pub record Tally : Type 0 where
  pub total_mhec : ℕ
  pub burn_days : List ℕ
  pub monthly_mhec : Dict String ℕ

-- `max(0, int(round(float(energy_kwh or 0))))`
unfoldable pub amount_mhec : BurnCertificate → ℕ
unfolding round_half_even
amount_mhec b = round_half_even b.energy_kwh 10000

-- `monthly_mhec.get(month_key, 0)`
abbrev pub get_or_zero : String → Dict String ℕ → ℕ
get_or_zero k d = elim (lookup k d) [ none ↦ 0 | some n ↦ n ]

-- `(Decimal(mhec) * Decimal("0.00004")).quantize(Decimal("0.0001"))`, half to the even.
unfoldable pub co2_of : ℕ → ℕ
unfolding round_half_even
co2_of mhec = round_half_even (mhec * 4) 10

module _ (clock : Clock) where
  unfoldable pub tally_row : BurnCertificate → Tally → Tally
  tally_row b t = elim b.burned_at [
    | none ↦ record t { total_mhec = t.total_mhec + amount_mhec b }
    | some time ↦ record t {
      total_mhec = t.total_mhec + amount_mhec b;
      burn_days = day_of time ∷ t.burn_days;
      monthly_mhec =
          insert (clock.month_of time)
            (get_or_zero (clock.month_of time) t.monthly_mhec + amount_mhec b) t.monthly_mhec;
    }
  ]

  unfoldable pub tally : List BurnCertificate → Tally → Tally
  tally [] t = t
  tally (b ∷ bs) t = tally bs (tally_row b t)

  abbrev pub empty_tally : Tally
  empty_tally = record { total_mhec = 0; burn_days = []; monthly_mhec = [] }

  abbrev pub is_month : ℕ → String → ConsumerDashboardSnapshot → Bool
  is_month user_id month s = s.user_id == user_id && text_beq s.reference_month month

  unfoldable pub new_snapshot : ℕ → String → ℕ → ℕ → ConsumerDashboardSnapshot
  new_snapshot user_id month mhec now = record {
    user_id = user_id;
    reference_month = month;
    consumed_kwh = mhec * 1000;
    retired_mhec = mhec;
    retirement_pct = 10000;
    co2_avoided_tons = co2_of mhec;
    created_at = now;
  }

  -- `min(100.0, retired_mhec / consumed_kwh * 100.0)`, and 0 without consumption.
  abbrev pub retirement_pct_of : ℕ → ℕ → ℕ
  retirement_pct_of mhec consumed =
      if consumed == 0 then 0 else min 10000 (clock.kwh_percent mhec consumed)

  unfoldable pub refresh_snapshot : ℕ → ConsumerDashboardSnapshot → ConsumerDashboardSnapshot
  refresh_snapshot mhec s =
      let consumed = if s.consumed_kwh == 0 then mhec * 1000 else s.consumed_kwh in
      record s {
        retired_mhec = mhec;
        consumed_kwh = consumed;
        retirement_pct = retirement_pct_of mhec consumed;
        co2_avoided_tons = co2_of mhec;
      }

  -- One round of the loop over the months; `by_month` has the snapshots that were there before it.
  unfoldable pub sync_month : ℕ → ℕ → String × ℕ → Store → Store
  sync_month user_id now entry s = elim (find (is_month user_id entry.0) s.snapshots.rows) [
    | none ↦ record s { snapshots = add (new_snapshot user_id entry.0 entry.1 now) s.snapshots }
    | some _ ↦ record s {
      snapshots = write (is_month user_id entry.0) (refresh_snapshot entry.1) s.snapshots;
    }
  ]

  unfoldable pub sync_months : ℕ → ℕ → Dict String ℕ → Store → Store
  sync_months user_id now [] s = s
  sync_months user_id now (e ∷ es) s = sync_months user_id now es (sync_month user_id now e s)

  unfoldable pub with_totals : Tally → ℕ → ConsumerProfile → ConsumerProfile
  with_totals t now p = record p {
    total_retired_mhec = t.total_mhec;
    total_co2_avoided_tons = co2_of t.total_mhec;
    total_trees_equivalent = clock.trees (10 * co2_of t.total_mhec);
    current_streak_days = compute_streak_from_burn_days t.burn_days (day_of now);
  }

  abbrev pub burns_of : ℕ → Store → List BurnCertificate
  burns_of user_id s = select (λ (b : BurnCertificate). b.user_id == user_id) s.burns

  -- The profile comes back with its new totals; without burns nothing changes.
  unfoldable pub sync_profile_from_burn_history : ConsumerProfile → ℕ → Action Store ConsumerProfile
  sync_profile_from_burn_history profile now s = elim (burns_of profile.user_id s) [
    | [] ↦ (ok profile, s)
    | b ∷ bs ↦
        let t = tally (b ∷ bs) empty_tally in
        let p = with_totals t now profile in
        (ok p, sync_months profile.user_id now t.monthly_mhec (save_profile p s))
  ]
