-- ===== src/Consumer/History/Laws.antt =====
-- The streak is the run of days that ends today or yesterday, and the months add up to the total.
use hec_mvp.Base.{
  ℕ, zero, suc, ◌+◌, ◌-◌, ◌<◌, String, ◌≡◌, refl, subst, ◌⊎◌, inl, inr, true, false, none, some,
  List, [], ◌∷◌, arith, if◌then◌else◌, Bool-cases, is_some, nat_eq, string_eq, total,
}
use hec_mvp.Base.Dict.{Dict}
use hec_mvp.Base.Keys.{elem}
use hec_mvp.Base.Result.{Result, ok}
use hec_mvp.Store.{BurnCertificate, ConsumerProfile, Store}
use hec_mvp.Consumer.History.{
  Clock, run_back, compute_streak_from_burn_days, amount_mhec, day_of, tally, empty_tally,
}

-- The `n` days that end with `d` are in the set, and the day before them is not.
pub record IsRun (days : List ℕ) (d n : ℕ) : Type 0 where
  pub inside : (j k : ℕ) → j + k ≡ d → k < n → elem j days ≡ true
  pub maximal : (j : ℕ) → j + n ≡ d → elem j days ≡ false

nothing-IsRun : (days : List ℕ) (d : ℕ) → elem d days ≡ false → IsRun days d 0
nothing-IsRun days d e = record {
  inside = λ j k at lt. absurd (omega (arith, lt));
  maximal = λ j at. subst (λ i. elem i days ≡ false) (omega (arith, at)) e;
}

longer-IsRun :
    (days : List ℕ) (d n : ℕ)
    → elem (suc d) days ≡ true
    → IsRun days d n
    → IsRun days (suc d) (suc n)
longer-IsRun days d n e r = record {
  inside = within;
  maximal = λ j at. r.maximal j (omega (arith, at));
}
  where
    within : (j k : ℕ) → j + k ≡ suc d → k < suc n → elem j days ≡ true
    within j zero at lt = subst (λ i. elem i days ≡ true) (omega (arith, at)) e
    within j (suc k) at lt = r.inside j k (omega (arith, at)) (omega (arith, lt))

run_back-IsRun : (days : List ℕ) (d : ℕ) → IsRun days d (run_back days d)
unfolding run_back
run_back-IsRun days zero = elim (Bool-cases (elem zero days)) [
  | inl e ↦ rw e (record {
    inside = λ j k at lt. subst (λ i. elem i days ≡ true) (omega (arith, at)) e;
    maximal = λ j at. absurd (omega (arith, at));
  })
  | inr e ↦ rw e (nothing-IsRun days zero e)
]
run_back-IsRun days (suc d) = elim (Bool-cases (elem (suc d) days)) [
  | inl e ↦ rw e (longer-IsRun days d (run_back days d) e (run_back-IsRun days d))
  | inr e ↦ rw e (nothing-IsRun days (suc d) e)
]

run_back_positive : (days : List ℕ) (d : ℕ) → elem d days ≡ true → 0 < run_back days d
unfolding run_back
run_back_positive days zero e = rw e (omega arith)
run_back_positive days (suc d) e = rw e (omega arith)

-- The streak of a set of days: none, if neither today nor yesterday is in the set; or else the
-- longest run of days in the set that ends today or, if today is not in the set, yesterday.
pub IsStreak : List ℕ → ℕ → ℕ → Type 0
IsStreak days today n =
    ((n ≡ 0) × (elem today days ≡ false) × ((y : ℕ) → y + 1 ≡ today → elem y days ≡ false))
    ⊎ ((0 < n)
        × (anchor : ℕ) × ((anchor ≡ today) ⊎ ((elem today days ≡ false) × (anchor + 1 ≡ today)))
        × IsRun days anchor n)

yesterday :
    (days : List ℕ) (today : ℕ)
    → elem today days ≡ false
    → elem (today - 1) days ≡ true
    → today - 1 + 1 ≡ today
yesterday days zero e y = cc
yesterday days (suc d) e y = omega arith

-- The streak is the longest run of days with a burn that ends today or, without a burn today,
-- yesterday; it is 0 exactly when there is no burn on either day.
pub compute-IsStreak :
    (days : List ℕ) (today : ℕ) → IsStreak days today (compute_streak_from_burn_days days today)
unfolding compute_streak_from_burn_days IsStreak
compute-IsStreak days today = elim (Bool-cases (elem today days)) [
  | inl e ↦
      rw (e, e) (inr (run_back_positive days today e, today, inl refl, run_back-IsRun days today))
  | inr e ↦ elim (Bool-cases (elem (today - 1) days)) [
    | inl y ↦
        let at = yesterday days today e y in
        rw (e, y)
          (inr (
            run_back_positive days (today - 1) y,
            today - 1,
            inr (refl, at),
            run_back-IsRun days (today - 1),
          ))
    | inr y ↦
        rw (e, y) (inl (refl, refl, λ j at. subst (λ i. elem i days ≡ false) (omega (arith, at)) y))
  ]
]

-- The sum of the months.
abbrev pub by_month : Dict String ℕ → ℕ
by_month d = total (λ (e : String × ℕ). e.1) d

-- What `bs` adds to a tally, month by month and in all.
module _ (clock : Clock) where
  abbrev dated : BurnCertificate → ℕ
  dated b = if is_some b.burned_at then amount_mhec b else 0

  abbrev day_list : List BurnCertificate → List ℕ → List ℕ
  day_list [] days = days
  day_list (b ∷ bs) days = elim b.burned_at [
    | none ↦ day_list bs days
    | some t ↦ day_list bs (day_of t ∷ days)
  ]

  abbrev pub IsSynced :
      ConsumerProfile → ℕ → List BurnCertificate → Store → Result ConsumerProfile × Store → Type 0
  IsSynced profile now [] s o = o ≡ (ok profile, s)
  IsSynced profile now (b ∷ bs) s o =
      (p : ConsumerProfile) × (o.0 ≡ ok p)
      × (p.total_retired_mhec ≡ total amount_mhec (b ∷ bs))
      × IsStreak (day_list (b ∷ bs) []) (day_of now) p.current_streak_days
      × (by_month (tally clock (b ∷ bs) (empty_tally clock)).monthly_mhec ≡ total dated (b ∷ bs))
