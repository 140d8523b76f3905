-- ===== src/Consumer/Requests/Seeding.antt =====
-- What an empty catalog does to a request for the achievements.
use hec_mvp.Base.{
  ℕ, String, ◌≡◌, refl, ap, ◌∙◌, inl, inr, Bool, false, some, List, [], ◌∷◌, ◌++◌, arith, ◌==◌,
  Bool-cases, nat_eq, string_eq,
}
use hec_mvp.Base.Dict.{Dict}
use hec_mvp.Base.Result.{Exn, Result, ok, err, Action, pure, ◌>>=◌, ◌>>◌}
use hec_mvp.Base.Result.{bind_ok}
use hec_mvp.Ledger.{User}
use hec_mvp.Session.{Table, fits}
use hec_mvp.Store.{
  AchievementCatalog, BurnCertificate, ConsumerProfile, ConsumerDashboardSnapshot, Store, flush,
  request, is_consistent, same_code,
}
use hec_mvp.Identity.{
  TextOps, save_profile, profile_of, ensure_user_role_bindings, ensure_consumer_identity,
  repair_profile, infer_default_person_type, generator_of,
}
use hec_mvp.Consumer.Seeds.{ensure_catalog_seed, achievement_seed}
use hec_mvp.Consumer.History.{
  Clock, sync_profile_from_burn_history, sync_months, sync_month, with_totals, burns_of, tally,
  empty_tally,
}
use hec_mvp.Consumer.Rewards.{
  Awards, sync_achievements, award, award_all, active_catalog, no_awards,
}
use hec_mvp.Consumer.Requests.{load_achievements, achievements_of, reward, get_achievements}
use hec_mvp.Consumer.Board.{load_monthly_footprint}

abbrev Catalog : Type 0
Catalog = Table AchievementCatalog

award_all-catalog :
    (percent : ℕ → ℕ → ℕ) (u : ℕ) (p : ConsumerProfile) (shots : List ConsumerDashboardSnapshot)
    (now : ℕ) (rest : List AchievementCatalog) (o : Awards × Store)
    → (award_all percent u p shots now rest o).1.catalog ≡ o.1.catalog
unfolding award_all award
award_all-catalog percent u p shots now [] o = refl
award_all-catalog percent u p shots now (a ∷ rest) o =
    award_all-catalog percent u p shots now rest (award percent u p shots now a o)

sync_months-catalog :
    (clock : Clock) (u now : ℕ) (es : Dict String ℕ) (s : Store)
    → (sync_months clock u now es s).catalog ≡ s.catalog
unfolding sync_months sync_month
sync_months-catalog clock u now [] s = refl
sync_months-catalog clock u now (e ∷ es) s =
    sync_months-catalog clock u now es (sync_month clock u now e s) ∙ ground arith

history-catalog :
    (clock : Clock) (p : ConsumerProfile) (now : ℕ) (s : Store)
    → (q : ConsumerProfile) × (t : Store) × (sync_profile_from_burn_history clock p now s
        ≡ (ok q, t))
      × (t.catalog ≡ s.catalog)
unfolding sync_profile_from_burn_history save_profile
history-catalog clock p now s = go (burns_of clock p.user_id s) refl
  where
    go :
        (bs : List BurnCertificate)
        → burns_of clock p.user_id s ≡ bs
        → (q : ConsumerProfile) × (t : Store) × (sync_profile_from_burn_history clock p now s
            ≡ (ok q, t))
          × (t.catalog ≡ s.catalog)
    go [] e = (p, s, rw (sync_profile_from_burn_history, e) refl, refl)
    go (b ∷ bs) e =
        let t = tally clock (b ∷ bs) (empty_tally clock) in
        let q = with_totals clock t now p in
        (
          q,
          sync_months clock p.user_id now t.monthly_mhec (save_profile q s),
          rw (sync_profile_from_burn_history, e) refl,
          sync_months-catalog clock p.user_id now t.monthly_mhec (save_profile q s),
        )

-- Two sets of entries are pending: the codes clash.
twice :
    (id jd now : ℕ) (s : Store)
    → s.catalog ≡ record { rows = []; pending = achievement_seed id now ++ achievement_seed jd now }
    → is_consistent s ≡ false
unfolding is_consistent
twice id jd now s e =
    let clash : fits same_code s.catalog ≡ false = rw e refl in ground (arith, clash)

sync_achievements-catalog :
    (percent : ℕ → ℕ → ℕ) (p : ConsumerProfile) (shots : List ConsumerDashboardSnapshot) (now : ℕ)
    (s : Store)
    → (sync_achievements percent p shots now s).1.catalog ≡ (ensure_catalog_seed now s).catalog
unfolding sync_achievements save_profile
sync_achievements-catalog percent p shots now s =
    let seeded = ensure_catalog_seed now s in
    let start : Awards × Store = (no_awards percent, seeded) in
    let o = award_all percent p.user_id p shots now (active_catalog seeded) start in
    let same = award_all-catalog percent p.user_id p shots now (active_catalog seeded) start in
    elim (Bool-cases (o.0.points_delta == 0)) [
      | inl nothing ↦ rw nothing same
      | inr given ↦ rw given same
    ]

-- A count that finds no row adds the entries.
seed-catalog :
    (now : ℕ) (s : Store) (xs : List AchievementCatalog)
    → s.catalog ≡ record { rows = []; pending = xs }
    → (ensure_catalog_seed now s).catalog
      ≡ record { rows = []; pending = xs ++ achievement_seed s.next_id now }
unfolding ensure_catalog_seed
seed-catalog now s xs e = rw e refl

request-fails :
    {A : Type 0} (m : Action Store A) (s : Store) {a : A} {t : Store}
    → m s ≡ (ok a, t)
    → is_consistent t ≡ false
    → request m s ≡ (err Exn.integrity_error, s)
unfolding request flush
request-fails {A = A} m s {a = a} {t = t} e clash =
    let refused : flush t ≡ (err Exn.integrity_error, t) = rw clash refl in
    let committed : (do a ← m; flush; pure a) s ≡ (err Exn.integrity_error, t) =
      bind_ok m (λ a. do flush; pure a) s e ∙ ap (λ o. ((λ _. o) >>= λ _. pure a) t) refused in
    ap
      (λ (o : Result A × Store). elim o.0 as (λ _. Result A × Store) [
        | ok a ↦ (ok a, o.1)
        | err x ↦ (err x, s)
      ])
      committed

module _ (ops : TextOps) (clock : Clock) (before : String → String → Bool) (user : User)
    (now : ℕ) where
  -- The database when the identity of the user is looked for.
  abbrev pub prepared : Store → Store
  prepared s = ensure_user_role_bindings ops user now (ensure_catalog_seed now s)

  -- The user has the profile `p`, which needs no repair.
  unfoldable pub IsComplete : ConsumerProfile → Store → Type 0
  IsComplete p s =
      let t = prepared s in
      (profile_of user.user_id t ≡ some p)
      × ((repair_profile ops user (infer_default_person_type ops user t)
            (generator_of user.user_id t) p).1
          ≡ false)

  identity-catalog :
      (p : ConsumerProfile) (s : Store)
      → IsComplete p s
      → (q : ConsumerProfile) × (t : Store) × (ensure_consumer_identity ops user now
            (ensure_catalog_seed now s)
          ≡ (ok q, t))
        × (t.catalog ≡ (ensure_catalog_seed now s).catalog)
  unfolding ensure_consumer_identity IsComplete save_profile ensure_user_role_bindings
  identity-catalog p s (there, complete) =
      let t = prepared s in
      let q =
        (repair_profile ops user (infer_default_person_type ops user t)
          (generator_of user.user_id t) p).0 in
      (q, save_profile q t, ground (arith, there, complete), refl)

  -- With an empty catalog and a user whose profile is complete, the request for the achievements adds
  -- the catalog's entries twice, so that its commit fails and the database stays as it was.
  pub get_achievements-fails :
      (p : ConsumerProfile) (s : Store)
      → s.catalog ≡ record { rows = []; pending = [] }
      → IsComplete p s
      → get_achievements ops clock before user now s ≡ (err Exn.integrity_error, s)
  unfolding get_achievements load_achievements achievements_of reward request flush
  get_achievements-fails p s empty complete =
      let (q, t1, e1, c1) = identity-catalog p s complete in
      let (q2, t2, e2, c2) = history-catalog clock q now t1 in
      let shots = load_monthly_footprint before user.user_id t2 in
      let r = sync_achievements clock.percent q2 shots now t2 in
      let loaded : load_achievements ops clock before user now s ≡ (ok r.0.0.items, r.1) =
        bind_ok (ensure_consumer_identity ops user now)
          (λ found.
            sync_profile_from_burn_history clock found now
            >>= achievements_of ops clock before user now)
          (ensure_catalog_seed now s) e1
        ∙ bind_ok (sync_profile_from_burn_history clock q now)
            (achievements_of ops clock before user now) t1 e2 in
      let seeded : t2.catalog ≡ record { rows = []; pending = achievement_seed s.next_id now } =
        c2 ∙ c1 ∙ seed-catalog now s [] empty in
      let both =
        sync_achievements-catalog clock.percent q2 shots now t2
        ∙ seed-catalog now t2 (achievement_seed s.next_id now) seeded in
      let failed = twice s.next_id t2.next_id now r.1 both in
      request-fails (load_achievements ops clock before user now) s loaded failed
