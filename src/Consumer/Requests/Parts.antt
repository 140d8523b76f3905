-- ===== src/Consumer/Requests/Parts.antt =====
-- Each part of a request keeps the points of every profile equal to what the ledger has for it.
use hec_mvp.Base.{
  ℕ, ◌/◌, String, ◌≡◌, refl, sym, ap, ◌∙◌, subst, inl, inr, Bool, true, false, Option, none, some,
  List, [], ◌∷◌, ◌++◌, arith, ◌==◌, if◌then◌else◌, ==→eq, Bool-cases, Option-cases, nat_eq,
  string_eq, find,
}
use hec_mvp.Base.Dict.{Dict}
use hec_mvp.Base.Result.{Result, ok, Action, pure}
use hec_mvp.Base.Result.{Post, Post-bind, Post-Post}
use hec_mvp.Base.Keys.{find_sound}
use hec_mvp.Base.Rows.{find-append}
use hec_mvp.Ledger.{User}
use hec_mvp.Session.{Table, add, write}
use hec_mvp.Store.{
  GeneratorProfile, BurnCertificate, ConsumerProfile, ConsumerDashboardSnapshot, DnftDefinition,
  Store, flush, is_consistent,
}
use hec_mvp.Identity.{
  TextOps, save_profile, profile_of, ensure_user_role_bindings, ensure_consumer_identity,
  repair_profile, new_profile, infer_default_person_type, generator_of, fill_person_type,
  fill_display_name, fill_avatar_seed, fill_plan_name, fill_premmia_id, fill_joined_at,
}
use hec_mvp.Consumer.Seeds.{ensure_catalog_seed, ensure_dnft_seed}
use hec_mvp.Consumer.Tiers.{
  sync_dnft_state, update_state, state_of, new_state, dnft_progress_from_total,
}
use hec_mvp.Consumer.History.{
  Clock, sync_profile_from_burn_history, sync_months, sync_month, with_totals, burns_of, tally,
  empty_tally,
}
use hec_mvp.Consumer.Rewards.{
  Awards, sync_achievements, award_all, active_catalog, no_awards, with_points,
}
use hec_mvp.Consumer.Rewards.Laws.{points_in-add, Rewards, award_all-Rewards}
use hec_mvp.Consumer.Requests.{record_retirement, retire_profile, store_snapshot, burn_entry}
use hec_mvp.Consumer.Requests.Books.{
  IsAccounted, Held, Calm, Calm-Held, Calm-Calm, Calm-same, flush-Calm, save-Held, save_same-Held,
  owned_by, premmia_in, points_of, points_in-flushed,
}

pub catalog_seed-Calm : (now : ℕ) (s : Store) → Calm s (ensure_catalog_seed now s)
unfolding ensure_catalog_seed
catalog_seed-Calm now s = Calm-same s (ensure_catalog_seed now s) (ground arith) (ground arith)

pub dnft_seed-Calm : (now : ℕ) (s : Store) → Calm s (ensure_dnft_seed now s)
unfolding ensure_dnft_seed
dnft_seed-Calm now s = Calm-same s (ensure_dnft_seed now s) (ground arith) (ground arith)

pub roles-Calm :
    (ops : TextOps) (user : User) (now : ℕ) (s : Store)
    → Calm s (ensure_user_role_bindings ops user now s)
unfolding ensure_user_role_bindings
roles-Calm ops user now s = Calm-same s (ensure_user_role_bindings ops user now s) refl refl

pub sync_dnft_state-Calm :
    (percent : ℕ → ℕ → ℕ) (user_id : ℕ) (p : ConsumerProfile) (tiers : List DnftDefinition)
    (now : ℕ) (s : Store)
    → Post (λ _ t. Calm s t) (sync_dnft_state percent user_id p tiers now s)
unfolding sync_dnft_state update_state
sync_dnft_state-Calm percent user_id p tiers now s =
    elim (Option-cases (state_of percent user_id s)) [
      | inl missing ↦
          let progress = dnft_progress_from_total percent p.total_retired_mhec tiers in
          let row = new_state percent user_id p.total_retired_mhec progress now in
          let t : Store = record s { dnft_states = add row s.dnft_states } in
          let same : sync_dnft_state percent user_id p tiers now s ≡ flush t = ground arith in
          subst (Post (λ _ t. Calm s t)) (sym same) (
            Post-Post (λ _ v. Calm t v) (λ _ v. Calm s v) (flush t)
              (λ _ v c. Calm-Calm s t v (Calm-same s t refl refl) c) (flush-Calm t))
      | inr (d, there) ↦
          let progress = dnft_progress_from_total percent p.total_retired_mhec tiers in
          let t : Store = update_state percent user_id p.total_retired_mhec progress now d s in
          let same : sync_dnft_state percent user_id p tiers now s ≡ (ok tt, t) = ground arith in
          subst (Post (λ _ t. Calm s t)) (sym same) (Calm-same s t refl refl)
    ]

sync_months-same :
    (clock : Clock) (user_id now : ℕ) (es : Dict String ℕ) (s : Store)
    → ((sync_months clock user_id now es s).profiles ≡ s.profiles)
      × ((sync_months clock user_id now es s).rewards ≡ s.rewards)
unfolding sync_months sync_month
sync_months-same clock user_id now [] s = (refl, refl)
sync_months-same clock user_id now (e ∷ es) s =
    let (p, r) = sync_months-same clock user_id now es (sync_month clock user_id now e s) in
    (p ∙ ground arith, r ∙ ground arith)

-- The user and the points of a profile stay.
abbrev Keeps : ConsumerProfile → ConsumerProfile → Type 0
Keeps p q = (q.user_id ≡ p.user_id) × (q.premmia_points ≡ p.premmia_points)

then_Keeps : (p q r : ConsumerProfile) → Keeps q r → Keeps p q → Keeps p r
then_Keeps p q r h k = (h.0 ∙ k.0, h.1 ∙ k.1)

repair-Keeps :
    (ops : TextOps) (user : User) (desired : String) (g : Option GeneratorProfile)
    (p : ConsumerProfile)
    → Keeps p (repair_profile ops user desired g p).0
unfolding repair_profile
repair-Keeps ops user desired g p =
    let p1 = (fill_person_type ops desired g p).0 in
    let p2 = (fill_display_name ops user p1).0 in
    let p3 = (fill_avatar_seed ops user p2).0 in
    let p4 = (fill_plan_name ops p3).0 in
    let p5 = (fill_premmia_id ops user p4).0 in
    let p6 = (fill_joined_at ops user p5).0 in
    then_Keeps p p5 p6 (joined p5) (
      then_Keeps p p4 p5 (premmia p4) (
        then_Keeps p p3 p4 (plan p3)
          (then_Keeps p p2 p3 (avatar p2) (then_Keeps p p1 p2 (named p1) (typed p)))))
  where
    typed : (q : ConsumerProfile) → Keeps q (fill_person_type ops desired g q).0
    typed q = (ground arith, ground arith)

    named : (q : ConsumerProfile) → Keeps q (fill_display_name ops user q).0
    named q = (ground arith, ground arith)

    avatar : (q : ConsumerProfile) → Keeps q (fill_avatar_seed ops user q).0
    avatar q = (ground arith, ground arith)

    plan : (q : ConsumerProfile) → Keeps q (fill_plan_name ops q).0
    plan q = (ground arith, ground arith)

    premmia : (q : ConsumerProfile) → Keeps q (fill_premmia_id ops user q).0
    premmia q = (ground arith, ground arith)

    joined : (q : ConsumerProfile) → Keeps q (fill_joined_at ops user q).0
    joined q = (ground arith, ground arith)

-- A new profile without points, of a user that has none on record.
new-Held :
    (ops : TextOps) (user : User) (desired : String) (s : Store)
    → IsAccounted s
    → profile_of user.user_id s ≡ none
    → let p = new_profile ops user desired in
      Post (λ _ t. Held user.user_id p t) (flush (record s { profiles = add p s.profiles }))
unfolding flush new_profile
new-Held ops user desired s b missing =
    let p = new_profile ops user desired in
    let t : Store = record s { profiles = add p s.profiles } in
    let rows : s.profiles.rows ++ (s.profiles.pending ++ p ∷ []) ≡ s.profiles.rows ++ p ∷ [] =
      ap (λ (xs : List ConsumerProfile). s.profiles.rows ++ (xs ++ p ∷ [])) b.no_pending in
    let worthless : (v : ℕ)
        → points_of (find (owned_by v) (s.profiles.rows ++ p ∷ []))
          ≡ points_of (find (owned_by v) s.profiles.rows) =
      λ v. ground (arith, find-append (owned_by v) s.profiles.rows (p ∷ [])) in
    let found : find (owned_by user.user_id) (s.profiles.rows ++ p ∷ []) ≡ some p =
      ground (arith, find-append (owned_by user.user_id) s.profiles.rows (p ∷ []), missing) in
    elim (Bool-cases (is_consistent t)) [
      | inl e ↦ rw e (record {
        books = record {
          no_pending = refl;
          points = λ v.
              ap (λ xs. points_of (find (owned_by v) xs)) rows
              ∙ worthless v
              ∙ b.points v
              ∙ sym (points_in-flushed v s.rewards);
        };
        current = ap (find (owned_by user.user_id)) rows ∙ found;
      })
      | inr e ↦ rw e tt
    ]

maybe_flush-Calm :
    (changed : Bool) (s : Store)
    → Post
        (λ _ t. Calm s t)
        ((if◌then◌else◌ {A = Action Store (Unit {0})} changed flush (pure tt)) s)
maybe_flush-Calm true s = flush-Calm s
maybe_flush-Calm false s = Calm-same s s refl refl

-- The identity of a user is the profile on record, made without points or repaired.
pub identity-Held :
    (ops : TextOps) (user : User) (now : ℕ) (s : Store)
    → IsAccounted s
    → Post
        (λ p t. Held user.user_id p t × (p.user_id ≡ user.user_id))
        (ensure_consumer_identity ops user now s)
unfolding ensure_consumer_identity new_profile
identity-Held ops user now s b =
    let s1 : Store = ensure_user_role_bindings ops user now s in
    let desired = infer_default_person_type ops user s1 in
    let books : IsAccounted s1 = (roles-Calm ops user now s b).0 in
    elim (Option-cases (profile_of user.user_id s1)) [
      | inl missing ↦
          let p = new_profile ops user desired in
          let t : Store = record s1 { profiles = add p s1.profiles } in
          subst (Post (λ p t. Held user.user_id p t × (p.user_id ≡ user.user_id)))
            (sym (ground arith))
            (Post-bind (λ _ t. Held user.user_id p t)
              (λ p t. Held user.user_id p t × (p.user_id ≡ user.user_id)) flush (λ _. pure p) t
              (new-Held ops user desired s1 books missing) (λ _ v h. (h, refl)))
      | inr (p, there) ↦
          let repaired = repair_profile ops user desired (generator_of user.user_id s1) p in
          let q = repaired.0 in
          let t : Store = save_profile q s1 in
          let mine : p.user_id ≡ user.user_id = ==→eq _ _ (find_sound _ s1.profiles.rows there) in
          let keeps = repair-Keeps ops user desired (generator_of user.user_id s1) p in
          let held : Held user.user_id q t =
            save_same-Held user.user_id p q s1 t (record { books = books; current = there }) mine
              (keeps.0 ∙ mine) keeps.1 refl refl in
          let rest : Action Store (Unit {0}) = if repaired.1 then flush else pure tt in
          subst (Post (λ p t. Held user.user_id p t × (p.user_id ≡ user.user_id)))
            (sym (ground arith))
            (Post-bind (λ _ v. Calm t v) (λ p t. Held user.user_id p t × (p.user_id ≡ user.user_id))
              rest (λ _. pure q) t (maybe_flush-Calm repaired.1 t)
              (λ _ v c. (Calm-Held t v c held, keeps.0 ∙ mine)))
    ]

-- The totals of the burns leave the points.
pub history-Held :
    (clock : Clock) (u now : ℕ) (p : ConsumerProfile) (s : Store)
    → Held u p s
    → p.user_id ≡ u
    → Post (λ q t. Held u q t × (q.user_id ≡ u)) (sync_profile_from_burn_history clock p now s)
unfolding sync_profile_from_burn_history with_totals
history-Held clock u now p s h mine = go (burns_of clock p.user_id s)
  where
    go :
        (bs : List BurnCertificate)
        → Post
            (λ q t. Held u q t × (q.user_id ≡ u))
            (elim bs as (λ _. Result ConsumerProfile × Store) [
              | [] ↦ (ok p, s)
              | b ∷ cs ↦
                  let t = tally clock (b ∷ cs) (empty_tally clock) in
                  let q = with_totals clock t now p in
                  (ok q, sync_months clock p.user_id now t.monthly_mhec (save_profile q s))
            ])
    go [] = (h, mine)
    go (b ∷ cs) =
        let t = tally clock (b ∷ cs) (empty_tally clock) in
        let q = with_totals clock t now p in
        let (e, f) = sync_months-same clock p.user_id now t.monthly_mhec (save_profile q s) in
        (
          save_same-Held u p q s (sync_months clock p.user_id now t.monthly_mhec (save_profile q s))
              h mine mine refl e f,
          mine,
        )

-- A simulated retirement gives a point for every ten units, with its entry in the ledger.
pub record_retirement-Held :
    (ops : TextOps) (clock : Clock) (before : String → String → Bool) (u amount consumed now : ℕ)
    (p : ConsumerProfile) (s : Store)
    → Held u p s
    → p.user_id ≡ u
    → let o = record_retirement ops clock before p amount consumed now s in
      Held u o.0 o.1 × (o.0.user_id ≡ u)
unfolding record_retirement retire_profile store_snapshot burn_entry save_profile
record_retirement-Held ops clock before u amount consumed now p s h mine =
    let q = with_points clock.percent (amount / 10) (retire_profile ops clock before amount p) in
    let entry = burn_entry ops clock before p.user_id amount now in
    let o = record_retirement ops clock before p amount consumed now s in
    (
      save-Held u (amount / 10) p q s o.1 h mine mine refl refl
          (λ v. ground (arith, points_in-add v entry s.rewards, mine)),
      mine,
    )

-- What the loop added to the points is paid out.
pay-Held :
    (percent : ℕ → ℕ → ℕ) (u now : ℕ) (p : ConsumerProfile)
    (snapshots : List ConsumerDashboardSnapshot) (s : Store) (o : Awards × Store)
    → Held u p s
    → p.user_id ≡ u
    → Rewards percent p.user_id p snapshots now (no_awards percent, s) o
    → let q = with_points percent o.0.points_delta p in
      let r : (Awards × ConsumerProfile) × Store =
        (if o.0.points_delta == 0 then ((o.0, p), o.1) else ((o.0, q), save_profile q o.1)) in
      Held u r.0.1 r.1 × (r.0.1.user_id ≡ u)
unfolding save_profile
pay-Held percent u now p snapshots s o h mine r =
    let q = with_points percent o.0.points_delta p in
    elim (Bool-cases (o.0.points_delta == 0)) [
      | inl nothing ↦ rw nothing (
        record {
          books = record {
            no_pending =
                ap (λ (x : Table ConsumerProfile). x.pending) r.same_profiles ∙ h.books.no_pending;
            points = λ v.
                ap (premmia_in v) r.same_profiles
                ∙ h.books.points v
                ∙ ground (arith, r.ledger v, nothing);
          };
          current =
              ap (λ (x : Table ConsumerProfile). find (owned_by u) x.rows) r.same_profiles
              ∙ h.current;
        },
        mine,
      )
      | inr given ↦ rw given (
        save-Held u o.0.points_delta p q s (save_profile q o.1) h mine mine refl
            (ap (λ (x : Table ConsumerProfile). write (owned_by q.user_id) (λ _. q) x)
              r.same_profiles)
            (λ v. ground (arith, r.ledger v, mine)),
        mine,
      )
    ]

-- The points of the achievements that are unlocked are in the ledger.
pub achievements-Held :
    (percent : ℕ → ℕ → ℕ) (u now : ℕ) (p : ConsumerProfile)
    (snapshots : List ConsumerDashboardSnapshot) (s : Store)
    → Held u p s
    → p.user_id ≡ u
    → let o = sync_achievements percent p snapshots now s in Held u o.0.1 o.1 × (o.0.1.user_id ≡ u)
unfolding sync_achievements
achievements-Held percent u now p snapshots s h mine =
    let seeded = ensure_catalog_seed now s in
    let start : Held u p seeded = Calm-Held s seeded (catalog_seed-Calm now s) h in
    let o =
      award_all percent p.user_id p snapshots now (active_catalog seeded)
        (no_awards percent, seeded) in
    let r =
      award_all-Rewards percent p.user_id p snapshots now (active_catalog seeded)
        (no_awards percent, seeded) in
    pay-Held percent u now p snapshots seeded o start mine r
