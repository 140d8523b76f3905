-- ===== src/Consumer/Requests/Books.antt =====
-- The points of each profile are what the ledger of points has for its user: the parts of a request.
use hec_mvp.Base.{
  ℕ, ◌+◌, ◌≡◌, refl, sym, ap, ◌∙◌, inl, inr, Bool, Option, none, some, List, [], ◌∷◌, ◌++◌, arith,
  ◌==◌, if◌then◌else◌, ==→eq, Bool-cases, nat_eq, string_eq, find, update, total,
}
use hec_mvp.Base.Result.{Result, ok, err, Action, pure, ◌>>=◌, ◌>>◌}
use hec_mvp.Base.Result.{Post, Post-bind}
use hec_mvp.Session.{Table, flushed}
use hec_mvp.Store.{
  ConsumerProfile, ConsumerRewardLedger, Store, flush, settled, request, is_consistent,
}
use hec_mvp.Identity.{save_profile}
use hec_mvp.Consumer.Rewards.Laws.{points_in, points_for}

abbrev pub owned_by : ℕ → ConsumerProfile → Bool
owned_by user_id p = p.user_id == user_id

abbrev pub points_of : Option ConsumerProfile → ℕ
points_of none = 0
points_of (some p) = p.premmia_points

abbrev pub premmia_in : ℕ → Table ConsumerProfile → ℕ
premmia_in user_id t = points_of (find (owned_by user_id) t.rows)

-- No profile is pending, and each user's points are the sum of the ledger's entries for the user; a
-- user without a profile has none.
pub record IsAccounted (s : Store) : Type 0 where
  pub no_pending : s.profiles.pending ≡ []
  pub points : (u : ℕ) → premmia_in u s.profiles ≡ points_in u s.rewards

-- The books are right and `p` is the profile on record of its user.
pub record Held (u : ℕ) (p : ConsumerProfile) (s : Store) : Type 0 where
  pub books : IsAccounted s
  pub current : find (owned_by u) s.profiles.rows ≡ some p

append_nil : {A : Type 0} (xs : List A) → xs ++ [] ≡ xs
append_nil [] = refl
append_nil (x ∷ xs) = ap (◌∷◌ x) (append_nil xs)

-- A step that keeps the books and every profile.
abbrev pub Calm : Store → Store → Type 0
Calm s t = IsAccounted s → IsAccounted t × (t.profiles.rows ≡ s.profiles.rows)

pub Calm-Held : {u : ℕ} {p : ConsumerProfile} (s t : Store) → Calm s t → Held u p s → Held u p t
Calm-Held {u = u} s t c h = record {
  books = (c h.books).0;
  current = ap (find (owned_by u)) (c h.books).1 ∙ h.current;
}

pub Calm-Calm : (r s t : Store) → Calm r s → Calm s t → Calm r t
Calm-Calm r s t c d b = ((d (c b).0).0, (d (c b).0).1 ∙ (c b).1)

-- A step that writes other tables.
pub Calm-same : (s t : Store) → t.profiles ≡ s.profiles → t.rewards ≡ s.rewards → Calm s t
Calm-same s t e f b = (
  record {
    no_pending = ap (λ (x : Table ConsumerProfile). x.pending) e ∙ b.no_pending;
    points = λ u. ap (premmia_in u) e ∙ b.points u ∙ sym (ap (points_in u) f);
  },
  ap (λ (x : Table ConsumerProfile). x.rows) e,
)

pub points_in-flushed :
    (u : ℕ) (t : Table ConsumerRewardLedger) → points_in u (flushed t) ≡ points_in u t
points_in-flushed u t = ap (total (points_for u)) (append_nil (t.rows ++ t.pending))

settled-Calm : (s : Store) → Calm s (settled s)
settled-Calm s b =
    let same : s.profiles.rows ++ s.profiles.pending ≡ s.profiles.rows =
      ap (λ (xs : List ConsumerProfile). s.profiles.rows ++ xs) b.no_pending
      ∙ append_nil s.profiles.rows in
    (
      record {
        no_pending = refl;
        points = λ u.
            ap (λ rows. points_of (find (owned_by u) rows)) same
            ∙ b.points u
            ∙ sym (points_in-flushed u s.rewards);
      },
      same,
    )

pub flush-Calm : (s : Store) → Post (λ _ t. Calm s t) (flush s)
unfolding flush
flush-Calm s = elim (Bool-cases (is_consistent s)) [
  | inl e ↦ rw e (settled-Calm s)
  | inr e ↦ rw e tt
]

-- A request whose action keeps the books keeps them, with its commit or without.
pub request-IsAccounted :
    {A : Type 0} (m : Action Store A) (s : Store)
    → IsAccounted s
    → Post (λ _ t. IsAccounted t) (m s)
    → IsAccounted (request m s).1
unfolding request
request-IsAccounted {A = A} m s b h =
    let done : Post (λ (a : A) (t : Store). IsAccounted t) ((do a ← m; flush; pure a) s) =
      Post-bind (λ (a : A) t. IsAccounted t) (λ (a : A) t. IsAccounted t) m (λ a. do flush; pure a)
        s h
        (λ a t bt.
          Post-bind (λ _ u. Calm t u) (λ (x : A) u. IsAccounted u) flush (λ _. pure a) t
            (flush-Calm t) (λ _ u c. (c bt).0)) in
    go ((do a ← m; flush; pure a) s) done
  where
    go :
        (o : Result A × Store)
        → Post (λ _ t. IsAccounted t) o
        → IsAccounted
            (elim o.0 as (λ _. Result A × Store) [ ok a ↦ (ok a, o.1) | err e ↦ (err e, s) ]).1
    go (ok a, t) p = p
    go (err e, t) p = b

find-replace :
    (xs : List ConsumerProfile) (p : ConsumerProfile) (v : ℕ)
    → find (owned_by v) (update (owned_by p.user_id) (λ _. p) xs) ≡ (
        if p.user_id == v
        then elim (find (owned_by v) xs) [ none ↦ none | some _ ↦ some p ]
        else find (owned_by v) xs)
find-replace [] p v = ground arith
find-replace (x ∷ xs) p v = ground (arith, find-replace xs p v)

-- The user's profile is replaced by one with `n` points more, and the ledger has `n` more for the
-- user.
pub save-Held :
    (u n : ℕ) (p q : ConsumerProfile) (s t : Store)
    → Held u p s
    → p.user_id ≡ u
    → q.user_id ≡ u
    → q.premmia_points ≡ p.premmia_points + n
    → t.profiles ≡ (save_profile q s).profiles
    → ((v : ℕ) → points_in v t.rewards ≡ points_in v s.rewards + (if v == u then n else 0))
    → Held u q t
unfolding save_profile
save-Held u n p q s t h pu qu more profiles rewards =
    let lookup : (v : ℕ)
        → find (owned_by v) t.profiles.rows ≡ (
            if q.user_id == v
            then elim (find (owned_by v) s.profiles.rows) [ none ↦ none | some _ ↦ some q ]
            else find (owned_by v) s.profiles.rows) =
      λ v.
        ap (λ (x : Table ConsumerProfile). find (owned_by v) x.rows) profiles
        ∙ find-replace s.profiles.rows q v in
    record {
      books = record {
        no_pending = ap (λ (x : Table ConsumerProfile). x.pending) profiles ∙ h.books.no_pending;
        points = λ v. elim (Bool-cases (v == u)) [
          | inl e ↦
              let same : v ≡ u = ==→eq v u e in
              let now_has : premmia_in v t.profiles ≡ p.premmia_points + n =
                ground (arith, lookup v, h.current, more, qu, same) in
              let had : p.premmia_points ≡ points_in v s.rewards =
                ground (arith, h.books.points v, h.current, same) in
              let gained : points_in v t.rewards ≡ points_in v s.rewards + n =
                rewards v ∙ rw e refl in
              now_has ∙ ap (λ (m : ℕ). m + n) had ∙ sym gained
          | inr e ↦
              let untouched : find (owned_by v) t.profiles.rows
                  ≡ find (owned_by v) s.profiles.rows =
                ground (arith, lookup v, qu, e) in
              let kept : points_in v t.rewards ≡ points_in v s.rewards =
                rewards v ∙ rw e (omega arith) in
              ap points_of untouched ∙ h.books.points v ∙ sym kept
        ];
      };
      current = ground (arith, lookup u, h.current, qu);
    }

-- The user's profile is replaced by one with the same points.
pub save_same-Held :
    (u : ℕ) (p q : ConsumerProfile) (s t : Store)
    → Held u p s
    → p.user_id ≡ u
    → q.user_id ≡ u
    → q.premmia_points ≡ p.premmia_points
    → t.profiles ≡ (save_profile q s).profiles
    → t.rewards ≡ (save_profile q s).rewards
    → Held u q t
unfolding save_profile
save_same-Held u p q s t h pu qu same profiles rewards =
    save-Held u 0 p q s t h pu qu (omega (arith, same)) profiles
      (λ v. ap (points_in v) rewards ∙ ground arith)
