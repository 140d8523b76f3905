-- ===== src/Base/Sorted.antt =====
-- A sort by a test that follows a number of the row puts those numbers in order.
use Prim.Native.Nat.{ℕ, zero, suc, ◌≤◌}
use mathlib.Core.Path.{◌≡◌, refl, sym, subst}
use mathlib.Core.Bool.{Bool, true, false}
use mathlib.Core.Logic.{◌⊎◌, inl, inr}
use mathlib.Core.Option.{some}
use mathlib.Core.List.{List, [], ◌∷◌}
use native.Mathlib.Omega.{arith}
use hec_mvp.Base.Tests.{Bool-cases}
use hec_mvp.Base.Lists.{insert_by, order_by, All, take, drop, select, find}
use hec_mvp.Base.Keys.{All-map}

module _ {A : Type 0} where
  abbrev pub Ascending : (A → ℕ) → List A → Type 0
  Ascending f [] = Unit {0}
  Ascending f (x ∷ xs) = All (λ y. f x ≤ f y) xs × Ascending f xs

  All-insert_by :
      (P : A → Type 0) (before : A → A → Bool) (x : A) (ys : List A)
      → P x
      → All P ys
      → All P (insert_by before x ys)
  All-insert_by P before x [] p h = (p, tt)
  All-insert_by P before x (y ∷ ys) p h = elim (Bool-cases (before y x)) [
    | inl e ↦ rw e (h.0, All-insert_by P before x ys p h.1)
    | inr e ↦ rw e (p, h)
  ]

  pub All-order_by :
      (P : A → Type 0) (before : A → A → Bool) (xs : List A) → All P xs → All P (order_by before xs)
  All-order_by P before [] h = tt
  All-order_by P before (x ∷ xs) h =
      All-insert_by P before x (order_by before xs) h.0 (All-order_by P before xs h.1)

  -- What holds of the rows of an insertion holds of the row and of the others.
  All-insert_by_back :
      (P : A → Type 0) (before : A → A → Bool) (x : A) (ys : List A)
      → All P (insert_by before x ys)
      → P x × All P ys
  All-insert_by_back P before x [] h = h
  All-insert_by_back P before x (y ∷ ys) h = elim (Bool-cases (before y x)) [
    | inl e ↦
        let later : P y × All P (insert_by before x ys) = rw e at h in
        let rest = All-insert_by_back P before x ys later.1 in (rest.0, (later.0, rest.1))
    | inr e ↦ rw e at h
  ]

  pub All-order_by_back :
      (P : A → Type 0) (before : A → A → Bool) (xs : List A) → All P (order_by before xs) → All P xs
  All-order_by_back P before [] h = tt
  All-order_by_back P before (x ∷ xs) h =
      let split = All-insert_by_back P before x (order_by before xs) h in
      (split.0, All-order_by_back P before xs split.1)

  -- The test orders rows by the number: what comes before is not above, and the other way round.
  module _ (f : A → ℕ) (before : A → A → Bool) (above : (x y : A) → before x y ≡ true → f x ≤ f y)
      (below : (x y : A) → before x y ≡ false → f y ≤ f x) where
    insert_by-Ascending :
        (x : A) (ys : List A) → Ascending f ys → Ascending f (insert_by before x ys)
    insert_by-Ascending x [] h = (tt, tt)
    insert_by-Ascending x (y ∷ ys) h = elim (Bool-cases (before y x)) [
      | inl e ↦ rw e (
        All-insert_by (λ z. f y ≤ f z) before x ys (above y x e) h.0,
        insert_by-Ascending x ys h.1,
      )
      | inr e ↦ rw e ((below y x e, All-map ys (λ z le. omega (arith, le, below y x e)) h.0), h)
    ]

    pub order_by-Ascending : (xs : List A) → Ascending f (order_by before xs)
    order_by-Ascending [] = tt
    order_by-Ascending (x ∷ xs) = insert_by-Ascending x (order_by before xs) (order_by-Ascending xs)

  -- The row is one of the rows.
  abbrev pub Occurs : A → List A → Type 0
  Occurs x [] = ⊥
  Occurs x (y ∷ ys) = (x ≡ y) ⊎ Occurs x ys

  pub All-Occurs : (P : A → Type 0) (xs : List A) {x : A} → All P xs → Occurs x xs → P x
  All-Occurs P [] h o = absurd o
  All-Occurs P (y ∷ ys) h (inl e) = subst P (sym e) h.0
  All-Occurs P (y ∷ ys) h (inr o) = All-Occurs P ys h.1 o

  all_occur : (xs : List A) → All (λ x. Occurs x xs) xs
  all_occur [] = tt
  all_occur (x ∷ xs) = (inl refl, All-map xs (λ y o. inr o) (all_occur xs))

  -- A row is taken or left.
  pub taken_or_left :
      (n : ℕ) (xs : List A) → All (λ x. Occurs x (take n xs) ⊎ Occurs x (drop n xs)) xs
  taken_or_left zero xs = All-map xs (λ x o. inr o) (all_occur xs)
  taken_or_left (suc n) [] = tt
  taken_or_left (suc n) (x ∷ xs) = (
    inl (inl refl),
    All-map xs
        (λ y o. elim o as (λ _. Occurs y (x ∷ take n xs) ⊎ Occurs y (drop n xs)) [
          | inl a ↦ inl (inr a)
          | inr b ↦ inr b
        ])
        (taken_or_left n xs),
  )

  -- A row that a query selects meets its test, and is a row.
  pub select-Occurs :
      (q : A → Bool) (xs : List A) → All (λ x. (q x ≡ true) × Occurs x xs) (select q xs)
  select-Occurs q [] = tt
  select-Occurs q (x ∷ xs) =
      let rest = All-map (select q xs) (λ y h. (h.0, inr h.1)) (select-Occurs q xs) in
      elim (Bool-cases (q x)) [ inl e ↦ rw e ((e, inl refl), rest) | inr e ↦ rw e rest ]

  pub find-Occurs : (q : A → Bool) (xs : List A) {x : A} → find q xs ≡ some x → Occurs x xs
  find-Occurs q [] e = cc
  find-Occurs q (y ∷ ys) {x} e = elim (Bool-cases (q y)) [
    | inl yes_y ↦ let found : some y ≡ some x = rw yes_y at e in inl (cc)
    | inr no_y ↦ let found : find q ys ≡ some x = rw no_y at e in inr (find-Occurs q ys found)
  ]

  -- What holds of the rows that a query selects.
  pub All-select_back :
      (P : A → Type 0) (q : A → Bool) (xs : List A)
      → All P (select q xs)
      → All (λ x. q x ≡ true → P x) xs
  All-select_back P q [] h = tt
  All-select_back P q (x ∷ xs) h = elim (Bool-cases (q x)) [
    | inl e ↦
        let kept : All P (x ∷ select q xs) = rw e at h in
        ((λ _. kept.0), All-select_back P q xs kept.1)
    | inr e ↦
        let kept : All P (select q xs) = rw e at h in
        ((λ t. absurd (ground (arith, e, t))), All-select_back P q xs kept)
  ]

  -- A row of the sorted rows is a row.
  pub Occurs-order_by :
      (before : A → A → Bool) (xs : List A) (x : A) → Occurs x (order_by before xs) → Occurs x xs
  Occurs-order_by before xs x o =
      All-Occurs (λ y. Occurs y xs) (order_by before xs)
        (All-order_by (λ y. Occurs y xs) before xs (all_occur xs)) o

  -- The same the other way round.
  abbrev pub Descending : (A → ℕ) → List A → Type 0
  Descending f [] = Unit {0}
  Descending f (x ∷ xs) = All (λ y. f y ≤ f x) xs × Descending f xs

  -- The test orders rows by the number: what comes before is not below.
  module _ (f : A → ℕ) (before : A → A → Bool) (above : (x y : A) → before x y ≡ true → f y ≤ f x)
      (below : (x y : A) → before x y ≡ false → f x ≤ f y) where
    insert_by-Descending :
        (x : A) (ys : List A) → Descending f ys → Descending f (insert_by before x ys)
    insert_by-Descending x [] h = (tt, tt)
    insert_by-Descending x (y ∷ ys) h = elim (Bool-cases (before y x)) [
      | inl e ↦ rw e (
        All-insert_by (λ z. f z ≤ f y) before x ys (above y x e) h.0,
        insert_by-Descending x ys h.1,
      )
      | inr e ↦ rw e ((below y x e, All-map ys (λ z le. omega (arith, le, below y x e)) h.0), h)
    ]

    pub order_by-Descending : (xs : List A) → Descending f (order_by before xs)
    order_by-Descending [] = tt
    order_by-Descending (x ∷ xs) =
        insert_by-Descending x (order_by before xs) (order_by-Descending xs)

  All-take_drop :
      (P : A → Type 0) (n : ℕ) (xs : List A) → All P xs → All P (take n xs) × All P (drop n xs)
  All-take_drop P zero xs h = (tt, h)
  All-take_drop P (suc n) [] h = (tt, tt)
  All-take_drop P (suc n) (x ∷ xs) h = let (a, b) = All-take_drop P n xs h.1 in ((h.0, a), b)

  -- What is taken of a list in order is in order, and not below what is left.
  pub Descending-split :
      (f : A → ℕ) (n : ℕ) (xs : List A)
      → Descending f xs
      → Descending f (take n xs) × All (λ x. All (λ y. f y ≤ f x) (drop n xs)) (take n xs)
  Descending-split f zero xs h = (tt, tt)
  Descending-split f (suc n) [] h = (tt, tt)
  Descending-split f (suc n) (x ∷ xs) h =
      let (sorted, leads) = Descending-split f n xs h.1 in
      let (a, b) = All-take_drop (λ y. f y ≤ f x) n xs h.0 in ((a, sorted), (b, leads))
