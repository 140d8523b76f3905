-- ===== src/Base/Keys.antt =====
-- Primary keys: membership by test, distinct keys, and what a filter, a sort, a slice and an
-- assignment to chosen rows do to the rows of a table.
use Prim.Native.Nat.{ℕ, zero, suc, ◌+◌}
use mathlib.Core.Path.{◌≡◌, refl, sym, ap, ◌∙◌, subst}
use mathlib.Core.Bool.{Bool, true, false, ◌&&◌, ◌||◌}
use mathlib.Core.Logic.{inl, inr}
use mathlib.Core.Option.{none, some}
use mathlib.Core.List.{List, [], ◌∷◌, map}
use native.Mathlib.Omega.{arith}
use hec_mvp.Base.Tests.{◌==◌, if◌then◌else◌, Bool-cases, ==→eq}
use hec_mvp.Base.Lists.{
  length, take, select, find, update, count_if, total, insert_by, order_by, total-order_by, All,
}

abbrev pub elem : ℕ → List ℕ → Bool
elem k [] = false
elem k (x ∷ xs) = k == x || elem k xs

abbrev pub Distinct : List ℕ → Type 0
Distinct [] = Unit {0}
Distinct (x ∷ xs) = (elem x xs ≡ false) × Distinct xs

-- What is among the keys differs from what is not.
pub elem_ne : (j k : ℕ) (ks : List ℕ) → elem j ks ≡ true → elem k ks ≡ false → (j == k) ≡ false
elem_ne j k ks a b = elim (Bool-cases (j == k)) [
  | inl e ↦
      let same : j ≡ k = ==→eq j k e in
      let clash : false ≡ true = sym b ∙ ap (λ (i : ℕ). elem i ks) (sym same) ∙ a in cc
  | inr e ↦ e
]

module _ {A : Type 0} where
  pub find_sound : (p : A → Bool) (xs : List A) {x : A} → find p xs ≡ some x → p x ≡ true
  find_sound p [] h = cc
  find_sound p (y ∷ ys) h = elim (Bool-cases (p y)) [
    | inl e ↦ ground arith
    | inr e ↦ find_sound p ys (ground arith)
  ]

  -- Rows change in place, so a search finds the row that it found before, changed or not.
  pub find-update :
      (p t : A → Bool) (f : A → A) (xs : List A)
      → ((x : A) → p (f x) ≡ p x)
      → find p (update t f xs)
        ≡ elim (find p xs) [ none ↦ none | some x ↦ some (if t x then f x else x) ]
  find-update p t f [] keep = refl
  find-update p t f (x ∷ xs) keep = ground (arith, keep x, find-update p t f xs keep)

  pub count_if-congr :
      (p q : A → Bool) (xs : List A) → All (λ x. p x ≡ q x) xs → count_if p xs ≡ count_if q xs
  count_if-congr p q [] h = refl
  count_if-congr p q (x ∷ xs) h =
      rw (h.0) (ap (λ (n : ℕ). (if q x then 1 else 0) + n) (count_if-congr p q xs h.1))

  pub count_if-true : (xs : List A) → count_if (λ _. true) xs ≡ length xs
  count_if-true [] = refl
  count_if-true (x ∷ xs) = omega (arith, count_if-true xs)

  pub count_if-false : (xs : List A) → count_if (λ _. false) xs ≡ 0
  count_if-false [] = refl
  count_if-false (x ∷ xs) = omega (arith, count_if-false xs)

  count_if-eq-total :
      (p : A → Bool) (xs : List A) → count_if p xs ≡ total (λ x. if p x then 1 else 0) xs
  count_if-eq-total p [] = refl
  count_if-eq-total p (x ∷ xs) = omega (arith, count_if-eq-total p xs)

  pub count_if-order_by :
      (p : A → Bool) (before : A → A → Bool) (xs : List A)
      → count_if p (order_by before xs) ≡ count_if p xs
  count_if-order_by p before xs =
      count_if-eq-total p (order_by before xs)
      ∙ total-order_by (λ x. if p x then 1 else 0) before xs
      ∙ sym (count_if-eq-total p xs)

  pub count_if-select :
      (p q : A → Bool) (xs : List A) → count_if p (select q xs) ≡ count_if (λ x. q x && p x) xs
  count_if-select p q [] = refl
  count_if-select p q (x ∷ xs) = ground (arith, count_if-select p q xs)

  -- Rows that lose a property by an assignment.
  pub count_if-update :
      (p t : A → Bool) (f : A → A) (xs : List A)
      → ((x : A) → p (f x) ≡ false)
      → count_if p (update t f xs) + count_if (λ x. p x && t x) xs ≡ count_if p xs
  count_if-update p t f [] lose = refl
  count_if-update p t f (x ∷ xs) lose = ground (arith, lose x, count_if-update p t f xs lose)

  pub All-map : {P Q : A → Type 0} (xs : List A) → ((x : A) → P x → Q x) → All P xs → All Q xs
  All-map [] f h = tt
  All-map (x ∷ xs) f h = (f x h.0, All-map xs f h.1)

pub All-find :
    {A : Type 0} (P : A → Type 0) (p : A → Bool) (xs : List A) {x : A}
    → All P xs
    → find p xs ≡ some x
    → P x
All-find P p [] a h = cc
All-find P p (y ∷ ys) a h = elim (Bool-cases (p y)) [
  | inl e ↦ subst P (ground arith) a.0
  | inr e ↦ All-find P p ys a.1 (rw e at h)
]

module _ {A : Type 0} (key : A → ℕ) where
  abbrev pub keys : List A → List ℕ
  keys = map key

  pub keys-update :
      (t : A → Bool) (f : A → A) (xs : List A)
      → ((x : A) → key (f x) ≡ key x)
      → keys (update t f xs) ≡ keys xs
  keys-update t f [] keep = refl
  keys-update t f (x ∷ xs) keep = ground (arith, keep x, keys-update t f xs keep)

  -- Every row's key is among the keys.
  pub elem-All : (xs : List A) → All (λ x. elem (key x) (keys xs) ≡ true) xs
  elem-All [] = tt
  elem-All (y ∷ ys) = (ground arith, All-map ys (λ x h. ground arith) (elem-All ys))

  pub elem-select :
      (k : ℕ) (q : A → Bool) (xs : List A)
      → elem k (keys xs) ≡ false
      → elem k (keys (select q xs)) ≡ false
  elem-select k q [] h = refl
  elem-select k q (x ∷ xs) h = ground (arith, elem-select k q xs)

  pub Distinct-select :
      (q : A → Bool) (xs : List A) → Distinct (keys xs) → Distinct (keys (select q xs))
  Distinct-select q [] h = tt
  Distinct-select q (x ∷ xs) h =
      ground (arith, elem-select (key x) q xs h.0, Distinct-select q xs h.1)

  -- Among rows with distinct keys, a filter keeps a row's key exactly when it keeps the row.
  pub elem-select-All :
      (q : A → Bool) (xs : List A)
      → Distinct (keys xs)
      → All (λ x. elem (key x) (keys (select q xs)) ≡ q x) xs
  elem-select-All q [] h = tt
  elem-select-All q (y ∷ ys) h = (
    ground (arith, elem-select (key y) q ys h.0),
    both ys (elem-All ys) (elem-select-All q ys h.1),
  )
    where
      both :
          (zs : List A)
          → All (λ x. elem (key x) (keys ys) ≡ true) zs
          → All (λ x. elem (key x) (keys (select q ys)) ≡ q x) zs
          → All (λ x. elem (key x) (keys (select q (y ∷ ys))) ≡ q x) zs
      both [] a b = tt
      both (z ∷ zs) a b =
          (ground (arith, elem_ne (key z) (key y) (keys ys) a.0 h.0, b.0), both zs a.1 b.1)

  elem-insert_by :
      (k : ℕ) (before : A → A → Bool) (x : A) (ys : List A)
      → elem k (keys (insert_by before x ys)) ≡ (k == key x || elem k (keys ys))
  elem-insert_by k before x [] = refl
  elem-insert_by k before x (y ∷ ys) = ground (arith, elem-insert_by k before x ys)

  pub elem-order_by :
      (k : ℕ) (before : A → A → Bool) (xs : List A)
      → elem k (keys (order_by before xs)) ≡ elem k (keys xs)
  elem-order_by k before [] = refl
  elem-order_by k before (x ∷ xs) =
      rw (elem-insert_by k before x (order_by before xs), elem-order_by k before xs)

  Distinct-insert_by :
      (before : A → A → Bool) (x : A) (ys : List A)
      → elem (key x) (keys ys) ≡ false
      → Distinct (keys ys)
      → Distinct (keys (insert_by before x ys))
  Distinct-insert_by before x [] new h = (refl, tt)
  Distinct-insert_by before x (y ∷ ys) new h =
      ground (arith, elem-insert_by (key y) before x ys, Distinct-insert_by before x ys)

  pub Distinct-order_by :
      (before : A → A → Bool) (xs : List A)
      → Distinct (keys xs)
      → Distinct (keys (order_by before xs))
  Distinct-order_by before [] h = tt
  Distinct-order_by before (x ∷ xs) h =
      Distinct-insert_by before x (order_by before xs) (elem-order_by (key x) before xs ∙ h.0)
        (Distinct-order_by before xs h.1)

  pub elem-take :
      (k n : ℕ) (xs : List A) → elem k (keys (take n xs)) ≡ true → elem k (keys xs) ≡ true
  elem-take k zero xs h = cc
  elem-take k (suc n) [] h = h
  elem-take k (suc n) (x ∷ xs) h = ground (arith, elem-take k n xs)

  -- Among rows with distinct keys, a slice's keys belong to as many rows as it has.
  pub count_if-take :
      (n : ℕ) (xs : List A)
      → Distinct (keys xs)
      → count_if (λ x. elem (key x) (keys (take n xs))) xs ≡ length (take n xs)
  count_if-take zero xs h = count_if-false xs
  count_if-take (suc n) [] h = refl
  count_if-take (suc n) (y ∷ ys) h =
      let rest =
        count_if-congr (λ x. elem (key x) (keys (take (suc n) (y ∷ ys))))
          (λ x. elem (key x) (keys (take n ys))) ys
          (All-map ys (λ x present. ground (arith, elem_ne (key x) (key y) (keys ys) present h.0))
            (elem-All ys)) in
      ground (arith, rest, count_if-take n ys h.1)

  pub elem-find :
      (p : A → Bool) (xs : List A) {x : A} → find p xs ≡ some x → elem (key x) (keys xs) ≡ true
  elem-find p [] h = cc
  elem-find p (y ∷ ys) h = elim (Bool-cases (p y)) [
    | inl e ↦ ground arith
    | inr e ↦ ground (arith, elem-find p ys (rw e at h))
  ]

  pub find_of_elem :
      (k : ℕ) (xs : List A)
      → elem k (keys xs) ≡ true
      → (x : A) × (find (λ y. key y == k) xs ≡ some x) × (key x ≡ k)
  find_of_elem k [] h = absurd (let no : false ≡ true = h in cc)
  find_of_elem k (y ∷ ys) h = elim (Bool-cases (key y == k)) [
    | inl e ↦ (y, rw e, ==→eq _ _ e)
    | inr e ↦ let (x, found, same) = find_of_elem k ys (ground arith) in (x, rw e found, same)
  ]

  -- Two searches that end at one key end at one row.
  pub find_same_key :
      (p q : A → Bool) (xs : List A) {x y : A}
      → Distinct (keys xs)
      → find p xs ≡ some x
      → find q xs ≡ some y
      → key x ≡ key y
      → x ≡ y
  find_same_key p q [] d hp hq e = cc
  find_same_key p q (z ∷ zs) {x = x} {y = y} d hp hq e = elim (Bool-cases (p z)) [
    | inl pz ↦ elim (Bool-cases (q z)) [
      | inl qz ↦ ground arith
      | inr qz ↦
          let there = elem-find q zs (rw qz at hq) in
          absurd (ground (arith, elem_ne (key y) (key z) (keys zs) there d.0))
    ]
    | inr pz ↦ elim (Bool-cases (q z)) [
      | inl qz ↦
          let there = elem-find p zs (rw pz at hp) in
          absurd (ground (arith, elem_ne (key x) (key z) (keys zs) there d.0))
      | inr qz ↦ find_same_key p q zs d.1 (rw pz at hp) (rw qz at hq) e
    ]
  ]

  -- The first `n` rows that a query picks, in its order: of the rows that it picks, their keys
  -- belong to as many as were taken, and of the rows that it does not pick, to none.
  module _ (before : A → A → Bool) (q : A → Bool) (n : ℕ) (xs : List A)
      (h : Distinct (keys xs)) where
    abbrev pub picked : List A
    picked = take n (order_by before (select q xs))

    pub count_if-picked : count_if (λ x. q x && elem (key x) (keys picked)) xs ≡ length picked
    count_if-picked =
        sym (count_if-select (λ x. elem (key x) (keys picked)) q xs)
        ∙ sym (count_if-order_by (λ x. elem (key x) (keys picked)) before (select q xs))
        ∙ count_if-take n (order_by before (select q xs))
            (Distinct-order_by before (select q xs) (Distinct-select q xs h))

    pub count_if-not_picked :
        (p : A → Bool)
        → ((x : A) → p x ≡ true → q x ≡ false)
        → count_if (λ x. p x && elem (key x) (keys picked)) xs ≡ 0
    count_if-not_picked p other =
        count_if-congr (λ x. p x && elem (key x) (keys picked)) (λ _. false) xs
          (All-map xs
            (λ x same. ground (
              arith,
              other x,
              elem-take (key x) n (order_by before (select q xs)),
              elem-order_by (key x) before (select q xs),
            ))
            (elem-select-All q xs h))
        ∙ count_if-false xs
