-- ===== src/Base/Rows.antt =====
-- Rows found by key, appended, or named by a list of keys.
use Prim.Native.Nat.{ℕ, ◌+◌}
use mathlib.Core.Path.{◌≡◌, refl, ap}
use mathlib.Core.Bool.{Bool, true, false, ◌&&◌, ◌||◌}
use mathlib.Core.Option.{none, some}
use mathlib.Core.List.{List, [], ◌∷◌, ◌++◌, map}
use native.Mathlib.Omega.{arith}
use hec_mvp.Base.Tests.{◌==◌, is_some}
use hec_mvp.Base.Lists.{length, find, update, count_if, All}
use hec_mvp.Base.Keys.{Distinct, count_if-false, elem, elem-All, elem_ne}

pub find-append :
    {A : Type 0} (p : A → Bool) (xs ys : List A)
    → find p (xs ++ ys) ≡ elim (find p xs) [ none ↦ find p ys | some x ↦ some x ]
find-append p [] ys = refl
find-append p (x ∷ xs) ys = ground (arith, find-append p xs ys)

pub find-holds : {A : Type 0} (p : A → Bool) (xs : List A) {x : A} → find p xs ≡ some x → p x ≡ true
find-holds p [] e = cc
find-holds p (y ∷ ys) {x} e = ground (arith, λ (q : find p ys ≡ some x). find-holds p ys q)

-- What is found is found among more rows, and a row that is added is found.
pub find-append_any :
    {A : Type 0} (p : A → Bool) (xs ys : List A)
    → is_some (find p xs) ≡ true
    → is_some (find p (xs ++ ys)) ≡ true
find-append_any p xs ys h = ground (arith, find-append p xs ys)

pub find-append_last :
    {A : Type 0} (p : A → Bool) (xs : List A) (y : A)
    → p y ≡ true
    → is_some (find p (xs ++ y ∷ [])) ≡ true
find-append_last p xs y h = ground (arith, find-append p xs (y ∷ []))

-- What is found is found after an assignment that keeps its test.
pub find-update_any :
    {A : Type 0} (p q : A → Bool) (f : A → A) (xs ys : List A)
    → ((x : A) → p x ≡ true → p (f x) ≡ true)
    → is_some (find p (xs ++ ys)) ≡ true
    → is_some (find p (update q f xs ++ ys)) ≡ true
find-update_any p q f [] ys k h = h
find-update_any p q f (x ∷ xs) ys k h = ground (arith, k x, find-update_any p q f xs ys k)

-- Rows that gain a property by an assignment.
pub count_if-update_gain :
    {A : Type 0} (p t : A → Bool) (f : A → A) (xs : List A)
    → ((x : A) → p (f x) ≡ true)
    → count_if p xs ≡ 0
    → count_if p (update t f xs) ≡ count_if t xs
count_if-update_gain p t f [] gain none_yet = refl
count_if-update_gain p t f (x ∷ xs) gain none_yet =
    ground (arith, gain x, count_if-update_gain p t f xs gain)

count_if-or :
    {A : Type 0} (p q : A → Bool) (xs : List A)
    → All (λ x. (p x && q x) ≡ false) xs
    → count_if (λ x. p x || q x) xs ≡ count_if p xs + count_if q xs
count_if-or p q [] h = refl
count_if-or p q (x ∷ xs) h = ground (arith, count_if-or p q xs h.1)

pub All-All : {A : Type 0} (P : A → Type 0) → ((x : A) → P x) → (xs : List A) → All P xs
All-All P f [] = tt
All-All P f (x ∷ xs) = (f x, All-All P f xs)

module _ {A : Type 0} (key : A → ℕ) where
  count_key_zero :
      (k : ℕ) (xs : List A) → elem k (map key xs) ≡ false → count_if (λ x. key x == k) xs ≡ 0
  count_key_zero k [] h = refl
  count_key_zero k (x ∷ xs) h = ground (arith, count_key_zero k xs)

  count_key_one :
      (k : ℕ) (xs : List A)
      → Distinct (map key xs)
      → elem k (map key xs) ≡ true
      → count_if (λ x. key x == k) xs ≡ 1
  count_key_one k [] d h = absurd (let no : false ≡ true = h in cc)
  count_key_one k (x ∷ xs) d h =
      let same = λ (e : k ≡ key x). ap (λ (i : ℕ). elem i (map key xs)) e in
      ground (arith, count_key_one k xs d.1, count_key_zero k xs, same)

  -- Distinct keys that all have a row name as many rows as they are.
  pub count_if-elem :
      (ks : List ℕ) (xs : List A)
      → Distinct (map key xs)
      → Distinct ks
      → All (λ k. elem k (map key xs) ≡ true) ks
      → count_if (λ x. elem (key x) ks) xs ≡ length ks
  count_if-elem [] xs d dk h = count_if-false xs
  count_if-elem (k ∷ ks) xs d dk h =
      let apart =
        All-All (λ (x : A). (key x == k && elem (key x) ks) ≡ false)
          (λ x.
            let same = λ (e : key x ≡ k). ap (λ (i : ℕ). elem i ks) e in ground (arith, same, dk.0))
          xs in
      omega (
        arith,
        count_if-or (λ x. key x == k) (λ x. elem (key x) ks) xs apart,
        count_key_one k xs d h.0,
        count_if-elem ks xs d dk.1 h.1,
      )

  -- With distinct keys every row is found under its own.
  pub find_self :
      (xs : List A) → Distinct (map key xs) → All (λ x. find (λ y. key y == key x) xs ≡ some x) xs
  find_self [] d = tt
  find_self (z ∷ zs) d = (ground arith, both zs (elem-All key zs) (find_self zs d.1))
    where
      both :
          (ys : List A)
          → All (λ x. elem (key x) (map key zs) ≡ true) ys
          → All (λ x. find (λ y. key y == key x) zs ≡ some x) ys
          → All (λ x. find (λ y. key y == key x) (z ∷ zs) ≡ some x) ys
      both [] a b = tt
      both (y ∷ ys) a b =
          (ground (arith, elem_ne (key y) (key z) (map key zs) a.0 d.0, b.0), both ys a.1 b.1)

-- A new key after distinct ones.
pub Distinct-append_new :
    {A : Type 0} (key : A → ℕ) (xs : List A) (y : A)
    → Distinct (map key xs)
    → find (λ x. key x == key y) xs ≡ none
    → Distinct (map key (xs ++ y ∷ []))
Distinct-append_new key [] y d new = (refl, tt)
Distinct-append_new {A = A} key (x ∷ xs) y d new =
    (later xs d.0 (ground arith), Distinct-append_new key xs y d.1 (ground arith))
  where
    later :
        (zs : List A)
        → elem (key x) (map key zs) ≡ false
        → (key x == key y) ≡ false
        → elem (key x) (map key (zs ++ y ∷ [])) ≡ false
    later [] a b = ground arith
    later (z ∷ zs) a b = ground (arith, later zs)

pub count_if-append :
    {A : Type 0} (p : A → Bool) (xs ys : List A)
    → count_if p (xs ++ ys) ≡ count_if p xs + count_if p ys
count_if-append p [] ys = omega arith
count_if-append p (x ∷ xs) ys = omega (arith, count_if-append p xs ys)
