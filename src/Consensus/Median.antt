-- ===== src/Consensus/Median.antt =====
-- The median that a comparison takes is the median.
use hec_mvp.Base.{
  ℕ, zero, suc, ◌+◌, ◌-◌, ◌*◌, ◌/◌, ◌%◌, ◌≤◌, ◌<◌, ◌≡◌, refl, inl, inr, Bool, List, [], ◌∷◌, arith,
  ltb, leb, ◌==◌, Bool-cases, nat_eq, string_eq, length, order_by, length-order_by, All, count_if,
  total, total-order_by, if◌then◌else◌,
}
use hec_mvp.Base.Sorted.{Ascending, order_by-Ascending}
use hec_mvp.Consensus.{Geo, nth, median}

count_if-total :
    {A : Type 0} (p : A → Bool) (xs : List A) → count_if p xs ≡ total (λ x. if p x then 1 else 0) xs
count_if-total p [] = refl
count_if-total p (x ∷ xs) = omega (arith, count_if-total p xs)

count_if-order_by :
    {A : Type 0} (p : A → Bool) (before : A → A → Bool) (xs : List A)
    → count_if p (order_by before xs) ≡ count_if p xs
count_if-order_by p before xs = omega (
  arith,
  count_if-total p xs,
  count_if-total p (order_by before xs),
  total-order_by (λ x. if p x then 1 else 0) before xs,
)

-- How many values are at most, and at least, another.
abbrev pub up_to : ℕ → List ℕ → ℕ
up_to v xs = count_if (λ x. leb x v) xs

abbrev pub from : ℕ → List ℕ → ℕ
from v xs = count_if (λ x. leb v x) xs

-- Twice the median of some values: the sum of the value `low` in the middle from below and of the
-- value `high` in the middle from above, each of which these counts determine.
pub record IsMedian (med : ℕ) (xs : List ℕ) : Type 0 where
  pub low : ℕ
  pub high : ℕ
  pub mean : med ≡ low + high
  pub low_up_to : length xs ≤ 2 * up_to low xs
  pub low_from : length xs < 2 * from low xs
  pub high_up_to : length xs < 2 * up_to high xs
  pub high_from : length xs ≤ 2 * from high xs

all_from : (v : ℕ) (xs : List ℕ) → All (λ x. v ≤ x) xs → from v xs ≡ length xs
all_from v [] h = refl
all_from v (x ∷ xs) h = ground (arith, h.0, all_from v xs h.1)

module _ (geo : Geo) where
  -- An index within the list reads one of its elements.
  nth-All : (P : ℕ → Type 0) (i : ℕ) (xs : List ℕ) → i < length xs → All P xs → P (nth geo i xs)
  nth-All P i [] lt h = absurd (omega (arith, lt))
  nth-All P zero (x ∷ xs) lt h = h.0
  nth-All P (suc i) (x ∷ xs) lt h = nth-All P i xs (omega (arith, lt)) h.1

  -- In order, so many values are at most, and at least, the one at an index.
  nth-up_to :
      (i : ℕ) (xs : List ℕ)
      → i < length xs
      → Ascending (λ x. x) xs
      → i + 1 ≤ up_to (nth geo i xs) xs
  nth-up_to i [] lt h = absurd (omega (arith, lt))
  nth-up_to zero (x ∷ xs) lt h = ground arith
  nth-up_to (suc i) (x ∷ xs) lt h =
      let before : i < length xs = omega (arith, lt) in
      let above : x ≤ nth geo i xs = nth-All (λ y. x ≤ y) i xs before h.0 in
      ground (arith, above, nth-up_to i xs before h.1)

  nth-from :
      (i : ℕ) (xs : List ℕ)
      → i < length xs
      → Ascending (λ x. x) xs
      → length xs ≤ i + from (nth geo i xs) xs
  nth-from i [] lt h = absurd (omega (arith, lt))
  nth-from zero (x ∷ xs) lt h = ground (arith, all_from x xs h.0)
  nth-from (suc i) (x ∷ xs) lt h =
      let rest = nth-from i xs (omega (arith, lt)) h.1 in ground (arith, rest)

  pub median-IsMedian : (xs : List ℕ) → 0 < length xs → IsMedian (median geo xs) xs
  unfolding median
  median-IsMedian xs some_there =
      let sorted = order_by ltb xs in
      let n = length-order_by ltb xs in
      let order : Ascending (λ x. x) sorted =
        order_by-Ascending (λ x. x) ltb (λ x y e. ground arith) (λ x y e. ground arith) xs in
      let below : (i : ℕ) → i < length sorted → i + 1 ≤ up_to (nth geo i sorted) xs = λ i lt.
        omega (
          arith,
          nth-up_to i sorted lt order,
          count_if-order_by (λ x. leb x (nth geo i sorted)) ltb xs,
        ) in
      let above : (i : ℕ) → i < length sorted → length sorted ≤ i + from (nth geo i sorted) xs =
        λ i lt. omega (
          arith,
          nth-from i sorted lt order,
          count_if-order_by (λ x. leb (nth geo i sorted) x) ltb xs,
        ) in
      let mid : length sorted / 2 < length sorted = omega (arith, n, some_there) in
      let prior : length sorted / 2 - 1 < length sorted = omega (arith, n, some_there) in
      let a = below (length sorted / 2) mid in
      let b = above (length sorted / 2) mid in
      let c = below (length sorted / 2 - 1) prior in
      let d = above (length sorted / 2 - 1) prior in
      elim (Bool-cases (length sorted == 0)) [
        | inl empty ↦ absurd (ground (arith, n, some_there))
        | inr full ↦ elim (Bool-cases (length sorted % 2 == 0)) [
          | inl even ↦
              let whole : length sorted % 2 ≡ 0 = ground (arith, even) in
              rw (median, full, even)
                (record {
                  low = nth geo (length sorted / 2 - 1) sorted;
                  high = nth geo (length sorted / 2) sorted;
                  mean = refl;
                  low_up_to = omega (arith, c, n, whole, some_there);
                  low_from = omega (arith, d, n, whole, some_there);
                  high_up_to = omega (arith, a, n, whole, some_there);
                  high_from = omega (arith, b, n, whole, some_there);
                })
          | inr odd ↦
              let half : length sorted % 2 ≡ 1 = ground (arith, odd) in
              rw (median, full, odd)
                (record {
                  low = nth geo (length sorted / 2) sorted;
                  high = nth geo (length sorted / 2) sorted;
                  mean = omega arith;
                  low_up_to = omega (arith, a, n, half);
                  low_from = omega (arith, b, n, half);
                  high_up_to = omega (arith, a, n, half);
                  high_from = omega (arith, b, n, half);
                })
        ]
      ]
