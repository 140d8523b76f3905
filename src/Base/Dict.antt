-- ===== src/Base/Dict.antt =====
-- A Python dict in insertion order, over any type of keys with an equality.
use mathlib.Core.Path.{◌≡◌, refl, ap}
use mathlib.Core.Bool.{Bool}
use mathlib.Core.Option.{Option, none, some}
use mathlib.Core.List.{List, [], ◌∷◌}
use Prim.Native.Nat.{ℕ, ◌+◌}
use native.Mathlib.Omega.{arith}
use hec_mvp.Base.Tests.{Eq, Bool-cases, if◌then◌else◌, beq_refl, is_some}
use hec_mvp.Base.Lists.{total}
use mathlib.Core.Logic.{inl, inr}

abbrev pub Dict : Type 0 → Type 0 → Type 0
Dict K V = List (K × V)

module _ {K V : Type 0} ⦃e : Eq K⦄ where
  -- `d.get(k)`
  abbrev pub lookup : K → Dict K V → Option V
  lookup k [] = none
  lookup k ((j, v) ∷ d) = if e.beq j k then some v else lookup k d

  -- `k in d`
  abbrev pub contains : K → Dict K V → Bool
  contains k d = is_some (lookup k d)

  -- `d[k] = v`
  abbrev pub insert : K → V → Dict K V → Dict K V
  insert k v [] = (k, v) ∷ []
  insert k v ((j, w) ∷ d) = if e.beq j k then (k, v) ∷ d else (j, w) ∷ insert k v d

  pub lookup-insert :
      (k j : K) (v : V) (d : Dict K V)
      → lookup j (insert k v d) ≡ (if e.beq k j then some v else lookup j d)
  lookup-insert k j v [] = refl
  lookup-insert k j v ((i, w) ∷ d) =
      ground (arith, e.beq_iff k j, e.beq_iff i k, e.beq_iff i j, lookup-insert k j v d)

  pub lookup-insert_self : (k : K) (v : V) (d : Dict K V) → lookup k (insert k v d) ≡ some v
  lookup-insert_self k v d = rw (lookup-insert k k v d) (rw (beq_refl k))

  -- A sum over the entries of a dict, when a key is new and when it is taken.
  pub total-insert_new :
      (f : K × V → ℕ) (k : K) (v : V) (d : Dict K V)
      → lookup k d ≡ none
      → total f (insert k v d) ≡ total f d + f (k, v)
  total-insert_new f k v [] h = omega arith
  total-insert_new f k v ((j, w) ∷ d) h = elim (Bool-cases (e.beq j k)) [
    | inl hit ↦ absurd (let h' : some w ≡ none = rw hit at h in cc)
    | inr miss ↦ rw miss (let h' = rw miss at h in omega (arith, total-insert_new f k v d h'))
  ]

  pub total-insert_taken :
      (g : V → ℕ) (k : K) (v : V) (d : Dict K V) {w : V}
      → lookup k d ≡ some w
      → total (λ (x : K × V). g x.1) (insert k v d) + g w ≡ total (λ (x : K × V). g x.1) d + g v
  total-insert_taken g k v [] h = cc
  total-insert_taken g k v ((j, u) ∷ d) {w = w} h = elim (Bool-cases (e.beq j k)) [
    | inl hit ↦
        let found : some u ≡ some w = rw hit at h in
        let same : u ≡ w = cc in rw hit (omega (arith, ap g same))
    | inr miss ↦ rw miss (let h' = rw miss at h in omega (arith, total-insert_taken g k v d h'))
  ]
