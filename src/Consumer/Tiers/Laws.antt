-- ===== src/Consumer/Tiers/Laws.antt =====
-- The tier found is the highest one reached, and the next one the lowest one not reached.
use hec_mvp.Base.{
  ℕ, ◌+◌, ◌≤◌, ◌<◌, ◌≡◌, refl, sym, subst, ◌⊎◌, inl, inr, Option, none, some, List, [], ◌∷◌, arith,
  leb, leb→le, Bool-cases, nat_eq, string_eq, find, order_by, All,
}
use hec_mvp.Base.Sorted.{Ascending, order_by-Ascending, All-order_by_back, Occurs, Occurs-order_by}
use hec_mvp.Base.Keys.{All-map, All-find, find_sound}
use hec_mvp.Store.{DnftDefinition}
use hec_mvp.Consumer.Tiers.{
  Progress, lower, ordered, climb, position, progress_at, dnft_progress_from_total,
}

abbrev required : DnftDefinition → ℕ
required t = t.min_mhec_required

-- `current` is among the tiers `ts`, reached, and no tier reached requires more; `next` is the tier
-- that requires least of those not reached, or there is none of these.
abbrev pub IsNext : ℕ → List DnftDefinition → Option DnftDefinition → Type 0
IsNext total_mhec ts none = All (λ t. required t ≤ total_mhec) ts
IsNext total_mhec ts (some n) =
    Occurs n ts
    × (total_mhec < required n)
    × All (λ t. total_mhec < required t → required n ≤ required t) ts

pub record Standing (total_mhec : ℕ) (ts : List DnftDefinition)
    (at : DnftDefinition × Option DnftDefinition) : Type 0 where
  pub among : Occurs at.0 ts
  pub reached : required at.0 ≤ total_mhec
  pub highest : All (λ t. required t ≤ total_mhec → required t ≤ required at.0) ts
  pub following : IsNext total_mhec ts at.1

-- A tier that is reached changes nothing about the next one.
IsNext-reached :
    (total_mhec : ℕ) (c : DnftDefinition) (ts : List DnftDefinition) (o : Option DnftDefinition)
    → required c ≤ total_mhec
    → IsNext total_mhec ts o
    → IsNext total_mhec (c ∷ ts) o
IsNext-reached total_mhec c ts none r h = (r, h)
IsNext-reached total_mhec c ts (some n) r h =
    (inr h.0, h.1, ((λ out. absurd (omega (arith, r, out))), h.2))

climb-Standing :
    (total_mhec : ℕ) (c : DnftDefinition) (ts : List DnftDefinition)
    → required c ≤ total_mhec
    → Ascending required (c ∷ ts)
    → Standing total_mhec (c ∷ ts) (climb total_mhec c ts)
unfolding climb
climb-Standing total_mhec c [] r h = record {
  among = inl refl;
  reached = r;
  highest = (λ le. omega arith, tt);
  following = (r, tt);
}
climb-Standing total_mhec c (t ∷ ts) r h = elim (Bool-cases (leb t.min_mhec_required total_mhec)) [
  | inl e ↦
      let s = climb-Standing total_mhec t ts (leb→le _ _ e) h.1 in
      rw e (record {
        among = inr s.among;
        reached = s.reached;
        highest = ((λ le. omega (arith, h.0.0, s.highest.0 (leb→le _ _ e))), s.highest);
        following = IsNext-reached total_mhec c (t ∷ ts) (climb total_mhec t ts).1 r s.following;
      })
  | inr e ↦
      let out : total_mhec < required t = ground arith in
      rw e (record {
        among = inl refl;
        reached = r;
        highest = (
          (λ le. omega arith),
          (
            (λ le. absurd (omega (arith, out, le))),
            All-map ts (λ u le reach. absurd (omega (arith, out, le, reach))) h.1.0,
          ),
        );
        following = (
          inr (inl refl),
          out,
          (
            (λ over. absurd (omega (arith, over, r))),
            ((λ _. omega arith), All-map ts (λ u le over. le) h.1.0),
          ),
        );
      })
]

-- With a first tier that is reached, the loop from it.
position-Standing :
    (total_mhec : ℕ) (t : DnftDefinition) (ts : List DnftDefinition)
    → required t ≤ total_mhec
    → Ascending required (t ∷ ts)
    → Standing total_mhec (t ∷ ts) (position total_mhec t ts)
unfolding position
position-Standing total_mhec t [] r h = record {
  among = inl refl;
  reached = r;
  highest = ((λ le. omega arith), tt);
  following = (r, tt);
}
position-Standing total_mhec t (u ∷ us) r h =
    subst (Standing total_mhec (t ∷ u ∷ us)) (sym (ground arith))
      (climb-Standing total_mhec t (u ∷ us) r h)

-- What the answer says of a total: its tier is one of the tiers, reached, and no tier reached
-- requires more, and its name and benefits are given; nothing is missing and every tier is reached, or
-- the next tier is named, one of the tiers, and what is missing leads exactly to it, the lowest tier
-- not reached.
pub record IsStanding (total_mhec : ℕ) (tiers : List DnftDefinition) (p : Progress) : Type 0 where
  pub tier : DnftDefinition
  pub named :
      (p.current_level ≡ tier.tier_level)
      × (p.current_name ≡ tier.tier_name)
      × (p.benefits ≡ tier.benefits_json)
  pub among : Occurs tier tiers
  pub reached : required tier ≤ total_mhec
  pub highest : All (λ t. required t ≤ total_mhec → required t ≤ required tier) tiers
  pub following :
      ((p.mhecs_to_evolve ≡ 0) × (p.next_name ≡ none) × All (λ t. required t ≤ total_mhec) tiers)
      ⊎ ((n : DnftDefinition) × Occurs n tiers
          × (p.next_level ≡ n.tier_level)
          × (p.next_name ≡ some n.tier_name)
          × (p.next_target ≡ required n)
          × (p.next_target ≡ total_mhec + p.mhecs_to_evolve)
          × (0 < p.mhecs_to_evolve)
          × All (λ t. total_mhec < required t → p.next_target ≤ required t) tiers)

module _ (percent : ℕ → ℕ → ℕ) (total_mhec : ℕ) (tiers : List DnftDefinition) where
  sorted_tiers : Ascending required (order_by lower tiers)
  sorted_tiers =
      order_by-Ascending required lower (λ x y e. ground arith) (λ x y e. ground arith) tiers

  abbrev back :
      (P : DnftDefinition → Type 0)
      → {os : List DnftDefinition} → order_by lower tiers ≡ os
      → All P os
      → All P tiers
  back P e h = All-order_by_back P lower tiers (subst (All P) (sym e) h)

  named_of :
      (at : DnftDefinition × Option DnftDefinition)
      → let p = progress_at percent total_mhec at.0 at.1 in
        (p.current_level ≡ at.0.tier_level)
        × (p.current_name ≡ at.0.tier_name)
        × (p.benefits ≡ at.0.benefits_json)
  unfolding progress_at
  named_of (c, none) = (refl, refl, refl)
  named_of (c, some n) = (refl, refl, refl)

  following_of :
      (at : DnftDefinition × Option DnftDefinition) {os : List DnftDefinition}
      → order_by lower tiers ≡ os
      → IsNext total_mhec os at.1
      → let p = progress_at percent total_mhec at.0 at.1 in
        ((p.mhecs_to_evolve ≡ 0) × (p.next_name ≡ none) × All (λ t. required t ≤ total_mhec) tiers)
        ⊎ ((n : DnftDefinition) × Occurs n tiers
            × (p.next_level ≡ n.tier_level)
            × (p.next_name ≡ some n.tier_name)
            × (p.next_target ≡ required n)
            × (p.next_target ≡ total_mhec + p.mhecs_to_evolve)
            × (0 < p.mhecs_to_evolve)
            × All (λ t. total_mhec < required t → p.next_target ≤ required t) tiers)
  unfolding progress_at
  following_of (c, none) e h = inl (refl, refl, back (λ t. required t ≤ total_mhec) e h)
  following_of (c, some n) {os} e h = inr (
    n,
    Occurs-order_by lower tiers n (subst (Occurs n) (sym e) h.0),
    refl,
    refl,
    refl,
    omega (arith, h.1),
    omega (arith, h.1),
    back (λ t. total_mhec < required t → required n ≤ required t) e h.2,
  )

  -- A first tier in order that is not reached leaves none that is.
  none_reached :
      {t : DnftDefinition} {ts : List DnftDefinition} {x : DnftDefinition}
      → order_by lower tiers ≡ t ∷ ts
      → find (λ (y : DnftDefinition). leb y.min_mhec_required total_mhec) tiers ≡ some x
      → required t ≤ total_mhec
  none_reached {t = t} {ts = ts} {x = x} e found =
      elim (Bool-cases (leb t.min_mhec_required total_mhec)) [
        | inl reach ↦ leb→le _ _ reach
        | inr missed ↦
            let above = (subst (Ascending required) e sorted_tiers).0 in
            let all : All (λ u. required t ≤ required u) tiers =
              back (λ u. required t ≤ required u) e ((omega arith, above)) in
            let out : required t ≤ required x = All-find _ _ tiers all found in
            let reach = find_sound _ tiers found in absurd (ground (arith, missed, out, reach))
      ]

  in_order-IsStanding :
      {x : DnftDefinition} (os : List DnftDefinition)
      → order_by lower tiers ≡ os
      → find (λ (y : DnftDefinition). leb y.min_mhec_required total_mhec) tiers ≡ some x
      → IsStanding total_mhec tiers (dnft_progress_from_total percent total_mhec tiers)
  unfolding dnft_progress_from_total ordered
  in_order-IsStanding [] e found = absurd (All-find (λ _. ⊥) _ tiers (back (λ _. ⊥) e tt) found)
  in_order-IsStanding (t ∷ ts) e found =
      let reach = none_reached e found in
      let s = position-Standing total_mhec t ts reach (subst (Ascending required) e sorted_tiers) in
      rw (dnft_progress_from_total, ordered, e)
        (record {
          tier = (position total_mhec t ts).0;
          named = named_of (position total_mhec t ts);
          among =
              Occurs-order_by lower tiers (position total_mhec t ts).0
                (subst (Occurs (position total_mhec t ts).0) (sym e) s.among);
          reached = s.reached;
          highest =
              back
                (λ u. required u ≤ total_mhec → required u ≤ required (position total_mhec t ts).0)
                e s.highest;
          following = following_of (position total_mhec t ts) e s.following;
        })

  -- If the total reaches one of the tiers, the progress names the highest tier that it reaches, and
  -- what is missing to the lowest one that it does not reach, or says that all are reached.
  pub dnft_progress-IsStanding :
      {x : DnftDefinition}
      → find (λ (y : DnftDefinition). leb y.min_mhec_required total_mhec) tiers ≡ some x
      → IsStanding total_mhec tiers (dnft_progress_from_total percent total_mhec tiers)
  dnft_progress-IsStanding found = in_order-IsStanding (order_by lower tiers) refl found
