-- ===== src/Onboarding/Owners.antt =====
-- Whose plants the connections of inverters read: the invariant of the tables of onboarding.
use hec_mvp.Base.{
  ℕ, ◌≡◌, refl, subst, Bool, true, ◌&&◌, Option, none, some, List, [], ◌∷◌, ◌++◌, arith, ◌==◌,
  nat_eq, string_eq, find, All, order_by, select, inl, inr, Bool-cases, Option-cases, update,
}
use mathlib.Core.List.{append-nil}
use hec_mvp.Base.Sorted.{All-order_by}
use hec_mvp.Base.Rows.{find-update_any, find-append_any}
use hec_mvp.Base.Keys.{All-map}
use hec_mvp.Session.{has}
use hec_mvp.Store.{GeneratorProfile, OwnedPlant, InverterConnection, Store, settled}
use hec_mvp.Onboarding.{is_of_owner, plant_by, move_on, first, newest, latest_plant, id_of}

abbrev pub plant_ok : List OwnedPlant → ℕ → Option ℕ → Bool
plant_ok ps user_id none = true
plant_ok ps user_id (some k) = has (λ (p : OwnedPlant). plant_by k p && is_of_owner user_id p) ps

-- The profile is the connection's, and owns the plant of it, if there is one.
abbrev pub vouches : List OwnedPlant → InverterConnection → GeneratorProfile → Bool
vouches ps c g = g.profile_id == c.profile_id && plant_ok ps g.user_id c.plant_id

abbrev pub IsConnected : List GeneratorProfile → List OwnedPlant → InverterConnection → Type 0
IsConnected gs ps c = has (vouches ps c) gs ≡ true

abbrev pub AllConnected : List GeneratorProfile → List OwnedPlant → List InverterConnection → Type 0
AllConnected gs ps = All (IsConnected gs ps)

-- Every connection, flushed or pending, is of a profile whose user owns
-- the plant that it reads.
pub record IsOwned (s : Store) : Type 0 where
  pub all :
      AllConnected
        (s.generators.rows ++ s.generators.pending)
        (s.plants.rows ++ s.plants.pending)
        (s.connections.rows ++ s.connections.pending)

pub settled-IsOwned : (s : Store) → IsOwned s → IsOwned (settled s)
settled-IsOwned s h = record {
  all =
      rw
        (
          append-nil (s.generators.rows ++ s.generators.pending),
          append-nil (s.plants.rows ++ s.plants.pending),
          append-nil (s.connections.rows ++ s.connections.pending),
        )
        h.all;
}

pub has_mono :
    {A : Type 0} (p q : A → Bool) (xs : List A)
    → ((x : A) → p x ≡ true → q x ≡ true)
    → has p xs ≡ true
    → has q xs ≡ true
has_mono p q [] f h = h
has_mono p q (x ∷ xs) f h = ground (arith, f x, has_mono p q xs f)

plant_ok-append :
    (ps qs : List OwnedPlant) (user_id : ℕ) (k : Option ℕ)
    → plant_ok ps user_id k ≡ true
    → plant_ok (ps ++ qs) user_id k ≡ true
plant_ok-append ps qs user_id none h = refl
plant_ok-append ps qs user_id (some k) h =
    find-append_any (λ (p : OwnedPlant). plant_by k p && is_of_owner user_id p) ps qs h

-- More plants, and more profiles, take nothing away.
pub more_plants :
    (gs : List GeneratorProfile) (ps qs : List OwnedPlant) (cs : List InverterConnection)
    → AllConnected gs ps cs
    → AllConnected gs (ps ++ qs) cs
more_plants gs ps qs cs h =
    All-map cs
      (λ c o.
        has_mono (vouches ps c) (vouches (ps ++ qs) c) gs
          (λ g v. ground (arith, plant_ok-append ps qs g.user_id c.plant_id)) o)
      h

pub more_generators :
    (gs hs : List GeneratorProfile) (ps : List OwnedPlant) (cs : List InverterConnection)
    → AllConnected gs ps cs
    → AllConnected (gs ++ hs) ps cs
more_generators gs hs ps cs h = All-map cs (λ c o. find-append_any (vouches ps c) gs hs o) h

-- A draft that is moved on keeps its id and its user.
pub moved_on :
    (q : GeneratorProfile → Bool) (gs hs : List GeneratorProfile) (ps : List OwnedPlant)
    (cs : List InverterConnection)
    → AllConnected (gs ++ hs) ps cs
    → AllConnected (update q move_on gs ++ hs) ps cs
moved_on q gs hs ps cs h =
    All-map cs (λ c o. find-update_any (vouches ps c) q move_on gs hs (λ g v. ground arith) o) h

-- What a query finds among rows meets its test, and is a row.
selected :
    {A : Type 0} (q : A → Bool) (xs : List A)
    → All (λ x. (q x ≡ true) × ((r : A → Bool) → r x ≡ true → has r xs ≡ true)) (select q xs)
selected q [] = tt
selected q (x ∷ xs) =
    let rest =
      All-map (select q xs) (λ y h. (h.0, λ r e. ground (arith, h.1 r e))) (selected q xs) in
    elim (Bool-cases (q x)) [ inl e ↦ rw e ((e, λ r f. rw f refl), rest) | inr e ↦ rw e rest ]

first-All : {A : Type 0} (P : A → Type 0) (xs : List A) {x : A} → All P xs → first xs ≡ some x → P x
first-All P [] h e = cc
first-All P (y ∷ ys) h e = subst P (ground arith) h.0

-- The plant that a connection without a plant's id is given is the user's.
pub latest_plant_ok :
    (user_id : ℕ) (s : Store) (qs : List OwnedPlant)
    → plant_ok (s.plants.rows ++ qs) user_id (id_of (latest_plant user_id s)) ≡ true
unfolding latest_plant
latest_plant_ok user_id s qs =
    let rows = select (is_of_owner user_id) s.plants.rows in
    elim (Option-cases (first (order_by newest rows))) [
      | inl none_left ↦ rw none_left refl
      | inr (p, found) ↦
          let h =
            first-All _ (order_by newest rows)
              (All-order_by
                (λ x.
                  (is_of_owner user_id x ≡ true)
                  × ((r : OwnedPlant → Bool) → r x ≡ true → has r s.plants.rows ≡ true))
                newest rows (selected (is_of_owner user_id) s.plants.rows))
              found in
          rw found (
            find-append_any (λ (q : OwnedPlant). plant_by p.plant_id q && is_of_owner user_id q)
              s.plants.rows qs (h.1 _ (ground (arith, h.0))))
    ]

-- A row that a query by id gave, if its test holds of it.
pub found_has :
    {A : Type 0} (p r : A → Bool) (xs : List A) {x : A}
    → find p xs ≡ some x
    → r x ≡ true
    → has (λ y. p y && r y) xs ≡ true
found_has p r [] e h = cc
found_has p r (y ∷ ys) {x} e h = ground (arith, λ (q : find p ys ≡ some x). found_has p r ys q h)
