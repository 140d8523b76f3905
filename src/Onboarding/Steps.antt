-- ===== src/Onboarding/Steps.antt =====
-- What adding a row to one of the tables of onboarding keeps.
use hec_mvp.Base.{
  ℕ, ◌≡◌, true, ◌&&◌, some, List, [], ◌∷◌, ◌++◌, arith, nat_eq, string_eq, All-append,
}
use mathlib.Core.List.{append_assoc, append-nil}
use hec_mvp.Base.Rows.{find-append_last}
use hec_mvp.Session.{has}
use hec_mvp.Store.{GeneratorProfile, OwnedPlant, InverterConnection, Store, settled}
use hec_mvp.Onboarding.{add_plant, add_generator, add_connection, plant_by, is_of_owner}
use hec_mvp.Onboarding.Owners.{
  plant_ok, vouches, IsConnected, IsOwned, settled-IsOwned, more_plants, more_generators,
}

abbrev pub all_generators : Store → List GeneratorProfile
all_generators s = s.generators.rows ++ s.generators.pending

abbrev pub all_plants : Store → List OwnedPlant
all_plants s = s.plants.rows ++ s.plants.pending

-- The books, and that a plant is the user's.
pub record WithPlant (user_id plant_id : ℕ) (s : Store) : Type 0 where
  pub owned : IsOwned s
  pub own : plant_ok (all_plants s) user_id (some plant_id) ≡ true

pub settled-WithPlant :
    (user_id plant_id : ℕ) (s : Store)
    → WithPlant user_id plant_id s
    → WithPlant user_id plant_id (settled s)
settled-WithPlant user_id plant_id s h = record {
  owned = settled-IsOwned s h.owned;
  own = rw (append-nil (all_plants s)) h.own;
}

pub add_plant-WithPlant :
    (p : OwnedPlant) (user_id : ℕ) (s : Store)
    → p.owner_user_id ≡ some user_id
    → IsOwned s
    → WithPlant user_id p.plant_id (add_plant p s)
add_plant-WithPlant p user_id s of_user h =
    let longer = append_assoc s.plants.rows s.plants.pending (p ∷ []) in
    record {
      owned = record {
        all = rw (← longer) (
            more_plants (all_generators s) (all_plants s) (p ∷ [])
              (s.connections.rows ++ s.connections.pending) h.all);
      };
      own = rw (← longer) (
          find-append_last (λ (q : OwnedPlant). plant_by p.plant_id q && is_of_owner user_id q)
            (all_plants s) p (ground (arith, of_user)));
    }

-- A profile of the plant's owner is added, and flushed.
pub record WithProfile (g : GeneratorProfile) (plant_id : ℕ) (s : Store) : Type 0 where
  pub owned : IsOwned s
  pub own : plant_ok (all_plants s) g.user_id (some plant_id) ≡ true
  pub listed :
      (ps : List OwnedPlant) (c : InverterConnection)
      → vouches ps c g ≡ true
      → has (vouches ps c) (all_generators s) ≡ true

pub settled-WithProfile :
    (g : GeneratorProfile) (plant_id : ℕ) (s : Store)
    → WithProfile g plant_id s
    → WithProfile g plant_id (settled s)
settled-WithProfile g plant_id s h = record {
  owned = settled-IsOwned s h.owned;
  own = rw (append-nil (all_plants s)) h.own;
  listed = λ ps c v. rw (append-nil (all_generators s)) (h.listed ps c v);
}

pub add_generator-WithProfile :
    (g : GeneratorProfile) (plant_id : ℕ) (s : Store)
    → WithPlant g.user_id plant_id s
    → WithProfile g plant_id (add_generator g s)
add_generator-WithProfile g plant_id s h =
    let longer = append_assoc s.generators.rows s.generators.pending (g ∷ []) in
    record {
      owned = record {
        all = rw (← longer) (
            more_generators (all_generators s) (g ∷ []) (all_plants s)
              (s.connections.rows ++ s.connections.pending) h.owned.all);
      };
      own = h.own;
      listed = λ ps c v. rw (← longer) (find-append_last (vouches ps c) (all_generators s) g v);
    }

pub add_connection-IsOwned :
    (c : InverterConnection) (s : Store)
    → IsConnected (all_generators s) (all_plants s) c
    → IsOwned s
    → IsOwned (add_connection c s)
add_connection-IsOwned c s good h = record {
  all = rw (← append_assoc s.connections.rows s.connections.pending (c ∷ [])) (
      All-append (IsConnected (all_generators s) (all_plants s))
        (s.connections.rows ++ s.connections.pending) (c ∷ []) h.all (good, tt));
}
