-- ===== src/Onboarding/Requests.antt =====
-- The requests of onboarding in the order in which they are served, and what they do to the tables.
use hec_mvp.Base.{
  ℕ, String, ◌≡◌, refl, sym, subst, Bool, true, not, ◌&&◌, Option, none, some, List, [], ◌∷◌, ◌++◌,
  arith, ◌==◌, nat_eq, string_eq, find, beq_refl,
}
use hec_mvp.Base.Rows.{find-append_any, find-holds}
use hec_mvp.Base.Result.{
  generator_not_found, not_owner, no_consent, plant_not_found, ok, Action, pure, ◌>>=◌, ◌>>◌, Post,
  Post-bind, bind-keeps, raise_if-Post, or_raise-Post, raise_if,
}
use hec_mvp.Ledger.{User}
use hec_mvp.Session.{has}
use hec_mvp.Store.{GeneratorProfile, OwnedPlant, InverterConnection, Store, request}
use hec_mvp.Store.Keeps.{request-keeps}
use hec_mvp.Identity.{TextOps, generator_of}
use hec_mvp.Auth.{TokenOps}
use hec_mvp.Onboarding.{
  OnboardingRequest, AccountRequest, ConnectionInput, new_connection, add_connection,
  register_entities, register_generator, activate_entities, activate_generator_profile, plant_by,
  is_of_owner, id_of, plant_for, connect, mark_pending, add_generator_connection,
}
use hec_mvp.Onboarding.Owners.{
  plant_ok, vouches, IsOwned, settled-IsOwned, moved_on, latest_plant_ok, found_has, has_mono,
}
use hec_mvp.Onboarding.Steps.{all_generators, all_plants, add_connection-IsOwned}
use hec_mvp.Onboarding.Laws.{Keeps, register_entities-IsOwned, activate_entities-IsOwned}

-- A plant that the user may connect, and nothing written.
abbrev MayRead : ℕ → Store → Option OwnedPlant → Store → Type 0
MayRead user_id s plant t = (t ≡ s) × (plant_ok (all_plants s) user_id (id_of plant) ≡ true)

mine_ok :
    (user_id k : ℕ) (p : OwnedPlant) (s : Store)
    → find (plant_by k) s.plants.rows ≡ some p
    → is_of_owner user_id p ≡ true
    → plant_ok (all_plants s) user_id (some p.plant_id) ≡ true
mine_ok user_id k p s found own =
    let named : k ≡ p.plant_id = ground (arith, find-holds (plant_by k) s.plants.rows found) in
    subst (λ i. plant_ok (all_plants s) user_id (some i) ≡ true) named
      (find-append_any (λ (q : OwnedPlant). plant_by k q && is_of_owner user_id q) s.plants.rows
        s.plants.pending (found_has (plant_by k) (is_of_owner user_id) s.plants.rows found own))

plant_for-MayRead :
    (user : User) (plant_id : Option ℕ) (s : Store)
    → Post (MayRead user.user_id s) (plant_for user plant_id s)
unfolding plant_for
plant_for-MayRead user none s = (refl, latest_plant_ok user.user_id s s.plants.pending)
plant_for-MayRead user (some k) s =
    let mine : OwnedPlant → Action Store (Option OwnedPlant) =
      λ p. raise_if (not (is_of_owner user.user_id p)) not_owner >> pure (some p) in
    or_raise-Post (MayRead user.user_id s) plant_not_found (find (plant_by k) s.plants.rows) mine s
      (λ p found.
        raise_if-Post (MayRead user.user_id s) not_owner (not (is_of_owner user.user_id p))
          (pure (some p)) s (λ own. (refl, mine_ok user.user_id k p s found (ground arith))))

profile_vouches :
    (user_id : ℕ) (g : GeneratorProfile) (c : InverterConnection) (s : Store)
    → generator_of user_id s ≡ some g
    → c.profile_id ≡ g.profile_id
    → plant_ok (all_plants s) user_id c.plant_id ≡ true
    → has (vouches (all_plants s) c) (all_generators s) ≡ true
profile_vouches user_id g c s found of_profile own =
    let mine : GeneratorProfile → Bool = λ x. x.user_id == user_id in
    let test = vouches (all_plants s) c in
    let of_user : g.user_id ≡ user_id = ground (arith, find-holds mine s.generators.rows found) in
    let own_too : plant_ok (all_plants s) g.user_id c.plant_id ≡ true = rw of_user own in
    let good : test g ≡ true = ground (arith, beq_refl g.profile_id, of_profile, own_too) in
    find-append_any test s.generators.rows s.generators.pending (
      has_mono (λ x. mine x && test x) test s.generators.rows (λ x e. ground (arith, e))
        (found_has mine test s.generators.rows found good))

-- The books, the connection's profile being the caller's.
connect-IsOwned :
    (user : User) (plant_id : Option ℕ) (req : ConnectionInput) (now : ℕ) (s : Store)
    → IsOwned s
    → Post (Keeps {A = InverterConnection}) (connect user plant_id req now s)
unfolding connect new_connection
connect-IsOwned user plant_id req now s h =
    let write_row : GeneratorProfile → Option OwnedPlant → Action Store InverterConnection =
      λ g p v.
        let c = new_connection v.next_id now g.profile_id (id_of p) req in
        (ok c, add_connection c v) in
    let agreed : GeneratorProfile → Option OwnedPlant → Action Store InverterConnection =
      λ g p. raise_if (not req.consent_accepted) no_consent >> write_row g p in
    let rest : GeneratorProfile → Action Store InverterConnection =
      λ g. plant_for user plant_id >>= agreed g in
    or_raise-Post (Keeps {A = InverterConnection}) generator_not_found (generator_of user.user_id s)
      rest s
      (λ g found.
        Post-bind (MayRead user.user_id s) (Keeps {A = InverterConnection})
          (plant_for user plant_id) (agreed g) s (plant_for-MayRead user plant_id s)
          (λ p t o.
            raise_if-Post (Keeps {A = InverterConnection}) no_consent (not req.consent_accepted)
              (write_row g p) t
              (λ _.
                let c = new_connection t.next_id now g.profile_id (id_of p) req in
                let own =
                  subst (λ v. has (vouches (all_plants v) c) (all_generators v) ≡ true) (sym o.0)
                    (profile_vouches user.user_id g c s found refl o.1) in
                add_connection-IsOwned c t own (subst IsOwned (sym o.0) h))))

mark_pending-IsOwned :
    (user_id : ℕ) (s : Store) → IsOwned s → Post (Keeps {A = Unit {0}}) (mark_pending user_id s)
unfolding mark_pending
mark_pending-IsOwned user_id s h = record {
  all =
      moved_on (λ (g : GeneratorProfile). g.user_id == user_id) s.generators.rows
        s.generators.pending (all_plants s) (s.connections.rows ++ s.connections.pending) h.all;
}

-- A request of onboarding that changes the tables, the caller's user as the token gave it.
pub data OnboardingCall : Type 0 where
  sign_up : AccountRequest → OnboardingRequest → ℕ → ℕ → OnboardingCall
  enable : User → OnboardingRequest → ℕ → OnboardingCall
  add_inverter : User → Option ℕ → ConnectionInput → ℕ → OnboardingCall

module _ (ops : TextOps) (digits : String → String) (tok : TokenOps) where
  abbrev pub serve : OnboardingCall → Store → Store
  serve (sign_up account req time now) s =
      (register_generator ops digits tok account req time now s).1
  serve (enable user req now) s = (activate_generator_profile ops digits user req now s).1
  serve (add_inverter user plant_id req now) s =
      (add_generator_connection user plant_id req now s).1

  abbrev pub serve_all : List OnboardingCall → Store → Store
  serve_all [] s = s
  serve_all (c ∷ cs) s = serve_all cs (serve c s)

  serve-IsOwned : (c : OnboardingCall) (s : Store) → IsOwned s → IsOwned (serve c s)
  unfolding register_generator activate_generator_profile add_generator_connection
  serve-IsOwned (sign_up account req time now) s h =
      request-keeps IsOwned settled-IsOwned (register_entities ops digits tok account req time now)
        s h (register_entities-IsOwned ops digits tok account req time now s h)
  serve-IsOwned (enable user req now) s h =
      request-keeps IsOwned settled-IsOwned (activate_entities ops digits user req now) s h
        (activate_entities-IsOwned ops digits user req now s h)
  serve-IsOwned (add_inverter user plant_id req now) s h =
      let mark = request (mark_pending user.user_id) in
      bind-keeps IsOwned (request (connect user plant_id req now)) (λ c. mark >> pure c) s
        (request-keeps IsOwned settled-IsOwned (connect user plant_id req now) s h
          (connect-IsOwned user plant_id req now s h))
        (λ c t o.
          bind-keeps IsOwned mark (λ _. pure c) t
            (request-keeps IsOwned settled-IsOwned (mark_pending user.user_id) t o
              (mark_pending-IsOwned user.user_id t o))
            (λ _ v x. x))

  -- Whatever registrations, activations and connections are served in whatever order, refused ones
  -- included: from tables in which every inverter connection is of a profile whose user owns the plant
  -- that it reads, if it names one, that stays so.
  pub serve_all-IsOwned :
      (cs : List OnboardingCall) (s : Store) → IsOwned s → IsOwned (serve_all cs s)
  serve_all-IsOwned [] s h = h
  serve_all-IsOwned (c ∷ cs) s h = serve_all-IsOwned cs (serve c s) (serve-IsOwned c s h)
