-- ===== src/Onboarding/Once.antt =====
-- An account that has been activated as a generator is not activated again.
use hec_mvp.Base.{
  ℕ, String, ◌≡◌, refl, true, not, none, some, [], ◌∷◌, ◌==◌, is_some, nat_eq, string_eq, beq_refl,
}
use mathlib.Core.List.{append_assoc, append-nil}
use hec_mvp.Base.Rows.{find-append_last}
use hec_mvp.Base.Result.{
  rules_broken, already_generator, document_taken, ok, err, Action, pure, ◌>>=◌, ◌>>◌, Post,
  Post-bind, Post-ok, raise_if-Post, gets, raise_if,
}
use hec_mvp.Ledger.{User}
use hec_mvp.Session.{has}
use hec_mvp.Store.{GeneratorProfile, OwnedPlant, ConsumerProfile, Store, settled, flush, request}
use hec_mvp.Store.Keeps.{flush-keeps, flush-leaves, request-leaves}
use hec_mvp.Identity.{TextOps, generator_of, ensure_consumer_identity}
use hec_mvp.Identity.Users.{identity-keeps}
use hec_mvp.Onboarding.{
  OnboardingRequest, OnboardingResponse, Entities, validate_business_rules, normalize_document,
  is_taken, new_plant, new_generator, new_connection, add_plant, add_generator, add_connection,
  create_onboarding_entities, activate_entities, activate_generator_profile, response_of,
}
use hec_mvp.Onboarding.Steps.{all_generators}

abbrev Generates : ℕ → Store → Type 0
Generates user_id s = has (λ (g : GeneratorProfile). g.user_id == user_id) (all_generators s) ≡ true

-- With the profile flushed.
abbrev IsKnown : ℕ → Store → Type 0
IsKnown user_id s = is_some (generator_of user_id s) ≡ true

settled-Generates : (user_id : ℕ) (s : Store) → Generates user_id s → Generates user_id (settled s)
settled-Generates user_id s h = rw (append-nil (all_generators s)) h

add_generator-Generates :
    (g : GeneratorProfile) (s : Store) → Generates g.user_id (add_generator g s)
add_generator-Generates g s = rw (← append_assoc s.generators.rows s.generators.pending (g ∷ [])) (
    find-append_last (λ (x : GeneratorProfile). x.user_id == g.user_id) (all_generators s) g
      (beq_refl g.user_id))

module _ (ops : TextOps) (digits : String → String) (user : User) where
  abbrev Made : {A : Type 0} → A → Store → Type 0
  Made _ t = Generates user.user_id t

  create-Generates :
      (req : OnboardingRequest) (now : ℕ) (s : Store)
      → Post (Made {A = Entities ops digits}) (create_onboarding_entities ops digits user req now s)
  unfolding create_onboarding_entities new_plant new_generator
  create-Generates req now s =
      let E : Type 0 = Entities ops digits in
      let document_id = normalize_document ops digits req.document_id in
      let finish : OwnedPlant → GeneratorProfile → Action Store E = λ p g v.
        let c =
          new_connection v.next_id now g.profile_id (some p.plant_id) req.inverter_connection in
        (ok (g, p, c), add_connection c v) in
      let profile_at : Store → GeneratorProfile =
        λ u. new_generator u.next_id now user document_id req in
      let middle : OwnedPlant → Action Store E =
        λ p u. (flush >> finish p (profile_at u)) (add_generator (profile_at u) u) in
      let plant_at : Store → OwnedPlant = λ u. new_plant u.next_id now user req in
      let plant = plant_at s in
      raise_if-Post (Made {A = E}) document_taken (is_taken ops digits user.user_id document_id s)
        (λ u. (flush >> middle (plant_at u)) (add_plant (plant_at u) u)) s
        (λ _.
          Post-bind (λ (_ : Unit {0}) _. Unit {0}) (Made {A = E}) flush (λ _. middle plant)
            (add_plant plant s)
            (flush-leaves (λ _. Unit {0}) (λ _. Unit {0}) (λ _ _. tt) (add_plant plant s) tt)
            (λ _ u _.
              let g = profile_at u in
              Post-bind (λ (_ : Unit {0}) v. Generates user.user_id v) (Made {A = E}) flush
                (λ _. finish plant g) (add_generator g u)
                (flush-keeps (Generates user.user_id) (settled-Generates user.user_id)
                  (add_generator g u) (add_generator-Generates g u))
                (λ _ v x. x)))

  activate_entities-Generates :
      (req : OnboardingRequest) (now : ℕ) (s : Store)
      → Post (Made {A = OnboardingResponse}) (activate_entities ops digits user req now s)
  unfolding activate_entities
  activate_entities-Generates req now s =
      let E : Type 0 = Entities ops digits in
      let known = is_some (generator_of user.user_id s) in
      let create = create_onboarding_entities ops digits user req now in
      let finish : E → Action Store OnboardingResponse = λ made.
        ensure_consumer_identity ops user now >> pure (response_of ops digits user made none) in
      let rest = create >>= finish in
      raise_if-Post (Made {A = OnboardingResponse}) rules_broken (not (validate_business_rules req))
        (gets (generator_of user.user_id) >>= λ g. raise_if (is_some g) already_generator >> rest) s
        (λ _. raise_if-Post (Made {A = OnboardingResponse}) already_generator known rest s (λ _.
          Post-bind (Made {A = E}) (Made {A = OnboardingResponse}) create finish s
            (create-Generates req now s)
            (λ made t o.
              Post-bind (Made {A = ConsumerProfile}) (Made {A = OnboardingResponse})
                (ensure_consumer_identity ops user now)
                (λ _. pure (response_of ops digits user made none)) t
                (identity-keeps (Generates user.user_id) (settled-Generates user.user_id)
                  (λ v b p x. x) ops user now t o)
                (λ _ v x. x))))

  -- An account whose activation as a generator returned is known as one afterwards, and any further
  -- activation of it that meets the rules of a request is refused with the answer 409 and leaves the tables as they are.
  pub activate_once :
      (req again : OnboardingRequest) (now later : ℕ) (s : Store) {made : OnboardingResponse}
      {t : Store}
      → activate_generator_profile ops digits user req now s ≡ (ok made, t)
      → validate_business_rules again ≡ true
      → (is_some (generator_of user.user_id t) ≡ true)
        × (activate_generator_profile ops digits user again later t ≡ (err already_generator, t))
  unfolding activate_generator_profile activate_entities request
  activate_once req again now later s {t = t} done sound =
      let known : is_some (generator_of user.user_id t) ≡ true =
        Post-ok (λ (_ : OnboardingResponse) u. IsKnown user.user_id u)
          (activate_generator_profile ops digits user req now s) done
          (request-leaves (Generates user.user_id) (IsKnown user.user_id) (λ u x. x)
            (activate_entities ops digits user req now) s
            (activate_entities-Generates req now s)) in
      (known, rw (sound, known) refl)
