-- ===== src/Onboarding/Laws.antt =====
-- What each request of the onboarding does to the owners' tables.
use hec_mvp.Base.{
  ℕ, String, refl, inl, inr, not, Option, none, some, arith, is_some, nat_eq, string_eq, find,
  beq_refl, Bool-cases, Option-cases,
}
use hec_mvp.Base.Result.{
  rules_broken, already_generator, ok, Action, pure, ◌>>=◌, ◌>>◌, Post, Post-bind, raise_if-Post,
  gets, raise_if,
}
use hec_mvp.Ledger.{User}
use hec_mvp.Store.{GeneratorProfile, ConsumerProfile, Store, flush}
use hec_mvp.Store.Keeps.{flush-keeps}
use hec_mvp.Identity.{TextOps, generator_of, ensure_consumer_identity}
use hec_mvp.Identity.Users.{identity-keeps}
use hec_mvp.Auth.{
  TokenOps, Registered, register_user, new_user, new_wallet, by_email, add_user, add_wallet,
  create_token,
}
use hec_mvp.Onboarding.{
  OnboardingRequest, AccountRequest, OnboardingResponse, Entities, validate_business_rules,
  normalize_document, is_taken, new_plant, new_generator, new_connection, add_plant, add_generator,
  add_connection, create_onboarding_entities, register_entities, activate_entities, response_of,
}
use hec_mvp.Onboarding.Owners.{IsOwned, settled-IsOwned}
use hec_mvp.Onboarding.Steps.{
  all_plants, WithPlant, settled-WithPlant, add_plant-WithPlant, WithProfile, settled-WithProfile,
  add_generator-WithProfile, add_connection-IsOwned,
}

abbrev pub Keeps : {A : Type 0} → A → Store → Type 0
Keeps _ t = IsOwned t

identity-IsOwned :
    (ops : TextOps) (user : User) (now : ℕ) (s : Store)
    → IsOwned s
    → Post (Keeps {A = ConsumerProfile}) (ensure_consumer_identity ops user now s)
identity-IsOwned ops user now s h =
    identity-keeps IsOwned settled-IsOwned (λ t b p o. record { all = o.all }) ops user now s h

register_user-IsOwned :
    (tok : TokenOps) (ops : TextOps) (email name password role : String)
    (wallet_address : Option String) (time now : ℕ) (s : Store)
    → IsOwned s
    → Post
        (Keeps {A = Registered tok})
        (register_user tok ops email name password role wallet_address time now s)
unfolding register_user
register_user-IsOwned tok ops email name password role wallet_address time now s h =
    elim (Option-cases (find (by_email tok email) s.users.rows)) [
      | inr (u, taken) ↦ rw taken tt
      | inl free ↦
          let u = new_user tok s.next_id email name password role now in
          let k : ConsumerProfile → Action Store (Registered tok) = λ _ v.
            let wallet = new_wallet tok v.next_id u.user_id wallet_address in
            (
              ok (record {
                user = u;
                wallet = wallet;
                token = create_token tok (tok.uuid_text u.user_id) email time;
              }),
              add_wallet tok wallet v,
            ) in
          rw free (
            Post-bind (Keeps {A = ConsumerProfile}) (Keeps {A = Registered tok})
              (ensure_consumer_identity ops u now) k (add_user tok u s)
              (identity-IsOwned ops u now (add_user tok u s) (record { all = h.all }))
              (λ _ v c. record { all = c.all }))
    ]

module _ (ops : TextOps) (digits : String → String) where
  create-IsOwned :
      (user : User) (req : OnboardingRequest) (now : ℕ) (s : Store)
      → IsOwned s
      → Post
          (Keeps {A = Entities ops digits})
          (create_onboarding_entities ops digits user req now s)
  unfolding create_onboarding_entities new_plant new_generator new_connection
  create-IsOwned user req now s h =
      let document_id = normalize_document ops digits req.document_id in
      let plant = new_plant s.next_id now user req in
      let E : Type 0 = Entities ops digits in
      let finish : GeneratorProfile → Action Store E = λ g v.
        let c =
          new_connection v.next_id now g.profile_id (some plant.plant_id) req.inverter_connection in
        (ok (g, plant, c), add_connection c v) in
      let profile_at : Store → GeneratorProfile =
        λ u. new_generator u.next_id now user document_id req in
      let middle : Action Store E =
        λ u. (flush >> finish (profile_at u)) (add_generator (profile_at u) u) in
      elim (Bool-cases (is_taken ops digits user.user_id document_id s)) [
        | inl taken ↦ rw taken tt
        | inr free ↦ rw free (
            Post-bind (λ (_ : Unit {0}) u. WithPlant user.user_id plant.plant_id u) (Keeps {A = E})
              flush (λ _. middle) (add_plant plant s)
              (flush-keeps (WithPlant user.user_id plant.plant_id)
                (settled-WithPlant user.user_id plant.plant_id) (add_plant plant s)
                (add_plant-WithPlant plant user.user_id s refl h))
              (λ _ u w.
                let g = profile_at u in
                Post-bind (λ (_ : Unit {0}) v. WithProfile g plant.plant_id v) (Keeps {A = E}) flush
                  (λ _. finish g) (add_generator g u)
                  (flush-keeps (WithProfile g plant.plant_id) (settled-WithProfile g plant.plant_id)
                    (add_generator g u) (add_generator-WithProfile g plant.plant_id u w))
                  (λ _ v x.
                    let c =
                      new_connection v.next_id now g.profile_id (some plant.plant_id)
                        req.inverter_connection in
                    add_connection-IsOwned c v
                      (x.listed (all_plants v) c (ground (arith, beq_refl g.profile_id, x.own)))
                      x.owned)))
      ]

  -- The last steps of a registration and of an activation.
  abbrev finish : User → ℕ → Option String → Entities ops digits → Action Store OnboardingResponse
  finish user now token made = do
    ensure_consumer_identity ops user now
    pure (response_of ops digits user made token)

  finish-IsOwned :
      (user : User) (now : ℕ) (token : Option String) (made : Entities ops digits) (s : Store)
      → IsOwned s
      → Post (Keeps {A = OnboardingResponse}) (finish user now token made s)
  finish-IsOwned user now token made s h =
      Post-bind (Keeps {A = ConsumerProfile}) (Keeps {A = OnboardingResponse})
        (ensure_consumer_identity ops user now) (λ _. pure (response_of ops digits user made token))
        s (identity-IsOwned ops user now s h) (λ _ t o. o)

  abbrev created : User → OnboardingRequest → ℕ → Option String → Action Store OnboardingResponse
  created user req now token =
      create_onboarding_entities ops digits user req now >>= finish user now token

  created-IsOwned :
      (user : User) (req : OnboardingRequest) (now : ℕ) (token : Option String) (s : Store)
      → IsOwned s
      → Post (Keeps {A = OnboardingResponse}) (created user req now token s)
  created-IsOwned user req now token s h =
      Post-bind (Keeps {A = Entities ops digits}) (Keeps {A = OnboardingResponse})
        (create_onboarding_entities ops digits user req now) (finish user now token) s
        (create-IsOwned user req now s h) (finish-IsOwned user now token)

  pub activate_entities-IsOwned :
      (user : User) (req : OnboardingRequest) (now : ℕ) (s : Store)
      → IsOwned s
      → Post (Keeps {A = OnboardingResponse}) (activate_entities ops digits user req now s)
  unfolding activate_entities
  activate_entities-IsOwned user req now s h =
      let known = is_some (generator_of user.user_id s) in
      let rest = created user req now none in
      raise_if-Post (Keeps {A = OnboardingResponse}) rules_broken
        (not (validate_business_rules req))
        (gets (generator_of user.user_id) >>= λ g. raise_if (is_some g) already_generator >> rest) s
        (λ _.
          raise_if-Post (Keeps {A = OnboardingResponse}) already_generator known rest s
            (λ _. created-IsOwned user req now none s h))

  pub register_entities-IsOwned :
      (tok : TokenOps) (account : AccountRequest) (req : OnboardingRequest) (time now : ℕ)
      (s : Store)
      → IsOwned s
      → Post
          (Keeps {A = OnboardingResponse})
          (register_entities ops digits tok account req time now s)
  unfolding register_entities
  register_entities-IsOwned tok account req time now s h =
      let register =
        register_user tok ops account.email account.name account.password "seller" none time now in
      let rest : Registered tok → Action Store OnboardingResponse =
        λ r. created r.user req now (some r.token) in
      raise_if-Post (Keeps {A = OnboardingResponse}) rules_broken
        (not (validate_business_rules req)) (register >>= rest) s
        (λ _.
          Post-bind (Keeps {A = Registered tok}) (Keeps {A = OnboardingResponse}) register rest s
            (register_user-IsOwned tok ops account.email account.name account.password "seller" none
              time now s h)
            (λ r t o. created-IsOwned r.user req now (some r.token) t o))
