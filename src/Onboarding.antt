-- ===== src/Onboarding.antt =====
-- app/api/generator_onboarding.py: the registration of a generator, the activation for an account that
-- exists, the connections of inverters, and what the owner sees of them, with the rules of
-- app/schemas/generator_onboarding.py that relate fields. The caller's token has been checked (Auth); a
-- refusal is the exception whose code is answered. The dashboard of a supplier is not modelled.
pub mod Owners
pub mod Steps
pub mod Laws
pub mod Requests
pub mod Once
pub mod Consent
pub mod Tests
use hec_mvp.Base.{
  ℕ, ◌+◌, String, Bool, true, false, not, ◌&&◌, ◌||◌, Option, none, some, List, [], ◌∷◌, text_beq,
  ltb, ◌==◌, if◌then◌else◌, is_some, nat_eq, string_eq, is_empty, truthy, select, find, order_by,
}
use hec_mvp.Base.Int.{ℤ}
use hec_mvp.Base.Result.{
  Exn, Result, ok, err, Action, pure, gets, or_raise, raise_if, modify, ◌>>=◌, ◌>>◌,
}
use hec_mvp.Ledger.{User}
use hec_mvp.Session.{Table, add, write}
use hec_mvp.Store.{
  GeneratorProfile, OwnedPlant, InverterConnection, ConsumerProfile, Store, flush, request,
}
use hec_mvp.Identity.{TextOps, generator_of, ensure_consumer_identity}
use hec_mvp.Auth.{TokenOps, Registered, register_user}

pub record GeneratorPlantInput : Type 0 where
  pub name : String
  pub absolar_id : Option String
  pub lat : ℤ
  pub lng : ℤ
  pub capacity_kw : ℕ
  pub inverter_brand : Option String
  pub inverter_model : Option String

pub record ConnectionInput : Type 0 where
  pub provider_name : String
  pub integration_mode : String
  pub external_account_ref : Option String
  pub inverter_serial : Option String
  pub consent_accepted : Bool

-- What a registration and an activation ask for alike.
pub record OnboardingRequest : Type 0 where
  pub person_type : String
  pub document_id : String
  pub legal_name : Option String
  pub trade_name : Option String
  pub phone : Option String
  pub attribute_assignment_accepted : Bool
  pub plant : GeneratorPlantInput
  pub inverter_connection : ConnectionInput

pub record AccountRequest : Type 0 where
  pub email : String
  pub name : String
  pub password : String

pub record OnboardingResponse : Type 0 where
  pub user : User
  pub profile : GeneratorProfile
  pub plant : OwnedPlant
  pub token : Option String
  pub connections : List InverterConnection

-- The rules of a request: without them the framework answers 422.
unfoldable pub validate_business_rules : OnboardingRequest → Bool
validate_business_rules req =
    req.attribute_assignment_accepted
    && req.inverter_connection.consent_accepted
    && (not (text_beq req.person_type "PJ") || truthy req.legal_name)

-- `a or b` of texts.
abbrev pub name_or : Option String → String → String
name_or none d = d
name_or (some s) d = if is_empty s then d else s

abbrev pub is_of_owner : ℕ → OwnedPlant → Bool
is_of_owner user_id p = elim p.owner_user_id [ none ↦ false | some k ↦ k == user_id ]

abbrev pub first : {A : Type 0} → List A → Option A
first [] = none
first (x ∷ xs) = some x

-- `.order_by(created_at.desc()).first()` of the plants of a user.
abbrev pub newest : OwnedPlant → OwnedPlant → Bool
newest a b = ltb b.created_at a.created_at

unfoldable pub latest_plant : ℕ → Store → Option OwnedPlant
latest_plant user_id s = first (order_by newest (select (is_of_owner user_id) s.plants.rows))

abbrev pub plant_by : ℕ → OwnedPlant → Bool
plant_by plant_id p = p.plant_id == plant_id

unfoldable pub new_plant : ℕ → ℕ → User → OnboardingRequest → OwnedPlant
new_plant id now user req = record {
  plant_id = id;
  name = req.plant.name;
  absolar_id = req.plant.absolar_id;
  owner_name = some (name_or req.legal_name user.name);
  owner_user_id = some user.user_id;
  lat = req.plant.lat;
  lng = req.plant.lng;
  capacity_kw = req.plant.capacity_kw;
  status = "pending";
  inverter_brand = req.plant.inverter_brand;
  inverter_model = req.plant.inverter_model;
  created_at = now;
}

unfoldable pub new_generator : ℕ → ℕ → User → String → OnboardingRequest → GeneratorProfile
new_generator id now user document_id req = record {
  profile_id = id;
  user_id = user.user_id;
  person_type = req.person_type;
  document_id = document_id;
  legal_name = req.legal_name;
  trade_name = req.trade_name;
  phone = req.phone;
  attribute_assignment_accepted = true;
  assignment_accepted_at = some now;
  onboarding_status = "integration_pending";
}

unfoldable pub new_connection : ℕ → ℕ → ℕ → Option ℕ → ConnectionInput → InverterConnection
new_connection id now profile_id plant_id req = record {
  connection_id = id;
  profile_id = profile_id;
  plant_id = plant_id;
  provider_name = req.provider_name;
  integration_mode = req.integration_mode;
  external_account_ref = req.external_account_ref;
  inverter_serial = req.inverter_serial;
  consent_accepted = true;
  consented_at = some now;
  connection_status = "pending";
  last_sync_at = none;
  created_at = now;
}

abbrev pub add_plant : OwnedPlant → Store → Store
add_plant p s = record s { plants = add p s.plants; next_id = s.next_id + 1 }

abbrev pub add_generator : GeneratorProfile → Store → Store
add_generator g s = record s { generators = add g s.generators; next_id = s.next_id + 1 }

abbrev pub add_connection : InverterConnection → Store → Store
add_connection c s = record s { connections = add c s.connections; next_id = s.next_id + 1 }

-- `digits`: `re.sub(r"\D+", "", document_id)`.
module _ (ops : TextOps) (digits : String → String) where
  unfoldable pub normalize_document : String → String
  normalize_document document_id =
      let cleaned = digits document_id in
      if is_empty cleaned then ops.strip document_id else cleaned

  -- The document is on record for another generator.
  abbrev pub is_taken : ℕ → String → Store → Bool
  is_taken user_id document_id s =
      elim (find (λ (g : GeneratorProfile). text_beq g.document_id document_id) s.generators.rows) [
        | none ↦ false
        | some g ↦ not (g.user_id == user_id)
      ]

  abbrev pub Entities : Type 0
  Entities = GeneratorProfile × OwnedPlant × InverterConnection

  unfoldable pub create_onboarding_entities : User → OnboardingRequest → ℕ → Action Store Entities
  create_onboarding_entities user req now = do
    let document_id = normalize_document req.document_id
    taken ← gets (is_taken user.user_id document_id)
    raise_if taken Exn.document_taken
    plant_id ← gets (λ s. s.next_id)
    let plant = new_plant plant_id now user req
    modify (add_plant plant)
    flush
    profile_id ← gets (λ s. s.next_id)
    let profile = new_generator profile_id now user document_id req
    modify (add_generator profile)
    flush
    connection_id ← gets (λ s. s.next_id)
    let connection =
        new_connection connection_id now profile_id (some plant_id) req.inverter_connection
    modify (add_connection connection)
    pure (profile, plant, connection)

  abbrev pub response_of : User → Entities → Option String → OnboardingResponse
  response_of user made token = record {
    user = user;
    profile = made.0;
    plant = made.1;
    token = token;
    connections = made.2 ∷ [];
  }

  unfoldable pub register_entities :
      TokenOps → AccountRequest → OnboardingRequest → ℕ → ℕ → Action Store OnboardingResponse
  register_entities tok account req time now = do
    raise_if (not (validate_business_rules req)) Exn.rules_broken
    r ← register_user tok ops account.email account.name account.password "seller" none time now
    made ← create_onboarding_entities r.user req now
    ensure_consumer_identity ops r.user now
    pure (response_of r.user made (some r.token))

  unfoldable pub register_generator :
      TokenOps → AccountRequest → OnboardingRequest → ℕ → ℕ → Action Store OnboardingResponse
  unfolding register_entities
  register_generator tok account req time now = request (register_entities tok account req time now)

  unfoldable pub activate_entities : User → OnboardingRequest → ℕ → Action Store OnboardingResponse
  activate_entities user req now = do
    raise_if (not (validate_business_rules req)) Exn.rules_broken
    existing ← gets (generator_of user.user_id)
    raise_if (is_some existing) Exn.already_generator
    made ← create_onboarding_entities user req now
    ensure_consumer_identity ops user now
    pure (response_of user made none)

  unfoldable pub activate_generator_profile :
      User → OnboardingRequest → ℕ → Action Store OnboardingResponse
  unfolding activate_entities
  activate_generator_profile user req now = request (activate_entities user req now)

-- The connections of a profile, the newest first.
abbrev pub newer : InverterConnection → InverterConnection → Bool
newer a b = ltb b.created_at a.created_at

unfoldable pub connections_of : ℕ → Store → List InverterConnection
connections_of profile_id s =
    order_by newer
      (select (λ (c : InverterConnection). c.profile_id == profile_id) s.connections.rows)

-- The plant of the newest connection, if it has one that is on record.
unfoldable pub connected_plant : List InverterConnection → Store → Option OwnedPlant
connected_plant [] s = none
connected_plant (c ∷ cs) s = elim c.plant_id [
  | none ↦ none
  | some k ↦ find (plant_by k) s.plants.rows
]

unfoldable pub plant_to_show : ℕ → List InverterConnection → Store → Option OwnedPlant
unfolding latest_plant connected_plant
plant_to_show user_id connections s = elim (connected_plant connections s) [
  | none ↦ latest_plant user_id s
  | some p ↦ some p
]

unfoldable pub get_my_onboarding : User → Action Store OnboardingResponse
get_my_onboarding user = do
  found ← gets (generator_of user.user_id)
  profile ← or_raise found Exn.generator_not_found
  connections ← gets (connections_of profile.profile_id)
  shown ← gets (plant_to_show user.user_id connections)
  plant ← or_raise shown Exn.plant_not_found
  pure (record {
    user = user;
    profile = profile;
    plant = plant;
    token = none;
    connections = connections;
  })

-- The plant of a new connection: the one that is named, of the user, or else the user's newest.
unfoldable pub plant_for : User → Option ℕ → Action Store (Option OwnedPlant)
plant_for user none = gets (latest_plant user.user_id)
plant_for user (some plant_id) = do
  found ← gets (λ s. find (plant_by plant_id) s.plants.rows)
  plant ← or_raise found Exn.plant_not_found
  raise_if (not (is_of_owner user.user_id plant)) Exn.not_owner
  pure (some plant)

abbrev pub id_of : Option OwnedPlant → Option ℕ
id_of none = none
id_of (some p) = some p.plant_id

unfoldable pub connect : User → Option ℕ → ConnectionInput → ℕ → Action Store InverterConnection
unfolding plant_for
connect user plant_id req now = do
  found ← gets (generator_of user.user_id)
  profile ← or_raise found Exn.generator_not_found
  plant ← plant_for user plant_id
  raise_if (not req.consent_accepted) Exn.no_consent
  id ← gets (λ s. s.next_id)
  let connection = new_connection id now profile.profile_id (id_of plant) req
  modify (add_connection connection)
  pure connection

-- The second commit: a draft is moved on.
abbrev pub move_on : GeneratorProfile → GeneratorProfile
move_on g =
    if text_beq g.onboarding_status "draft"
    then record g { onboarding_status = "integration_pending" }
    else g

unfoldable pub mark_pending : ℕ → Action Store (Unit {0})
mark_pending user_id = modify (λ s. record s {
  generators = write (λ (g : GeneratorProfile). g.user_id == user_id) move_on s.generators;
})

unfoldable pub add_generator_connection :
    User → Option ℕ → ConnectionInput → ℕ → Action Store InverterConnection
unfolding connect mark_pending
add_generator_connection user plant_id req now = do
  connection ← request (connect user plant_id req now)
  request (mark_pending user.user_id)
  pure connection
