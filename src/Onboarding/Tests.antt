-- ===== src/Onboarding/Tests.antt =====
-- Runs of the onboarding, with simple texts in place of Python's.
use hec_mvp.Base.{
  ◌+◌, length, String, ◌≡◌, refl, false, true, none, some, List, [], ◌∷◌, is_some, nat_eq,
  string_eq,
}
use hec_mvp.Base.Int.{negsuc}
use hec_mvp.Base.Result.{already_generator, Result, ok, err}
use hec_mvp.Ledger.Samples.{buyer}
use hec_mvp.Store.{Store, request, is_consistent}
use hec_mvp.Store.Samples.{small}
use hec_mvp.Identity.{
  ensure_consumer_identity, generator_of, demote, ensure_roles, desired_roles, ensure_role,
  repair_profile, save_profile, infer_default_person_type,
}
use hec_mvp.Identity.Tests.{plain}
use hec_mvp.Auth.Tests.{toy}
use hec_mvp.Onboarding.{
  ConnectionInput, OnboardingRequest, OnboardingResponse, validate_business_rules,
  activate_generator_profile, add_generator_connection, create_onboarding_entities, new_plant,
  new_generator, new_connection, normalize_document,
}
use hec_mvp.Onboarding.Owners.{IsOwned}
use hec_mvp.Onboarding.Requests.{OnboardingCall, enable, add_inverter, serve_all, serve_all-IsOwned}
use hec_mvp.Onboarding.Once.{activate_once}

abbrev digits : String → String
digits t = t

abbrev rooftop : OnboardingRequest
rooftop = record {
  person_type = "PF";
  document_id = "12345678900";
  legal_name = none;
  trade_name = none;
  phone = none;
  attribute_assignment_accepted = true;
  plant = record {
    name = "Rooftop";
    absolar_id = none;
    lat = negsuc 230000;
    lng = negsuc 460000;
    capacity_kw = 5;
    inverter_brand = none;
    inverter_model = none;
  };
  inverter_connection = record {
    provider_name = "growatt";
    integration_mode = "vendor_partner";
    external_account_ref = none;
    inverter_serial = some "SN1";
    consent_accepted = true;
  };
}

abbrev made : OnboardingResponse
made = record {
  user = buyer;
  profile = new_generator (small.next_id + 1) 700 buyer "12345678900" rooftop;
  plant = new_plant small.next_id 700 buyer rooftop;
  token = none;
  connections =
      new_connection (small.next_id + 2) 700 (small.next_id + 1) (some small.next_id)
        rooftop.inverter_connection
      ∷ [];
}

abbrev activated : Result OnboardingResponse × Store
activated = activate_generator_profile plain digits buyer rooftop 700 small

activated_ok : activated ≡ (ok made, activated.1)
unfolding activate_generator_profile create_onboarding_entities ensure_consumer_identity request
    demote ensure_roles desired_roles ensure_role new_plant new_generator new_connection
    normalize_document repair_profile validate_business_rules is_consistent
    infer_default_person_type save_profile
activated_ok = refl

activate_once_example :
    (is_some (generator_of 1 activated.1) ≡ true)
    × (activate_generator_profile plain digits buyer rooftop 900 activated.1
        ≡ (err already_generator, activated.1))
unfolding validate_business_rules
activate_once_example =
    activate_once plain digits buyer rooftop rooftop 700 900 small activated_ok refl

-- An inverter whose owner has not agreed to its reading.
abbrev unasked : ConnectionInput
unasked = record rooftop.inverter_connection { consent_accepted = false }

-- An activation, a second inverter for the same plant, and one for a plant that is not on record.
abbrev calls : List OnboardingCall
calls =
    enable buyer rooftop 700
    ∷ add_inverter buyer (some small.next_id) rooftop.inverter_connection 800
    ∷ add_inverter buyer (some 99) rooftop.inverter_connection 900
    ∷ []

served_two : length (serve_all plain digits toy calls small).connections.rows ≡ 2
unfolding activate_generator_profile create_onboarding_entities ensure_consumer_identity request
    demote ensure_roles desired_roles ensure_role new_plant new_generator new_connection
    normalize_document repair_profile validate_business_rules is_consistent
    infer_default_person_type save_profile add_generator_connection
served_two = refl

serve_all-IsOwned_example : IsOwned (serve_all plain digits toy calls small)
serve_all-IsOwned_example = serve_all-IsOwned plain digits toy calls small (record { all = tt })
