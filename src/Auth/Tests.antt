-- ===== src/Auth/Tests.antt =====
-- Runs of the tokens and of the login, with simple texts in place of Python's.
use hec_mvp.Base.{
  ◌+◌, ◌*◌, ◌/◌, ◌≤◌, String, ◌≡◌, refl, true, not, none, some, [], ◌∷◌, text_beq, ltb,
  if◌then◌else◌, nat_eq, string_eq,
}
use hec_mvp.Base.Result.{Exn, Result, Action, ok, err, pure, ◌>>◌}
use hec_mvp.Ledger.{User}
use hec_mvp.Ledger.Samples.{buyer}
use hec_mvp.Store.{Store, request, flush, is_consistent}
use hec_mvp.Store.Samples.{small}
use hec_mvp.Identity.{
  ensure_consumer_identity, demote, ensure_roles, desired_roles, ensure_role, new_profile,
}
use hec_mvp.Identity.Tests.{plain}
use hec_mvp.Auth.{
  TokenOps, Payload, LoggedIn, payload_at, create_token, verify_token, get_current_user,
  hash_password, login_user, register_user, Registered, new_user, new_wallet, token_expiry_seconds,
}
use hec_mvp.Auth.Tokens.{
  IsCodec, verify-create_token, get_current_user-create_token, verify_token_sound,
}
use hec_mvp.Auth.Accounts.{login_user-register_user}

abbrev anas : Payload
anas = record { user_id = "1"; email = "ana@example.com"; exp = 86405; iat = 5 }

-- One payload, its JSON "p" and its signature "s".
abbrev pub toy : TokenOps
toy = record {
  sha256 = λ t. "x";
  sign = λ t. "s";
  dumps = λ p. "p";
  loads = λ t. if text_beq t "p" then some anas else none;
  b64 = λ t. t;
  unb64 = λ t. some t;
  parts = λ t. if text_beq t "p.s" then "p" ∷ "s" ∷ [] else t ∷ [];
  without_bearer = λ t. if text_beq t "Bearer p.s" then "p.s" else t;
  uuid_text = λ n. "1";
  parse_uuid = λ t. if text_beq t "1" then some 1 else none;
}

toy-IsCodec : IsCodec toy (payload_at toy "1" "ana@example.com" 5000000)
toy-IsCodec = record { unb64-b64 = refl; loads-dumps = refl; parts_of = refl }

verify-create_token_example :
    verify_token toy (create_token toy "1" "ana@example.com" 5000000) 6000000 ≡ (
      if ltb ((5000000 / 1000000 + token_expiry_seconds) * 1000000) 6000000
      then none
      else some (payload_at toy "1" "ana@example.com" 5000000))
verify-create_token_example =
    verify-create_token toy "1" "ana@example.com" 5000000 6000000 toy-IsCodec

too_late : verify_token toy "p.s" 86405000001 ≡ none
unfolding verify_token
too_late = refl

get_current_user-create_token_example :
    get_current_user toy (some "Bearer p.s") 6000000 small ≡ (ok buyer, small)
unfolding create_token
get_current_user-create_token_example =
    get_current_user-create_token toy buyer "ana@example.com" "Bearer p.s" 5000000 6000000 small
      toy-IsCodec refl refl refl refl refl

toy_accepts : verify_token toy "p.s" 6000000 ≡ some anas
unfolding verify_token
toy_accepts = refl

verify_token_sound_example :
    (body : String) × (toy.parts "p.s" ≡ body ∷ toy.sign body ∷ []) × (6000000 ≤ anas.exp * 1000000)
verify_token_sound_example = verify_token_sound toy "p.s" 6000000 anas toy_accepts

abbrev eva : User
eva = record {
  user_id = small.next_id;
  email = "eva@example.com";
  name = "Eva";
  password_hash = "x";
  role = "buyer";
  is_active = true;
  created_at = 5;
}

abbrev signing_up : Action Store (Registered toy)
signing_up = register_user toy plain "eva@example.com" "Eva" "secret" "buyer" none 5000000 5

abbrev signed_up : Result (Registered toy) × Store
unfolding register_user ensure_consumer_identity new_user new_wallet create_token request flush
signed_up = request signing_up small

login_user-register_user_example :
    login_user toy plain "eva@example.com" "secret" 9000000 9 signed_up.1 ≡ (
      if not (text_beq (hash_password toy "secret") (hash_password toy "secret"))
      then (err Exn.bad_credentials, signed_up.1)
      else (do
        ensure_consumer_identity plain eva 9
        pure {A = LoggedIn toy} (record {
          user = eva;
          token = create_token toy (toy.uuid_text eva.user_id) "eva@example.com" 9000000;
        }))
          signed_up.1)
unfolding register_user ensure_consumer_identity new_user new_wallet create_token request flush
    is_consistent demote ensure_roles desired_roles ensure_role new_profile
login_user-register_user_example =
    login_user-register_user toy plain "eva@example.com" "Eva" "secret" "buyer" none 5000000 5
      "secret" 9000000 9 small
      (record {
        user = eva;
        wallet = new_wallet toy 1001 eva.user_id none;
        token = create_token toy (toy.uuid_text eva.user_id) "eva@example.com" 5000000;
      })
      signed_up.1 refl refl
