-- ===== src/Auth.antt =====
-- app/auth.py, and `get_current_user` of app/api/consumer_pf.py: tokens, registration and login. Python's
-- libraries are the fields of `TokenOps`; `time.time()` counts microseconds here, `now` is the time of
-- the rows in seconds.
pub mod Tokens
pub mod Accounts
pub mod Tests
use hec_mvp.Base.{
  ℕ, ◌+◌, ◌-◌, ◌*◌, ◌/◌, String, Bool, true, false, not, ◌&&◌, Option, none, some, List, [], ◌∷◌,
  text_beq, ltb, ◌==◌, if◌then◌else◌, is_some, nat_eq, string_eq, is_empty, truthy, find,
}
use hec_mvp.Base.Result.{Exn, ok, err, Action, pure, gets, or_raise, raise_if, modify, ◌>>=◌, ◌>>◌}
use Prim.Native.String.{◌++◌ as text_append}
use hec_mvp.Ledger.{User, Wallet}
use hec_mvp.Session.{add, write}
use hec_mvp.Store.{Store, flush}
use hec_mvp.Identity.{TextOps, ensure_consumer_identity}

pub record Payload : Type 0 where
  pub user_id : String
  pub email : String
  pub exp : ℕ
  pub iat : ℕ

-- `sha256`: the hex digest of a text's bytes; `sign`: the hex HMAC-SHA256 of a text under `TOKEN_SECRET`; `dumps`
-- and `loads`: the JSON of a payload with sorted keys, and what a JSON text holds; `b64` and `unb64`: URL-safe
-- base64 of a text and back; `parts`: `token.split(".")`; `without_bearer`: `authorization[7:]` if it starts with
-- "Bearer ", or else the text; `uuid_text` and `parse_uuid`: a UUID's text and back.
pub record TokenOps : Type 0 where
  pub sha256 : String → String
  pub sign : String → String
  pub dumps : Payload → String
  pub loads : String → Option Payload
  pub b64 : String → String
  pub unb64 : String → Option String
  pub parts : String → List String
  pub without_bearer : String → String
  pub uuid_text : ℕ → String
  pub parse_uuid : String → Option ℕ

abbrev pub token_expiry_seconds : ℕ
token_expiry_seconds = 86400

-- In centavos.
abbrev pub initial_balance_brl : ℕ
initial_balance_brl = 1000000

module _ (tok : TokenOps) where
  unfoldable pub hash_password : String → String
  hash_password password = tok.sha256 (text_append "hec-salt-v1:" password)

  unfoldable pub verify_password : String → String → Bool
  unfolding hash_password
  verify_password password password_hash = text_beq (hash_password password) password_hash

  -- The clock is read for `exp` and again for `iat`; one reading stands for both.
  abbrev pub payload_at : String → String → ℕ → Payload
  payload_at user_id email time = record {
    user_id = user_id;
    email = email;
    exp = time / 1000000 + token_expiry_seconds;
    iat = time / 1000000;
  }

  abbrev pub body_of : Payload → String
  body_of p = tok.b64 (tok.dumps p)

  unfoldable pub create_token : String → String → ℕ → String
  create_token user_id email time =
      let body = body_of (payload_at user_id email time) in
      text_append body (text_append "." (tok.sign body))

  -- What the `try` returns; an exception of the decoding is a `None`.
  unfoldable pub decode : String → ℕ → Option Payload
  decode body time = elim (tok.unb64 body) [
    | none ↦ none
    | some json ↦ elim (tok.loads json) [
      | none ↦ none
      | some payload ↦ if ltb (payload.exp * 1000000) time then none else some payload
    ]
  ]

  unfoldable pub verify_parts : List String → ℕ → Option Payload
  unfolding decode
  verify_parts (body ∷ sig ∷ []) time =
      if text_beq sig (tok.sign body) then decode body time else none
  verify_parts _ time = none

  unfoldable pub verify_token : String → ℕ → Option Payload
  unfolding verify_parts
  verify_token token time = verify_parts (tok.parts token) time

  -- The user of a request's header.
  unfoldable pub get_current_user : Option String → ℕ → Action Store User
  get_current_user authorization time s =
      if not (truthy authorization) then (err Exn.unauthorized, s) else elim authorization [
        | none ↦ (err Exn.unauthorized, s)
        | some header ↦ elim (verify_token (tok.without_bearer header) time) [
          | none ↦ (err Exn.unauthorized, s)
          | some payload ↦ elim (tok.parse_uuid payload.user_id) [
            | none ↦ (err Exn.unauthorized, s)
            | some id ↦ elim (find (λ (u : User). u.user_id == id) s.users.rows) [
              | none ↦ (err Exn.unauthorized, s)
              | some u ↦ (ok u, s)
            ]
          ]
        ]
      ]

  abbrev pub by_email : String → User → Bool
  by_email email u = text_beq u.email email

  unfoldable pub new_user : ℕ → String → String → String → String → ℕ → User
  unfolding hash_password
  new_user id email name password role now = record {
    user_id = id;
    email = email;
    name = name;
    password_hash = hash_password password;
    role = role;
    is_active = true;
    created_at = now;
  }

  unfoldable pub new_wallet : ℕ → ℕ → Option String → Wallet
  new_wallet id user_id wallet_address = record {
    wallet_id = id;
    user_id = user_id;
    wallet_address = wallet_address;
    balance_brl = initial_balance_brl;
    hec_balance = 0;
    energy_balance_kwh = 0;
  }

  -- `db.add(user)` of a user with the next id, and of a wallet.
  abbrev pub add_user : User → Store → Store
  add_user u s = record s { users = add u s.users; next_id = s.next_id + 1 }

  abbrev pub add_wallet : Wallet → Store → Store
  add_wallet w s = record s { wallets = add w s.wallets; next_id = s.next_id + 1 }

  pub record Registered : Type 0 where
    pub user : User
    pub wallet : Wallet
    pub token : String

  unfoldable pub register_user :
      TextOps → String → String → String → String → Option String → ℕ → ℕ → Action Store Registered
  register_user ops email name password role wallet_address time now = do
    existing ← gets (λ s. find (by_email email) s.users.rows)
    raise_if (is_some existing) Exn.email_taken
    id ← gets (λ s. s.next_id)
    let user = new_user id email name password role now
    modify (add_user user)
    ensure_consumer_identity ops user now
    wallet_id ← gets (λ s. s.next_id)
    let wallet = new_wallet wallet_id user.user_id wallet_address
    modify (add_wallet wallet)
    pure (record {
      user = user;
      wallet = wallet;
      token = create_token (tok.uuid_text user.user_id) email time;
    })

  pub record LoggedIn : Type 0 where
    pub user : User
    pub token : String

  unfoldable pub login_user : TextOps → String → String → ℕ → ℕ → Action Store LoggedIn
  unfolding verify_password
  login_user ops email password time now = do
    found ← gets (λ s. find (by_email email) s.users.rows)
    user ← or_raise found Exn.bad_credentials
    raise_if (not (verify_password password user.password_hash)) Exn.bad_credentials
    raise_if (not user.is_active) Exn.account_disabled
    ensure_consumer_identity ops user now
    pure (record { user = user; token = create_token (tok.uuid_text user.user_id) email time })

  pub record SocialLogin : Type 0 where
    pub user : User
    pub wallet : Wallet
    pub token : String
    pub created : Bool

  -- The name to show: what is given, or what stands before the "@", or a word.
  unfoldable pub display_name_of : TextOps → (String → String) → String → String → String
  display_name_of ops local_part email name =
      let shown = ops.strip name in
      if not (is_empty shown)
      then shown
      else if is_empty (local_part email)
      then "Usuario"
      else local_part email

  -- The assignments to a user that exists.
  abbrev pub revive : String → User → User
  revive shown u = record u {
    name = if not (is_empty shown) && is_empty u.name then shown else u.name;
    is_active = true;
  }

  abbrev pub is_user : ℕ → User → Bool
  is_user id u = u.user_id == id

  -- The user of an email, made with a random password if there is none, and whether it was made.
  unfoldable pub find_or_create : String → String → String → String → ℕ → Action Store (User × Bool)
  find_or_create email shown role random_password now = do
    found ← gets (λ s. find (by_email email) s.users.rows)
    elim found [
      | none ↦ do
        id ← gets (λ s. s.next_id)
        let user = new_user id email shown random_password role now
        let made : User × Bool = (user, true)
        modify (add_user user)
        flush
        pure made
      | some u ↦ do
        let kept : User × Bool = (revive shown u, false)
        modify (λ s. record s { users = write (is_user u.user_id) (revive shown) s.users })
        flush
        pure kept
    ]

  abbrev pub with_address : Option String → Wallet → Wallet
  with_address given w =
      if truthy given && not (truthy w.wallet_address)
      then record w { wallet_address = given }
      else w

  abbrev pub is_wallet_of : ℕ → Wallet → Bool
  is_wallet_of user_id w = w.user_id == user_id

  -- The user's wallet, made if there is none, and with the address given if it has none.
  unfoldable pub ensure_wallet : ℕ → Option String → Action Store Wallet
  ensure_wallet user_id wallet_address = do
    found ← gets (λ s. find (is_wallet_of user_id) s.wallets.rows)
    elim found [
      | none ↦ do
        id ← gets (λ s. s.next_id)
        modify (add_wallet (new_wallet id user_id wallet_address))
        flush
        pure (new_wallet id user_id wallet_address)
      | some w ↦ do
        modify (λ s. record s {
          wallets = write (is_wallet_of user_id) (with_address wallet_address) s.wallets;
        })
        pure (with_address wallet_address w)
    ]

  unfoldable pub login_or_create_social_user :
      TextOps
      → (String → String)
      → String
      → String
      → String
      → Option String
      → String
      → ℕ
      → ℕ
      → Action Store SocialLogin
  login_or_create_social_user ops local_part given name role address random_password time now = do
    let email = ops.fold given
    raise_if (is_empty email) Exn.email_required
    account ←
        find_or_create email (display_name_of ops local_part email name) role random_password now
    ensure_consumer_identity ops account.0 now
    wallet ← ensure_wallet account.0.user_id address
    pure (record {
      user = account.0;
      wallet = wallet;
      token = create_token (tok.uuid_text account.0.user_id) account.0.email time;
      created = account.1;
    })
