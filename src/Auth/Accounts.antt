-- ===== src/Auth/Accounts.antt =====
-- An account that was registered is logged in to with its password, and with no other.
use hec_mvp.Base.{
  ℕ, String, ◌≡◌, refl, sym, ◌∙◌, subst, inl, inr, not, Option, none, some, [], ◌∷◌, ◌++◌, text_beq,
  if◌then◌else◌, Bool-cases, Option-cases, nat_eq, string_eq, beq_refl, find,
}
use hec_mvp.Base.Result.{Exn, Result, ok, err, Action, pure, ◌>>=◌, ◌>>◌, Post, Post-bind}
use mathlib.Core.List.{append_assoc, append-nil}
use hec_mvp.Base.Rows.{find-append}
use hec_mvp.Ledger.{User}
use hec_mvp.Store.{Store, ConsumerProfile, flush, request}
use hec_mvp.Identity.{TextOps, ensure_consumer_identity}
use hec_mvp.Identity.Users.{everyone, SameUsers, flush-users, identity-users}
use hec_mvp.Auth.{
  TokenOps, hash_password, verify_password, by_email, login_user, create_token, register_user,
  LoggedIn, new_user, new_wallet, add_user, add_wallet, Registered,
}

-- What holds after the work and its commit holds after the request.
Post-request :
    {A : Type 0} (Q : A → Store → Type 0) (m : Action Store A) (s : Store)
    → Post Q ((do a ← m; flush; pure a) s)
    → Post Q (request m s)
unfolding request
Post-request {A = A} Q m s h = go ((do a ← m; flush; pure a) s) h
  where
    go :
        (o : Result A × Store)
        → Post Q o
        → Post Q (let (r, t) = o in elim r [ ok a ↦ (ok a, t) | err e ↦ (err e, s) ])
    go (ok a, t) p = p
    go (err e, t) p = tt

module _ (tok : TokenOps) where
  -- A user on record under an email: a password of another hash is refused and changes nothing, as is
  -- a disabled account; any other login is the call that makes sure of the identity.
  login_user_cases :
      (ops : TextOps) (u : User) (email password : String) (time now : ℕ) (s : Store)
      → find (by_email tok email) s.users.rows ≡ some u
      → login_user tok ops email password time now s ≡ (
          if not (text_beq (hash_password tok password) u.password_hash)
          then (err Exn.bad_credentials, s)
          else if not u.is_active
          then (err Exn.account_disabled, s)
          else (do
            ensure_consumer_identity ops u now
            pure (record {
              user = u;
              token = create_token tok (tok.uuid_text u.user_id) email time;
            }))
              s)
  unfolding login_user verify_password
  login_user_cases ops u email password time now s there =
      elim (Bool-cases (text_beq (hash_password tok password) u.password_hash)) [
        | inl right ↦ elim (Bool-cases u.is_active) [
          | inl active ↦ rw (there, right, active) refl
          | inr disabled ↦ rw (there, right, disabled) refl
        ]
        | inr wrong ↦ rw (there, wrong) refl
      ]

  module _ (ops : TextOps) (email name password role : String) (wallet_address : Option String)
      (time now : ℕ) where
    abbrev registering : Action Store (Registered tok)
    registering = register_user tok ops email name password role wallet_address time now

    abbrev newcomer : Store → User
    newcomer s = new_user tok s.next_id email name password role now

    -- The newcomer is the last user of the session.
    abbrev Enters : Store → Registered tok → Store → Type 0
    Enters s r t = (everyone t ≡ everyone s ++ newcomer s ∷ []) × (r.user ≡ newcomer s)

    register-users :
        (s : Store)
        → Post
            (λ r t. Enters s r t × (find (by_email tok email) s.users.rows ≡ none))
            (registering s)
    unfolding register_user
    register-users s = elim (Option-cases (find (by_email tok email) s.users.rows)) [
      | inr (u, taken) ↦ rw taken tt
      | inl free ↦
          let absent : Option User = none in
          let u = newcomer s in
          let t : Store = add_user tok u s in
          let k : ConsumerProfile → Action Store (Registered tok) = λ _ v.
            let wallet = new_wallet tok v.next_id u.user_id wallet_address in
            (
              ok (record {
                user = u;
                wallet = wallet;
                token = create_token tok (tok.uuid_text u.user_id) email time;
              }),
              add_wallet tok wallet v,
            ) in
          rw free (
            Post-bind (SameUsers t) (λ r v. Enters s r v × (absent ≡ absent))
              (ensure_consumer_identity ops u now) k t (identity-users ops u now t)
              (λ _ v c.
                ((c ∙ sym (append_assoc s.users.rows s.users.pending (u ∷ [])), refl), refl)))
    ]

    abbrev Commits : Store → Registered tok → Store → Type 0
    Commits s r t =
        (t.users.rows ≡ everyone s ++ newcomer s ∷ [])
        × (r.user ≡ newcomer s)
        × (find (by_email tok email) s.users.rows ≡ none)

    request-register : (s : Store) → Post (Commits s) (request registering s)
    request-register s = Post-request (Commits s) registering s (
        Post-bind (λ r t. Enters s r t × (find (by_email tok email) s.users.rows ≡ none))
          (Commits s) registering (λ r. flush >> pure r) s (register-users s)
          (λ r v c.
            Post-bind (λ (_ : Unit {0}) w. (everyone w ≡ everyone v) × (w.users.rows ≡ everyone v))
              (Commits s) flush (λ _. pure r) v (flush-users v)
              (λ _ w d. (d.1 ∙ c.0.0, c.0.1, c.1))))

    -- The row that a committed registration left under its email.
    registered-is_found :
        (s : Store) {r : Registered tok} {t : Store}
        → s.users.pending ≡ []
        → request registering s ≡ (ok r, t)
        → (find (by_email tok email) t.users.rows ≡ some (newcomer s)) × (r.user ≡ newcomer s)
    unfolding new_user
    registered-is_found s {r} {t} none_pending e =
        let c : Commits s r t = subst (Post (Commits s)) e (request-register s) in
        let by_prior : find (by_email tok email) (everyone s) ≡ none =
          rw none_pending (rw (append-nil s.users.rows) c.2) in
        (
          rw c.0 (
              rw (find-append (by_email tok email) (everyone s) (newcomer s ∷ []))
                (rw by_prior (rw (beq_refl email) refl))),
          c.1,
        )

    -- Once the request that registers an account is committed, from a session with nothing pending, a
    -- login with its email and a password of another hash is refused and changes nothing; a login with
    -- a password of its hash makes sure of the identity of the account's user and answers with that
    -- user and a token of its id.
    pub login_user-register_user :
        (password2 : String) (time2 now2 : ℕ) (s : Store) (r : Registered tok) (t : Store)
        → s.users.pending ≡ []
        → request registering s ≡ (ok r, t)
        → login_user tok ops email password2 time2 now2 t ≡ (
            if not (text_beq (hash_password tok password2) (hash_password tok password))
            then (err Exn.bad_credentials, t)
            else (do
              ensure_consumer_identity ops r.user now2
              pure (record {
                user = r.user;
                token = create_token tok (tok.uuid_text r.user.user_id) email time2;
              }))
                t)
    unfolding new_user
    login_user-register_user password2 time2 now2 s r t none_pending e =
        let c = registered-is_found s none_pending e in
        subst
          (λ u. login_user tok ops email password2 time2 now2 t ≡ (
            if not (text_beq (hash_password tok password2) (hash_password tok password))
            then (err Exn.bad_credentials, t)
            else (do
              ensure_consumer_identity ops u now2
              pure {A = LoggedIn tok} (record {
                user = u;
                token = create_token tok (tok.uuid_text u.user_id) email time2;
              }))
                t))
          (sym c.1) (login_user_cases ops (newcomer s) email password2 time2 now2 t c.0)
