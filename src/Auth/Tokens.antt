-- ===== src/Auth/Tokens.antt =====
-- A token is accepted until it expires, and only with its signature; a request with it is the user's.
use hec_mvp.Base.{
  ℕ, ◌+◌, ◌*◌, ◌/◌, ◌≤◌, String, ◌≡◌, refl, ap, ◌∙◌, inl, inr, true, false, none, some, List, [],
  ◌∷◌, arith, text_beq, eq_iff, ltb, ◌==◌, if◌then◌else◌, Bool-cases, Option-cases, nat_eq,
  string_eq, beq_refl, truthy, find,
}
use hec_mvp.Base.Result.{ok}
use Prim.Native.String.{◌++◌ as text_append}
use hec_mvp.Ledger.{User}
use hec_mvp.Store.{Store}
use hec_mvp.Auth.{
  TokenOps, Payload, payload_at, body_of, token_expiry_seconds, create_token, decode, verify_parts,
  verify_token, get_current_user,
}

-- What the code relies on for the token of a payload: base64 and JSON are read back, and neither base64
-- nor hex has a dot.
pub record IsCodec (tok : TokenOps) (p : Payload) : Type 0 where
  pub unb64-b64 : tok.unb64 (body_of tok p) ≡ some (tok.dumps p)
  pub loads-dumps : tok.loads (tok.dumps p) ≡ some p
  pub parts_of :
      tok.parts (text_append (body_of tok p) (text_append "." (tok.sign (body_of tok p))))
      ≡ body_of tok p ∷ tok.sign (body_of tok p) ∷ []

module _ (tok : TokenOps) where
  -- A token that was made at `made` and is checked at `time` gives back its payload, until the 24 hours
  -- from the second of its making have passed, and nothing after them.
  pub verify-create_token :
      (user_id email : String) (made time : ℕ)
      → IsCodec tok (payload_at tok user_id email made)
      → verify_token tok (create_token tok user_id email made) time ≡ (
          if ltb ((made / 1000000 + token_expiry_seconds) * 1000000) time
          then none
          else some (payload_at tok user_id email made))
  unfolding verify_token verify_parts decode create_token
  verify-create_token user_id email made time codec =
      let p = payload_at tok user_id email made in
      let same = beq_refl (tok.sign (body_of tok p)) in
      rw (codec.parts_of, same, decode, codec.unb64-b64, codec.loads-dumps) refl

  -- A header that carries the token of a user on record, before it expires, gives that user and changes
  -- nothing.
  pub get_current_user-create_token :
      (u : User) (email header : String) (made time : ℕ) (s : Store)
      → IsCodec tok (payload_at tok (tok.uuid_text u.user_id) email made)
      → tok.parse_uuid (tok.uuid_text u.user_id) ≡ some u.user_id
      → truthy (some header) ≡ true
      → tok.without_bearer header ≡ create_token tok (tok.uuid_text u.user_id) email made
      → ltb ((made / 1000000 + token_expiry_seconds) * 1000000) time ≡ false
      → find (λ (v : User). v.user_id == u.user_id) s.users.rows ≡ some u
      → get_current_user tok (some header) time s ≡ (ok u, s)
  unfolding get_current_user
  get_current_user-create_token u email header made time s codec id given carried early there =
      let ok_token : verify_token tok (tok.without_bearer header) time
          ≡ some (payload_at tok (tok.uuid_text u.user_id) email made) =
        ap (λ t. verify_token tok t time) carried
        ∙ verify-create_token (tok.uuid_text u.user_id) email made time codec
        ∙ rw early refl in
      rw (given, ok_token, id, there) refl

  decode-exp :
      (body : String) (time : ℕ) (p : Payload)
      → decode tok body time ≡ some p
      → time ≤ p.exp * 1000000
  unfolding decode
  decode-exp body time p h = elim (Option-cases (tok.unb64 body)) [
    | inl bad ↦ absurd (ground arith)
    | inr (json, raw) ↦ elim (Option-cases (tok.loads json)) [
      | inl bad ↦ absurd (ground arith)
      | inr (q, read) ↦ ground arith
    ]
  ]

  -- Whatever the text, what is accepted has two parts, the second the signature of the first, and
  -- has not expired.
  pub verify_token_sound :
      (token : String) (time : ℕ) (p : Payload)
      → verify_token tok token time ≡ some p
      → (body : String) × (tok.parts token ≡ body ∷ tok.sign body ∷ []) × (time ≤ p.exp * 1000000)
  unfolding verify_token verify_parts
  verify_token_sound token time p h = go (tok.parts token) h
    where
      go :
          (ws : List String)
          → verify_parts tok ws time ≡ some p
          → (body : String) × (ws ≡ body ∷ tok.sign body ∷ []) × (time ≤ p.exp * 1000000)
      go [] e = absurd (let clash : none ≡ some p = e in cc)
      go (a ∷ []) e = absurd (let clash : none ≡ some p = e in cc)
      go (a ∷ b ∷ []) e = elim (Bool-cases (text_beq b (tok.sign a))) [
        | inl same ↦
            let signed : b ≡ tok.sign a = (eq_iff b (tok.sign a)).0 same in
            (a, ap (λ x. a ∷ x ∷ []) signed, decode-exp a time p (ground arith))
        | inr other ↦ absurd (ground arith)
      ]
      go (a ∷ b ∷ c ∷ d) e = absurd (let clash : none ≡ some p = e in cc)
