-- ===== src/Security/Signature.antt =====
-- app/security.py: the canonical text of a payload and the check of its signature. The cryptography, the
-- JSON and the text of a float are third-party code.
use hec_mvp.Base.{ℕ, String, Bool, false, Option, none, some, List, [], ◌∷◌, nat_eq, string_eq}
use hec_mvp.World.{Host, text_digest}

-- A public key that was read, on an elliptic curve or not.
pub data LoadedKey : Type 0 where
  elliptic : String → LoadedKey
  other_key : LoadedKey

-- `load_pem_public_key` of a text's bytes and `bytes.fromhex`, with nothing where they raise; whether
-- `verify` of a key, a signature and a message, with ECDSA and SHA-256, returns; `json.dumps` of a dict of
-- texts, with sorted keys and no spaces; `str` of a float, given in 10^-4.
pub record Crypto : Type 0 where
  pub load_pem_public_key : List ℕ → Option LoadedKey
  pub from_hex : String → Option (List ℕ)
  pub verify : String → List ℕ → List ℕ → Bool
  pub dumps : List (String × String) → String
  pub float_text : ℕ → String

module _ (host : Host) (crypto : Crypto) where
  unfoldable pub canonical_payload : String → String → ℕ → ℕ → String → String
  canonical_payload plant_id timestamp power_kw energy_kwh nonce = crypto.dumps (
      ("energy_kwh", crypto.float_text energy_kwh)
      ∷ ("nonce", nonce)
      ∷ ("plant_id", plant_id)
      ∷ ("power_kw", crypto.float_text power_kw)
      ∷ ("timestamp", timestamp)
      ∷ [])

  unfoldable pub sha256_hash : String → String
  sha256_hash text = text_digest host text

  unfoldable pub verify_with : LoadedKey → String → String → Bool
  verify_with other_key signature message = false
  verify_with (elliptic key) signature message = elim (crypto.from_hex signature) [
    | none ↦ false
    | some bytes ↦ crypto.verify key bytes (host.utf8 message)
  ]

  unfoldable pub verify_ecdsa_signature : String → String → String → Bool
  unfolding verify_with
  verify_ecdsa_signature pem signature message = elim (crypto.load_pem_public_key (host.utf8 pem)) [
    | none ↦ false
    | some key ↦ verify_with key signature message
  ]
