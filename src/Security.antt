-- ===== src/Security.antt =====
-- app/security.py: nonces against the replay of telemetry, as app/api/telemetry.py calls them. Clock
-- readings count microseconds and are arguments; a nonce is a text, a plant a number. Signature
-- is the check of the payload's signature, Drift that of its clock.
pub mod Replay
pub mod Drift
pub mod Signature
pub mod Tests
use hec_mvp.Base.{
  ℕ, ◌+◌, ◌-◌, ◌/◌, String, Bool, ◌&&◌, List, [], ◌∷◌, ◌++◌, text_beq, leb, ◌==◌, is_some, nat_eq,
  string_eq, length, select, find,
}
use hec_mvp.Base.Result.{Exn, Action, gets, raise_if, modify, ◌>>=◌, ◌>>◌}

pub record UsedNonce : Type 0 where
  pub nonce : String
  pub plant_id : ℕ
  pub used_at : ℕ

-- 60 seconds.
abbrev pub nonce_window : ℕ
nonce_window = 60000000

-- `used_at >= now - window`
abbrev pub is_recent : ℕ → UsedNonce → Bool
is_recent now u = leb now (u.used_at + nonce_window)

unfoldable pub check_nonce_replay : String → ℕ → ℕ → List UsedNonce → Bool
check_nonce_replay nonce plant_id now used = is_some (
    find (λ (u : UsedNonce). text_beq u.nonce nonce && u.plant_id == plant_id && is_recent now u)
      used)

-- The nonce is the table's primary key, so that the flush fails on one that is there.
unfoldable pub register_nonce : String → ℕ → ℕ → Action (List UsedNonce) (Unit {0})
register_nonce nonce plant_id now = do
  present ← gets (λ used. is_some (find (λ (u : UsedNonce). text_beq u.nonce nonce) used))
  raise_if present Exn.integrity_error
  modify (λ used. used ++ record { nonce = nonce; plant_id = plant_id; used_at = now } ∷ [])

-- The rows that are left; the source returns the number of those removed.
pub cleanup_expired_nonces : ℕ → List UsedNonce → ℕ × List UsedNonce
cleanup_expired_nonces now used =
    let kept = select (is_recent now) used in (length used - length kept, kept)

-- What the telemetry endpoint does to the nonces: the check, and the entry at the end.
unfoldable pub admit : String → ℕ → ℕ → ℕ → Action (List UsedNonce) (Unit {0})
admit nonce plant_id checked_at registered_at = do
  seen ← gets (check_nonce_replay nonce plant_id checked_at)
  raise_if seen Exn.replayed
  register_nonce nonce plant_id registered_at
