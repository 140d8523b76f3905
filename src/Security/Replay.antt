-- ===== src/Security/Replay.antt =====
-- A nonce that was admitted is not admitted again while its window is open.
use hec_mvp.Base.{
  ℕ, ◌+◌, ◌≤◌, String, ◌≡◌, refl, ◌∙◌, Bool, true, ◌&&◌, List, [], ◌∷◌, arith, text_beq, eq_iff,
  ◌==◌, is_some, nat_eq, string_eq, select, find, All,
}
use hec_mvp.Base.Rows.{find-append_any, find-append_last}
use hec_mvp.Base.Result.{Exn, ok, err, Refuses}
use hec_mvp.Security.{
  UsedNonce, nonce_window, is_recent, check_nonce_replay, register_nonce, cleanup_expired_nonces,
  admit,
}

-- What may happen to the table: a telemetry with its two readings of the clock, or a cleanup.
pub data Event : Type 0 where
  sends : String → ℕ → ℕ → ℕ → Event
  cleans : ℕ → Event

pub step : List UsedNonce → Event → List UsedNonce
step used (sends nonce plant_id checked_at registered_at) =
    (admit nonce plant_id checked_at registered_at used).1
step used (cleans now) = (cleanup_expired_nonces now used).1

pub run : List UsedNonce → List Event → List UsedNonce
run used [] = used
run used (e ∷ es) = run (step used e) es

-- The clock of a cleanup has not passed `t`.
abbrev pub IsBefore : ℕ → Event → Type 0
IsBefore t (sends nonce plant_id checked_at registered_at) = Unit {0}
IsBefore t (cleans now) = now ≤ t

module _ (nonce : String) (plant_id t : ℕ) where
  abbrev seen : UsedNonce → Bool
  seen u = text_beq u.nonce nonce && u.plant_id == plant_id && is_recent t u

  admit-enters :
      (checked_at registered_at : ℕ) (used : List UsedNonce)
      → (admit nonce plant_id checked_at registered_at used).0 ≡ ok tt
      → t ≤ registered_at + nonce_window
      → check_nonce_replay nonce plant_id t (admit nonce plant_id checked_at registered_at used).1
        ≡ true
  unfolding admit register_nonce check_nonce_replay
  admit-enters checked_at registered_at used admitted soon =
      let entry : UsedNonce = record {
        nonce = nonce;
        plant_id = plant_id;
        used_at = registered_at;
      } in
      let entered = find-append_last seen used entry (ground (arith, eq_iff nonce nonce)) in
      ground arith

  -- A cleanup by `t` keeps what the check at `t` looks for.
  find-cleaned :
      (now : ℕ) (used : List UsedNonce)
      → now ≤ t
      → is_some (find seen (select (is_recent now) used)) ≡ is_some (find seen used)
  find-cleaned now [] before = refl
  find-cleaned now (u ∷ used) before = ground (arith, find-cleaned now used before)

  step-seen :
      (used : List UsedNonce) (e : Event)
      → IsBefore t e
      → check_nonce_replay nonce plant_id t used ≡ true
      → check_nonce_replay nonce plant_id t (step used e) ≡ true
  unfolding step check_nonce_replay cleanup_expired_nonces admit register_nonce
  step-seen used (cleans now) before h = find-cleaned now used before ∙ h
  step-seen used (sends n p checked_at registered_at) before h =
      let longer =
        find-append_any seen used (record { nonce = n; plant_id = p; used_at = registered_at } ∷ [])
          h in
      ground arith

  run-seen :
      (used : List UsedNonce) (es : List Event)
      → All (IsBefore t) es
      → check_nonce_replay nonce plant_id t used ≡ true
      → check_nonce_replay nonce plant_id t (run used es) ≡ true
  unfolding run
  run-seen used [] before h = h
  run-seen used (e ∷ es) before h = run-seen (step used e) es before.1 (step-seen used e before.0 h)

-- A cleanup changes no answer of the check at its own time or later.
pub check-cleanup :
    (nonce : String) (plant_id now t : ℕ) (used : List UsedNonce)
    → now ≤ t
    → check_nonce_replay nonce plant_id t (cleanup_expired_nonces now used).1
      ≡ check_nonce_replay nonce plant_id t used
unfolding check_nonce_replay cleanup_expired_nonces
check-cleanup nonce plant_id now t used before = find-cleaned nonce plant_id t now used before

-- After a nonce was admitted for a plant, and after any telemetry of any plants and any cleanups that
-- come no later than a time `t` within 60 seconds of the entry, the same nonce and plant checked at `t`
-- are refused as a replay, and the table is left as it was.
pub admit-once :
    (nonce : String) (plant_id checked_at registered_at t later : ℕ) (used : List UsedNonce)
    (es : List Event)
    → (admit nonce plant_id checked_at registered_at used).0 ≡ ok tt
    → All (IsBefore t) es
    → t ≤ registered_at + nonce_window
    → let now = run (admit nonce plant_id checked_at registered_at used).1 es in
      admit nonce plant_id t later now ≡ (err Exn.replayed, now)
unfolding admit register_nonce
admit-once nonce plant_id checked_at registered_at t later used es admitted before soon = ground (
  arith,
  run-seen nonce plant_id t (admit nonce plant_id checked_at registered_at used).1 es before
      (admit-enters nonce plant_id t checked_at registered_at used admitted soon),
)

-- A nonce that any plant's row holds is never admitted, for no plant and at no time.
pub admit_held :
    (nonce : String) (plant_id checked_at registered_at : ℕ) (used : List UsedNonce)
    → is_some (find (λ (u : UsedNonce). text_beq u.nonce nonce) used) ≡ true
    → Refuses used (admit nonce plant_id checked_at registered_at used)
unfolding admit register_nonce
admit_held nonce plant_id checked_at registered_at used held = ground arith
