-- ===== src/Security/Drift.antt =====
-- app/security.py: the check of a payload's timestamp against the server's clock. The drift counts
-- microseconds, exactly; the source has it in milliseconds.
use hec_mvp.Base.{
  ℕ, ◌+◌, ◌≤◌, String, ◌≡◌, arith, refl, subst, ◌↔◌, ◌⊎◌, inl, inr, Option-cases, Bool, true,
  Option, none, some, leb, nat_eq, string_eq,
}
use hec_mvp.Base.Int.{ℤ, sub_ℕ, abs, abs-sub_ℕ}
use hec_mvp.Base.Result.{Exn, Result, ok, err}
use hec_mvp.Instant.{Zone, naive, east, west, Datetime, or_utc_zone, shifted, aware, instant}

-- `text.replace("Z", "+00:00")`, and `datetime.fromisoformat`, with nothing where it raises.
pub record Iso : Type 0 where
  pub replace_z : String → String
  pub fromisoformat : String → Option Datetime

abbrev pub ntp_max_drift : ℕ
ntp_max_drift = 5000

unfoldable pub compute_ntp_drift_ms : Iso → String → Datetime → Result ℤ
compute_ntp_drift_ms iso text server_now = elim (iso.fromisoformat (iso.replace_z text)) [
  | none ↦ err Exn.no_timestamp
  | some dt ↦ ok (sub_ℕ (instant (aware dt)) (instant (aware server_now)))
]

-- With the bound that is the default, which all callers take. The source compares floats, in which a
-- drift of whole microseconds passes the bound of 5.0 ms exactly if it is at most 5000.
unfoldable pub check_ntp_drift : Iso → String → Datetime → Result (Bool × ℤ)
unfolding compute_ntp_drift_ms
check_ntp_drift iso text server_now = elim (compute_ntp_drift_ms iso text server_now) [
  | err e ↦ err e
  | ok drift ↦ ok (leb (abs drift) ntp_max_drift, drift)
]

-- The result for a text that is read as the time `dt`.
abbrev pub verdict_at : Datetime → Datetime → Bool × ℤ
verdict_at dt server_now =
    let drift = sub_ℕ (instant (aware dt)) (instant (aware server_now)) in
    (leb (abs drift) ntp_max_drift, drift)

-- The zone that a text without one is given changes no moment.
shifted-or_utc_zone : (wall : ℕ) (z : Zone) → shifted wall (or_utc_zone z) ≡ shifted wall z
shifted-or_utc_zone wall naive = omega arith
shifted-or_utc_zone wall (east k) = refl
shifted-or_utc_zone wall (west k) = refl

-- The two moments, neither later than the other by more than the bound.
abbrev pub AreClose : ℕ → ℕ → ℕ → Type 0
AreClose bound a b = (a ≤ b + bound) × (b ≤ a + bound)

-- A text that is no timestamp raises; any other passes exactly when neither the payload's moment nor the
-- server's is later than the other by more than 5 ms, whatever the zones they are written in.
pub check_ntp_drift_iff :
    (iso : Iso) (text : String) (server_now : Datetime)
    → (iso.fromisoformat (iso.replace_z text) ≡ none)
        × (check_ntp_drift iso text server_now ≡ err Exn.no_timestamp)
      ⊎ ((dt : Datetime) × (passed : Bool) × (drift : ℤ) × (iso.fromisoformat (iso.replace_z text)
            ≡ some dt)
          × (check_ntp_drift iso text server_now ≡ ok (passed, drift))
          × ((passed ≡ true) ↔ AreClose ntp_max_drift (instant dt) (instant server_now)))
unfolding check_ntp_drift
check_ntp_drift_iff iso text server_now =
    elim (Option-cases (iso.fromisoformat (iso.replace_z text))) [
      | inl bad ↦ inl (bad, rw (check_ntp_drift, compute_ntp_drift_ms, bad) refl)
      | inr (dt, read) ↦
          let v = verdict_at dt server_now in
          inr (
            dt,
            v.0,
            v.1,
            read,
            rw (check_ntp_drift, compute_ntp_drift_ms, read) refl,
            subst (λ a. (v.0 ≡ true) ↔ AreClose ntp_max_drift a (instant server_now))
                (shifted-or_utc_zone dt.wall dt.zone)
                (subst (λ b. (v.0 ≡ true) ↔ AreClose ntp_max_drift (instant (aware dt)) b)
                  (shifted-or_utc_zone server_now.wall server_now.zone)
                  (abs-sub_ℕ (instant (aware dt)) (instant (aware server_now)) ntp_max_drift)),
          )
    ]
