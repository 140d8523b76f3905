-- ===== src/Security/Tests.antt =====
-- Nonces at concrete times.
use hec_mvp.Base.{◌≡◌, refl, List, [], ◌∷◌, nat_eq, string_eq}
use hec_mvp.Base.Result.{Exn, ok, err}
use hec_mvp.Security.{UsedNonce, check_nonce_replay, register_nonce, admit}
use hec_mvp.Security.Replay.{Event, sends, cleans}

-- Plant 1 sent the nonce "n1" at the 100th second.
abbrev table : List UsedNonce
table = record { nonce = "n1"; plant_id = 1; used_at = 100000000 } ∷ []

-- The window is over; the row is still there, and the entry fails.
expired-fails : (admit "n1" 1 160000001 160000002 table).0 ≡ err Exn.integrity_error
unfolding admit register_nonce check_nonce_replay
expired-fails = refl

first-admitted : (admit "n1" 1 100000000 100000000 []).0 ≡ ok tt
unfolding admit register_nonce check_nonce_replay
first-admitted = refl

abbrev events : List Event
events = sends "n2" 1 110000000 110000000 ∷ cleans 120000000 ∷ []
