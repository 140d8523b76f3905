-- ===== src/Api.antt =====
-- app/api/lots.py, app/api/marketplace.py and app/api/burn.py: the requests that change the ledger. A
-- handler commits what its service wrote, or answers a `ValueError` with a status read off its text;
-- any other exception is a 500. In both cases `get_db` (app/db/session.py) closes the session and
-- the database is as before, while the providers keep what was done to them. The caller's token has
-- been checked; the ids drawn and the readings of the clock are part of a request here.
pub mod Laws
pub mod Tests
use hec_mvp.Base.{
  ℕ, ◌-◌, ◌/◌, String, Bool, true, false, Option, List, [], ◌∷◌, if◌then◌else◌, nat_eq, string_eq,
}
use hec_mvp.Base.Result.{Exn, is_uncaught, ok, err, Action}
use hec_mvp.World.{World, Host, on_db}
use hec_mvp.Market.{buy_from_lot}
use hec_mvp.Lot.{LotManifest, create_lot}
use hec_mvp.Burn.{execute_burn}

-- `'not found' in err`
abbrev pub says_not_found : Exn → Bool
says_not_found Exn.lot_not_found = true
says_not_found Exn.buyer_not_found = true
says_not_found Exn.wallet_not_found = true
says_not_found Exn.hec_not_found = true
says_not_found Exn.batch_not_found = true
says_not_found _ = false

-- `'not open' in err`
abbrev pub says_not_open : Exn → Bool
says_not_open Exn.lot_not_open = true
says_not_open _ = false

-- `'already belongs' in err`
abbrev pub says_already_belongs : Exn → Bool
says_already_belongs Exn.lot_validation_owned = true
says_already_belongs _ = false

-- The status of an answer to an exception, with the handler's own test for a conflict.
pub code_of : (Exn → Bool) → Exn → ℕ
code_of conflicts e =
    if is_uncaught e
    then 500
    else if says_not_found e
    then 404
    else if conflicts e
    then 409
    else 422

-- A handler: 201 and a commit, or the exception's status and a rollback.
abbrev pub answer : {A : Type 0} → (Exn → Bool) → Action World A → World → ℕ × World
answer conflicts m w =
    let (r, v) = m w in
    elim r [ ok a ↦ (201, v) | err e ↦ (code_of conflicts e, record v { db = w.db }) ]

-- The requests that change the ledger.
pub data Request : Type 0 where
  creates : List ℕ → String → Option String → Option ℕ → ℕ → ℕ → Request
  buys : ℕ → ℕ → ℕ → ℕ → ℕ → ℕ → Request
  burns : ℕ → ℕ → String → Option String → Option String → Option String → ℕ → ℕ → ℕ → Request

module _ (host : Host) (dumps : LotManifest → List ℕ) (uuid_text : ℕ → String)
    (share : ℕ → ℕ → ℕ → ℕ) where
  pub create_lot_endpoint : List ℕ → String → Option String → Option ℕ → ℕ → ℕ → World → ℕ × World
  create_lot_endpoint hec_ids name description price_per_kwh lot_id now =
      answer says_already_belongs
        (create_lot host dumps hec_ids name description price_per_kwh lot_id now)

  pub buy_hecs : ℕ → ℕ → ℕ → ℕ → ℕ → ℕ → World → ℕ × World
  buy_hecs user_id lot_id quantity tx_id position_id now =
      answer says_not_open
        (on_db (buy_from_lot host.float_sum user_id lot_id quantity tx_id position_id now))

  pub burn_hecs :
      ℕ → ℕ → String → Option String → Option String → Option String → ℕ → ℕ → ℕ → World → ℕ × World
  burn_hecs user_id quantity reason claimant beneficiary_ref external burn_id burned_at now =
      answer (λ e. false)
        (execute_burn host uuid_text share user_id quantity reason claimant beneficiary_ref external
          burn_id burned_at now)

  pub serve : World → Request → ℕ × World
  serve w (creates hec_ids name description price_per_kwh lot_id now) =
      create_lot_endpoint hec_ids name description price_per_kwh lot_id now w
  serve w (buys user_id lot_id quantity tx_id position_id now) =
      buy_hecs user_id lot_id quantity tx_id position_id now w
  serve w (burns user_id quantity reason claimant beneficiary_ref external burn_id burned_at now) =
      burn_hecs user_id quantity reason claimant beneficiary_ref external burn_id burned_at now w

  pub serve_all : World → List Request → World
  serve_all w [] = w
  serve_all w (r ∷ rs) = serve_all (serve w r).1 rs
