-- ===== src/Burn.antt =====
-- app/burn_service.py: the retirement of certificates from a holder's positions, up to the call of
-- `build_burn_certificate_json`. `execute_burn` passes that function the arguments
-- `retirement_events` and `burned_hec_ids`, which it does not have, so Python raises `TypeError`
-- there; what the source says after the call never runs. `share` is the energy of a part of a
-- position (a division of Decimals, rounded), `uuid_text` the text of a UUID.
pub mod Loop
pub mod Laws
use Prim.Native.String.{◌++◌ as text_append}
use hec_mvp.Base.Text.{str}
use hec_mvp.Base.{
  ℕ, ◌+◌, ◌-◌, ◌*◌, ◌/◌, min, String, Bool, not, ◌&&◌, ◌||◌, Option, none, some, List, [], ◌∷◌,
  ◌++◌, text_beq, ltb, ◌==◌, if◌then◌else◌, nat_eq, string_eq, is_empty, truthy, length, take, drop,
  select, find, update, total, order_by,
}
use hec_mvp.Base.Keys.{elem}
use hec_mvp.Base.Result.{Exn, Action, pure, raise, gets, or_raise, raise_if, modify, ◌>>=◌, ◌>>◌}
use hec_mvp.Ledger.{
  HecStatus, PositionStatus, Wallet, HecCertificate, HecLot, InventoryPosition, Db, is_active,
}
use hec_mvp.Chain.{unit_scale, RetirementExecutionResult}
use hec_mvp.Chain.Provider.{retire_inventory_batch_on_chain}
use hec_mvp.World.{World, Host, text_digest, on_db, on_chain}

-- An entry of `pending_events`, without the id that is drawn for it.
pub record PendingEvent : Type 0 where
  pub lot_id : ℕ
  pub batch_token_id : ℕ
  pub amount_hec : ℕ
  pub amount_mhec : ℕ
  pub energy_kwh : ℕ
  pub claimant_wallet : Option String
  pub beneficiary_ref_hash : Option String
  pub external_operation_id : String
  pub protocol_operator : String
  pub onchain_retirement_id : ℕ
  pub receipt_token_id : ℕ
  pub receipt_contract_address : String
  pub retirement_tx_hash : String
  pub retirement_block : ℕ
  pub source_hec_ids : List ℕ
  pub retired_at : ℕ

-- The variables that the loop over the positions changes.
pub record Progress : Type 0 where
  pub remaining : ℕ
  pub total_energy : ℕ
  pub burned_hec_ids : List ℕ
  pub pending_events : List PendingEvent
  pub receipt_token_ids : List ℕ

-- The variables that it reads; `now` is the chain's clock.
pub record Terms : Type 0 where
  pub reason : String
  pub burned_at : ℕ
  pub claimant_wallet : Option String
  pub beneficiary_ref_hash : Option String
  pub external_operation_id : String
  pub now : ℕ

-- `a or b` on texts that may be null.
pub or_else : Option String → Option String → Option String
or_else a b = if truthy a then a else b

-- `reason not in ("offset", "retirement", "voluntary")`
pub is_bad_reason : String → Bool
is_bad_reason r = not (text_beq r "offset" || text_beq r "retirement" || text_beq r "voluntary")

-- `order_by(created_at.asc(), position_id.asc())`
abbrev pub earlier : InventoryPosition → InventoryPosition → Bool
earlier a b =
    ltb a.created_at b.created_at || a.created_at == b.created_at && ltb a.position_id b.position_id

-- The query for the positions to retire from.
pub open_positions : ℕ → Db → List InventoryPosition
open_positions user_id db = order_by earlier (
    select (λ p. p.user_id == user_id && ltb 0 p.available_quantity && is_active p.status)
      db.positions)

-- `position.lot` with its batch token, if it has one.
pub issued_lot : ℕ → Db → Option (HecLot × ℕ)
issued_lot lot_id db = elim (find (λ (l : HecLot). l.lot_id == lot_id) db.lots) [
  | none ↦ none
  | some lot ↦ elim lot.onchain_batch_token_id [
    | none ↦ none
    | some token ↦ if token == 0 then none else some (lot, token)
  ]
]

-- The writes to the position's row.
pub write_off : ℕ → ℕ → InventoryPosition → InventoryPosition
write_off consume_qty consumed_energy p =
    let left : ℕ = p.available_quantity - consume_qty in
    record p {
      available_quantity = left;
      retired_quantity = p.retired_quantity + consume_qty;
      energy_kwh_available = p.energy_kwh_available - consumed_energy;
      source_hec_ids = drop consume_qty p.source_hec_ids;
      status = if left == 0 then PositionStatus.exhausted else p.status;
    }

abbrev pub retire_hec : HecCertificate → HecCertificate
retire_hec h = record h { status = HecStatus.retired }

-- The rows that one round of the loop writes.
pub store_retirement : InventoryPosition → ℕ → ℕ → Db → Db
unfolding write_off
store_retirement p consume_qty consumed_energy db = record db {
  positions =
      update (λ q. q.position_id == p.position_id) (write_off consume_qty consumed_energy)
        db.positions;
  hecs = update (λ h. elem h.hec_id (take consume_qty p.source_hec_ids)) retire_hec db.hecs;
}

pub new_event :
    Terms → InventoryPosition → HecLot → ℕ → ℕ → ℕ → RetirementExecutionResult → PendingEvent
new_event terms p lot token consume_qty consumed_energy result = record {
  lot_id = p.lot_id;
  batch_token_id = token;
  amount_hec = consume_qty;
  amount_mhec = consume_qty * unit_scale;
  energy_kwh = consumed_energy;
  claimant_wallet = terms.claimant_wallet;
  beneficiary_ref_hash = terms.beneficiary_ref_hash;
  external_operation_id = terms.external_operation_id;
  protocol_operator = if is_empty lot.custody_mode then "platform_custody" else lot.custody_mode;
  onchain_retirement_id = result.retirement_id;
  receipt_token_id = result.receipt_token_id;
  receipt_contract_address = result.contract_address;
  retirement_tx_hash = result.tx_hash;
  retirement_block = result.block_number;
  source_hec_ids = take consume_qty p.source_hec_ids;
  retired_at = terms.burned_at;
}

-- The end of a round.
pub advance : InventoryPosition → ℕ → ℕ → PendingEvent → Progress → Progress
advance p consume_qty consumed_energy event pr = record {
  remaining = pr.remaining - consume_qty;
  total_energy = pr.total_energy + consumed_energy;
  burned_hec_ids = pr.burned_hec_ids ++ take consume_qty p.source_hec_ids;
  pending_events = pr.pending_events ++ event ∷ [];
  receipt_token_ids = pr.receipt_token_ids ++ event.receipt_token_id ∷ [];
}

module _ (host : Host) (uuid_text : ℕ → String) (share : ℕ → ℕ → ℕ → ℕ) where
  pub reference : Terms → InventoryPosition → Progress → String
  reference terms p pr = text_append terms.external_operation_id (
      text_append ":"
        (text_append (uuid_text p.lot_id) (text_append ":" (str (length pr.pending_events + 1)))))

  pub energy_of : InventoryPosition → ℕ → ℕ
  energy_of p consume_qty =
      if consume_qty == p.available_quantity
      then p.energy_kwh_available
      else share p.energy_kwh_available p.available_quantity consume_qty

  -- One round of the loop.
  pub retire_from : Terms → InventoryPosition → Progress → Action World Progress
  retire_from terms p pr = do
    let consume_qty = min pr.remaining p.available_quantity
    lot_row ← gets (λ w. issued_lot p.lot_id w.db)
    lot ← or_raise lot_row Exn.no_batch
    raise_if (ltb (length (take consume_qty p.source_hec_ids)) consume_qty) Exn.few_source_ids
    result ← on_chain (
        retire_inventory_batch_on_chain (text_digest host) lot.1 (consume_qty * unit_scale)
          terms.claimant_wallet (reference terms p pr) terms.beneficiary_ref_hash terms.reason
          terms.now)
    on_db (modify (store_retirement p consume_qty (energy_of p consume_qty)))
    let event = new_event terms p lot.0 lot.1 consume_qty (energy_of p consume_qty) result
    pure (advance p consume_qty (energy_of p consume_qty) event pr)

  pub retire_all : Terms → List InventoryPosition → Progress → Action World Progress
  retire_all terms [] pr = pure pr
  retire_all terms (p ∷ ps) pr =
      let rest = retire_all terms ps in
      if pr.remaining == 0
      then pure pr
      else if p.available_quantity == 0
      then rest pr
      else (retire_from terms p pr >>= rest)

  abbrev pub beginning : ℕ → Progress
  beginning quantity = record {
    remaining = quantity;
    total_energy = 0;
    burned_hec_ids = [];
    pending_events = [];
    receipt_token_ids = [];
  }

  -- The external operation id that the caller gives, or one made of the burn's id.
  pub operation_id : Option String → ℕ → String
  operation_id given burn_id = elim (or_else given none) [
    | none ↦ text_append "burn:" (uuid_text burn_id)
    | some x ↦ x
  ]

  pub beneficiary_hash : Option String → Option String
  beneficiary_hash ref = elim (or_else ref none) [
    | none ↦ none
    | some x ↦ some (text_digest host x)
  ]

  pub terms_of : Wallet → String → Option String → Option String → Option String → ℕ → ℕ → ℕ → Terms
  terms_of wallet reason claimant beneficiary_ref external burn_id burned_at now = record {
    reason = reason;
    burned_at = burned_at;
    claimant_wallet = or_else claimant wallet.wallet_address;
    beneficiary_ref_hash = beneficiary_hash beneficiary_ref;
    external_operation_id = operation_id external burn_id;
    now = now;
  }

  -- What follows the loop, up to the call that raises.
  pub certify : Progress → Action World (Unit {0})
  certify pr = do raise_if (not (pr.remaining == 0)) Exn.unconsumed; raise Exn.type_error

  -- `execute_burn`, with the two readings of the clock; there is no value that it returns.
  pub execute_burn :
      ℕ
      → ℕ
      → String
      → Option String
      → Option String
      → Option String
      → ℕ
      → ℕ
      → ℕ
      → Action World (Unit {0})
  execute_burn user_id quantity reason claimant beneficiary_ref external burn_id burned_at now = do
    raise_if (quantity == 0) Exn.bad_quantity
    raise_if (is_bad_reason reason) Exn.bad_reason
    wallet_row ← gets (λ w. find (λ (x : Wallet). x.user_id == user_id) w.db.wallets)
    wallet ← or_raise wallet_row Exn.wallet_not_found
    raise_if (ltb wallet.hec_balance quantity) Exn.low_hec_balance
    positions ← gets (λ w. open_positions user_id w.db)
    raise_if (ltb (total (λ p. p.available_quantity) positions) quantity) Exn.low_inventory
    pr ←
        retire_all (terms_of wallet reason claimant beneficiary_ref external burn_id burned_at now)
          positions (beginning quantity)
    certify pr
