-- ===== src/Market.antt =====
-- app/marketplace.py: a purchase from a custody lot, and the handler of POST /marketplace/buy in
-- app/api/marketplace.py. `float_sum` stands for Python's float sum of the energies, read back as a
-- decimal; the new ids and the clock's reading are arguments. A quantity is a natural number (the
-- request schema asks for one), so `quantity <= 0` is `quantity == 0`.
mod Cases
pub mod Tests
pub mod Laws
pub mod Custody
use hec_mvp.Base.{
  ℕ, ◌+◌, ◌-◌, ◌*◌, ◌/◌, ◌<◌, String, Bool, not, ◌&&◌, ◌||◌, Option, none, some, List, [], ◌∷◌,
  ◌++◌, map, ltb, ◌==◌, if◌then◌else◌, nat_eq, string_eq, length, take, select, find, update,
  order_by, All,
}
use hec_mvp.Base.Keys.{elem}
use hec_mvp.Base.Result.{Exn, ok, Action, gets, or_raise, raise_if, ◌>>=◌, ◌>>◌}
use hec_mvp.Ledger.{
  HecStatus, LotStatus, PositionStatus, User, Wallet, HecCertificate, HecLot, Transaction,
  InventoryPosition, Db, is_custodied, is_opened, is_issued, nonzero, in_lot,
}

pub record BuyResult : Type 0 where
  pub tx_id : ℕ
  pub buyer_id : ℕ
  pub lot_id : ℕ
  pub quantity : ℕ
  pub energy_kwh : ℕ
  pub unit_price_brl : ℕ
  pub total_price_brl : ℕ
  pub wallet_balance_after : ℕ
  pub wallet_hec_after : ℕ
  pub wallet_energy_after : ℕ
  pub lot_available_after : ℕ
  pub lot_status_after : LotStatus
  pub status : String

-- `(unit_price * total_energy).quantize(Decimal("0.01"), ROUND_HALF_UP)`: the product counts in
-- 10^-8 reais, the price in 10^-2.
pub price_of : ℕ → ℕ → ℕ
price_of unit_price total_energy = (unit_price * total_energy + 500000) / 1000000

-- `order_by(created_at.asc())`
abbrev pub older : HecCertificate → HecCertificate → Bool
older a b = ltb a.created_at b.created_at

-- The query for the lot's custodied certificates, oldest first, at most `quantity` of them.
pub available_hecs : ℕ → ℕ → Db → List HecCertificate
available_hecs lot_id quantity db =
    take quantity (order_by older (select (λ h. in_lot lot_id h && is_custodied h.status) db.hecs))

abbrev pub ids : List HecCertificate → List ℕ
ids = map (λ h. h.hec_id)

-- The writes to the wallet's row.
pub charge : ℕ → ℕ → ℕ → Wallet → Wallet
charge total_price quantity total_energy w = record w {
  balance_brl = w.balance_brl - total_price;
  hec_balance = w.hec_balance + quantity;
  energy_balance_kwh = w.energy_balance_kwh + total_energy;
}

-- The writes to the lot's row.
pub deplete : ℕ → HecLot → HecLot
deplete quantity lot =
    let left : ℕ = lot.available_quantity - quantity in
    record lot {
      available_quantity = left;
      status = if left == 0 then LotStatus.closed else lot.status;
    }

abbrev pub allocate : HecCertificate → HecCertificate
allocate h = record h { status = HecStatus.allocated }

-- The new row of `transactions`.
pub new_transaction : ℕ → ℕ → ℕ → ℕ → ℕ → ℕ → List HecCertificate → Transaction
new_transaction tx_id buyer_id lot_id quantity total_energy unit_price hecs = record {
  tx_id = tx_id;
  buyer_id = buyer_id;
  lot_id = lot_id;
  quantity = quantity;
  energy_kwh = total_energy;
  unit_price_brl = unit_price;
  total_price_brl = price_of unit_price total_energy;
  source_hec_ids = ids hecs;
  status = "completed";
}

-- The new row of `inventory_positions`.
pub new_position : ℕ → Wallet → ℕ → ℕ → ℕ → ℕ → ℕ → List HecCertificate → ℕ → InventoryPosition
new_position position_id wallet buyer_id lot_id tx_id quantity total_energy hecs now = record {
  position_id = position_id;
  wallet_id = wallet.wallet_id;
  user_id = buyer_id;
  lot_id = lot_id;
  transaction_id = some tx_id;
  quantity = quantity;
  available_quantity = quantity;
  retired_quantity = 0;
  energy_kwh_total = total_energy;
  energy_kwh_available = total_energy;
  source_hec_ids = ids hecs;
  status = PositionStatus.active;
  created_at = now;
}

-- The result, read from the rows after the writes.
pub receipt : ℕ → ℕ → ℕ → HecLot → Wallet → ℕ → ℕ → BuyResult
receipt buyer_id quantity tx_id lot' wallet' total_energy unit_price = record {
  tx_id = tx_id;
  buyer_id = buyer_id;
  lot_id = lot'.lot_id;
  quantity = quantity;
  energy_kwh = total_energy;
  unit_price_brl = unit_price;
  total_price_brl = price_of unit_price total_energy;
  wallet_balance_after = wallet'.balance_brl;
  wallet_hec_after = wallet'.hec_balance;
  wallet_energy_after = wallet'.energy_balance_kwh;
  lot_available_after = lot'.available_quantity;
  lot_status_after = lot'.status;
  status = "completed";
}

-- All that `buy_from_lot` writes, once its guards have passed.
pub settle : ℕ → ℕ → ℕ → ℕ → ℕ → HecLot → Wallet → List HecCertificate → ℕ → ℕ → Action Db BuyResult
settle buyer_id quantity tx_id position_id now lot wallet hecs total_energy unit_price db =
    let paid = charge (price_of unit_price total_energy) quantity total_energy in
    (
      ok (
          receipt buyer_id quantity tx_id (deplete quantity lot) (paid wallet) total_energy
            unit_price),
      record db {
        wallets = update (λ w. w.wallet_id == wallet.wallet_id) paid db.wallets;
        lots = update (λ l. l.lot_id == lot.lot_id) (deplete quantity) db.lots;
        hecs = update (λ h. elem h.hec_id (ids hecs)) allocate db.hecs;
        transactions =
            db.transactions
            ++ new_transaction tx_id buyer_id lot.lot_id quantity total_energy unit_price hecs ∷ [];
        positions =
            db.positions
            ++ new_position position_id wallet buyer_id lot.lot_id tx_id quantity total_energy hecs
                now
              ∷ [];
      },
    )

abbrev pub positive_price : Option ℕ → Option ℕ
positive_price none = none
positive_price (some p) = if p == 0 then none else some p

module _ (float_sum : List ℕ → ℕ) where
  pub buy_from_lot : ℕ → ℕ → ℕ → ℕ → ℕ → ℕ → Action Db BuyResult
  buy_from_lot buyer_id lot_id quantity tx_id position_id now = do
    raise_if (quantity == 0) Exn.bad_quantity
    lot_row ← gets (λ db. find (λ l. l.lot_id == lot_id) db.lots)
    lot ← or_raise lot_row Exn.lot_not_found
    raise_if (not (is_opened lot.status)) Exn.lot_not_open
    raise_if (not (is_issued lot.inventory_status) || not (nonzero lot.onchain_batch_token_id))
        Exn.not_issued
    unit_price ← or_raise (positive_price lot.price_per_kwh) Exn.no_price
    raise_if (ltb lot.available_quantity quantity) Exn.exceeds_available
    buyer_row ← gets (λ db. find (λ (u : User). u.user_id == buyer_id) db.users)
    buyer ← or_raise buyer_row Exn.buyer_not_found
    raise_if (not buyer.is_active) Exn.buyer_disabled
    wallet_row ← gets (λ db. find (λ (w : Wallet). w.user_id == buyer_id) db.wallets)
    wallet ← or_raise wallet_row Exn.wallet_not_found
    hecs ← gets (available_hecs lot_id quantity)
    raise_if (ltb (length hecs) quantity) Exn.too_few_custodied
    let total_energy = float_sum (map (λ h. h.energy_kwh) hecs)
    raise_if (ltb wallet.balance_brl (price_of unit_price total_energy)) Exn.low_balance
    settle buyer_id quantity tx_id position_id now lot wallet hecs total_energy unit_price
