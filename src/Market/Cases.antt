-- ===== src/Market/Cases.antt =====
-- A purchase either raises and writes nothing, or all guards of `buy_from_lot` hold and it makes its
-- writes.
use hec_mvp.Base.{
  ℕ, ◌≤◌, ◌<◌, ◌≡◌, ◌⊎◌, inl, inr, true, some, List, map, arith, ◌==◌, Option-cases, nat_eq,
  string_eq, length, find,
}
use hec_mvp.Base.Result.{Result, Refuses}
use hec_mvp.Ledger.{nonzero, User, Wallet, HecLot, Db, is_opened, is_issued}
use hec_mvp.Market.{BuyResult, price_of, available_hecs, settle, buy_from_lot, positive_price}

-- The energy that a purchase of `quantity` certificates from the lot is charged for.
abbrev pub energy_of : (List ℕ → ℕ) → ℕ → ℕ → Db → ℕ
energy_of float_sum lot_id quantity db =
    float_sum (map (λ h. h.energy_kwh) (available_hecs lot_id quantity db))

-- The guards of `buy_from_lot`, for the rows that it has read.
pub record IsBuyable (float_sum : List ℕ → ℕ) (db : Db) (buyer_id lot_id quantity : ℕ)
    (lot : HecLot) (buyer : User) (wallet : Wallet) (unit_price : ℕ) : Type 0 where
  pub some_quantity : 0 < quantity
  pub lot_read : find (λ (l : HecLot). l.lot_id == lot_id) db.lots ≡ some lot
  pub on_sale : is_opened lot.status ≡ true
  pub in_custody : is_issued lot.inventory_status ≡ true
  pub batched : nonzero lot.onchain_batch_token_id ≡ true
  pub priced : positive_price lot.price_per_kwh ≡ some unit_price
  pub offered : quantity ≤ lot.available_quantity
  pub buyer_read : find (λ (u : User). u.user_id == buyer_id) db.users ≡ some buyer
  pub enabled : buyer.is_active ≡ true
  pub wallet_read : find (λ (w : Wallet). w.user_id == buyer_id) db.wallets ≡ some wallet
  pub backed : quantity ≤ length (available_hecs lot_id quantity db)
  pub funded : price_of unit_price (energy_of float_sum lot_id quantity db) ≤ wallet.balance_brl

module _ (float_sum : List ℕ → ℕ) (buyer_id lot_id quantity tx_id position_id now : ℕ)
    (db : Db) where
  abbrev purchase : Result BuyResult × Db
  purchase = buy_from_lot float_sum buyer_id lot_id quantity tx_id position_id now db

  -- The guards hold for the rows read, and the purchase makes its writes to those.
  abbrev pub Settles : HecLot → User → Wallet → ℕ → Type 0
  Settles lot buyer wallet unit_price =
      IsBuyable float_sum db buyer_id lot_id quantity lot buyer wallet unit_price
      × (buy_from_lot float_sum buyer_id lot_id quantity tx_id position_id now db
          ≡ settle buyer_id quantity tx_id position_id now lot wallet
              (available_hecs lot_id quantity db) (energy_of float_sum lot_id quantity db)
              unit_price db)

  buy_with_rows :
      (lot : HecLot) (buyer : User) (wallet : Wallet) (unit_price : ℕ)
      → find (λ (l : HecLot). l.lot_id == lot_id) db.lots ≡ some lot
      → positive_price lot.price_per_kwh ≡ some unit_price
      → find (λ (u : User). u.user_id == buyer_id) db.users ≡ some buyer
      → find (λ (w : Wallet). w.user_id == buyer_id) db.wallets ≡ some wallet
      → Refuses db purchase ⊎ Settles lot buyer wallet unit_price
  unfolding buy_from_lot
  buy_with_rows lot buyer wallet unit_price l p b w = ground arith

  pub buy_cases :
      Refuses db purchase
      ⊎ ((lot : HecLot) × (buyer : User) × (wallet : Wallet) × (unit_price : ℕ) × Settles lot buyer
            wallet unit_price)
  unfolding buy_from_lot
  buy_cases = elim (Option-cases (find (λ (l : HecLot). l.lot_id == lot_id) db.lots)) [
    | inl l ↦ inl (ground arith)
    | inr (lot, l) ↦ elim (Option-cases (positive_price lot.price_per_kwh)) [
      | inl p ↦ inl (ground arith)
      | inr (unit_price, p) ↦
          elim (Option-cases (find (λ (u : User). u.user_id == buyer_id) db.users)) [
            | inl b ↦ inl (ground arith)
            | inr (buyer, b) ↦
                elim (Option-cases (find (λ (w : Wallet). w.user_id == buyer_id) db.wallets)) [
                  | inl w ↦ inl (ground arith)
                  | inr (wallet, w) ↦ elim (buy_with_rows lot buyer wallet unit_price l p b w) [
                    | inl refused ↦ inl refused
                    | inr settled ↦ inr (lot, buyer, wallet, unit_price, settled)
                  ]
                ]
          ]
    ]
  ]
