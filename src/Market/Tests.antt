-- ===== src/Market/Tests.antt =====
-- Purchases from a small ledger.
use hec_mvp.Base.{arith, ℕ, ◌≡◌, refl, ◌≢◌, ◌⊎◌, List, [], ◌∷◌, map, nat_eq, string_eq, total}
use hec_mvp.Base.Result.{Exn, Result, err, Refuses}
use hec_mvp.Ledger.{Db}
use hec_mvp.Ledger.Samples.{stock, buyer, purse, shop, shop-IsBooked}
use hec_mvp.Market.{BuyResult, buy_from_lot, settle, new_position, price_of, available_hecs, charge}
use hec_mvp.Market.Cases.{IsBuyable}
use hec_mvp.Market.Laws.{Moves, buy-Moves, buy_never_short, Delivers, buy-Delivers}

abbrev sum : List ℕ → ℕ
sum = total (λ e. e)

-- One certificate of 15 kWh at 0.50 a kWh.
abbrev bought_one : Result BuyResult × Db
bought_one = buy_from_lot sum 1 7 1 900 901 500 shop

bought_one-balance : map (λ w. w.balance_brl) bought_one.1.wallets ≡ 999250 ∷ []
unfolding buy_from_lot settle price_of charge available_hecs
bought_one-balance = refl

-- The older certificate goes first.
bought_one-ids : map (λ p. p.source_hec_ids) bought_one.1.positions ≡ (102 ∷ []) ∷ []
unfolding buy_from_lot settle available_hecs new_position price_of
bought_one-ids = refl

buy-Moves_example : Refuses shop bought_one ⊎ Moves shop 1 7 1 bought_one
buy-Moves_example = buy-Moves sum 1 7 1 900 901 500 shop

buy_never_short_example : bought_one.0 ≢ err Exn.too_few_custodied
buy_never_short_example = buy_never_short sum 1 7 1 900 901 500 shop shop-IsBooked

buy-Delivers_example :
    Refuses shop bought_one ⊎ Delivers sum 1 7 1 900 901 500 shop bought_one.1 102
buy-Delivers_example = buy-Delivers sum 1 7 1 900 901 500 shop 102 (refl, (refl, (refl, tt)))

shop-IsBuyable : IsBuyable sum shop 1 7 1 stock buyer purse 5000
unfolding available_hecs price_of
shop-IsBuyable = record {
  some_quantity = ground arith;
  lot_read = refl;
  on_sale = refl;
  in_custody = refl;
  batched = refl;
  priced = refl;
  offered = ground arith;
  buyer_read = refl;
  enabled = refl;
  wallet_read = refl;
  backed = ground arith;
  funded = ground arith;
}
