-- ===== src/Ledger/Books.antt =====
-- What the rows of the custody ledger say of one another: the books that every service must keep.
use hec_mvp.Base.{
  ℕ, ◌+◌, ◌≡◌, Bool, ◌&&◌, Option, some, List, map, ◌==◌, if◌then◌else◌, nat_eq, string_eq, length,
  find, count_if, total, All,
}
use hec_mvp.Base.Keys.{Distinct}
use hec_mvp.Ledger.{Wallet, HecCertificate, HecLot, InventoryPosition, Db, is_custodied, in_lot}

-- A certificate of a lot that nobody has bought.
abbrev pub in_custody_of : ℕ → HecCertificate → Bool
in_custody_of k h = in_lot k h && is_custodied h.status

-- What a position adds to its holder's certificates.
abbrev pub held_by : ℕ → InventoryPosition → ℕ
held_by u p = if p.user_id == u then p.available_quantity else 0

abbrev pub find_lot : ℕ → List HecLot → Option HecLot
find_lot k = find (λ (l : HecLot). l.lot_id == k)

abbrev pub find_wallet : ℕ → List Wallet → Option Wallet
find_wallet u = find (λ (w : Wallet). w.user_id == u)

-- A position's certificates: those bought are those left and those retired, and the ones left are
-- listed.
pub record IsBalanced (p : InventoryPosition) : Type 0 where
  pub parts : p.available_quantity + p.retired_quantity ≡ p.quantity
  pub listed : length p.source_hec_ids ≡ p.available_quantity

-- The books are balanced: keys are unique, a lot offers as many certificates as it has in custody,
-- a wallet counts what its holder's positions hold, and every position is balanced.
pub record IsBooked (db : Db) : Type 0 where
  pub hec_keys : Distinct (map (λ (h : HecCertificate). h.hec_id) db.hecs)
  pub lot_keys : Distinct (map (λ (l : HecLot). l.lot_id) db.lots)
  pub wallet_keys : Distinct (map (λ (w : Wallet). w.wallet_id) db.wallets)
  pub backed :
      (k : ℕ) (l : HecLot)
      → find_lot k db.lots ≡ some l
      → count_if (in_custody_of k) db.hecs ≡ l.available_quantity
  pub held :
      (u : ℕ) (w : Wallet)
      → find_wallet u db.wallets ≡ some w
      → total (held_by u) db.positions ≡ w.hec_balance
  pub balanced : All IsBalanced db.positions
