-- ===== src/Market/Custody.antt =====
-- A purchase keeps the custody books balanced.
use hec_mvp.Base.{
  ℕ, ◌+◌, ◌≤◌, ◌≡◌, refl, sym, ◌∙◌, subst, ◌≢◌, inl, inr, some, List, [], ◌∷◌, arith, ◌==◌,
  Option-cases, nat_eq, string_eq, length, length-map, All-append, ℕ_discrete, length-take, select,
  update, count_if, total, total-append, order_by,
}
use hec_mvp.Base.Keys.{
  elem, Distinct, find_sound, find-update, find_same_key, count_if-update, keys-update,
  count_if-picked, count_if-not_picked,
}
use hec_mvp.Base.Result.{Refuses-keeps}
use hec_mvp.Ledger.{User, Wallet, HecCertificate, HecLot, InventoryPosition, Db}
use hec_mvp.Market.{
  price_of, available_hecs, older, ids, allocate, charge, deplete, new_position, settle,
  buy_from_lot,
}
use hec_mvp.Market.Cases.{energy_of, IsBuyable, buy_cases}
use hec_mvp.Ledger.Books.{in_custody_of, held_by, find_lot, find_wallet, IsBalanced, IsBooked}

pub length-available_hecs :
    (l q : ℕ) (db : Db) → q ≤ length (available_hecs l q db) → length (available_hecs l q db) ≡ q
unfolding available_hecs
length-available_hecs l q db h =
    omega (arith, length-take q (order_by older (select (in_custody_of l) db.hecs)))

-- The certificates after a purchase of `q` from the lot `l`.
abbrev hecs_after : ℕ → ℕ → Db → List HecCertificate
hecs_after l q db = update (λ h. elem h.hec_id (ids (available_hecs l q db))) allocate db.hecs

module _ (l q : ℕ) (db : Db) (h : Distinct (ids db.hecs)) where
  -- The lot's custody loses the certificates bought.
  custody_of_lot :
      count_if (in_custody_of l) (hecs_after l q db) + length (available_hecs l q db)
      ≡ count_if (in_custody_of l) db.hecs
  unfolding available_hecs
  custody_of_lot = omega (
    arith,
    count_if-picked (λ (x : HecCertificate). x.hec_id) older (in_custody_of l) q db.hecs h,
    count_if-update (in_custody_of l)
        (λ (x : HecCertificate). elem x.hec_id (ids (available_hecs l q db))) allocate db.hecs
        (λ x. ground arith),
  )

  -- No other lot's custody changes.
  custody_of_others :
      (k : ℕ)
      → k ≢ l
      → count_if (in_custody_of k) (hecs_after l q db) ≡ count_if (in_custody_of k) db.hecs
  unfolding available_hecs
  custody_of_others k other = omega (
    arith,
    count_if-not_picked (λ (x : HecCertificate). x.hec_id) older (in_custody_of l) q db.hecs h
        (in_custody_of k) (λ x e. ground arith),
    count_if-update (in_custody_of k)
        (λ (x : HecCertificate). elem x.hec_id (ids (available_hecs l q db))) allocate db.hecs
        (λ x. ground arith),
  )

module _ (float_sum : List ℕ → ℕ) (buyer_id lot_id quantity tx_id position_id now : ℕ) (db : Db)
    (lot : HecLot) (buyer : User) (wallet : Wallet) (unit_price : ℕ)
    (b : IsBuyable float_sum db buyer_id lot_id quantity lot buyer wallet unit_price)
    (books : IsBooked db) where
  abbrev after : Db
  after =
      (settle buyer_id quantity tx_id position_id now lot wallet (available_hecs lot_id quantity db)
        (energy_of float_sum lot_id quantity db) unit_price db).1

  after-backed_lot :
      (l : HecLot)
      → find_lot lot_id after.lots ≡ some l
      → count_if (in_custody_of lot_id) after.hecs ≡ l.available_quantity
  unfolding settle deplete
  after-backed_lot l e =
      let found =
        find-update (λ (x : HecLot). x.lot_id == lot_id) (λ x. x.lot_id == lot.lot_id)
          (deplete quantity) db.lots (λ x. refl) in
      ground (
        arith,
        found,
        b.lot_read,
        b.offered,
        find_sound (λ (x : HecLot). x.lot_id == lot_id) db.lots b.lot_read,
        books.backed lot_id lot b.lot_read,
        custody_of_lot lot_id quantity db books.hec_keys,
        length-available_hecs lot_id quantity db b.backed,
      )

  after-backed_other :
      (k : ℕ) (l : HecLot)
      → k ≢ lot_id
      → find_lot k after.lots ≡ some l
      → count_if (in_custody_of k) after.hecs ≡ l.available_quantity
  unfolding settle deplete
  after-backed_other k l other e =
      let found =
        find-update (λ (x : HecLot). x.lot_id == k) (λ x. x.lot_id == lot.lot_id) (deplete quantity)
          db.lots (λ x. refl) in
      elim (Option-cases (find_lot k db.lots)) [
        | inl none_there ↦ ground arith
        | inr (l0, there) ↦ ground (
          arith,
          find_sound (λ (x : HecLot). x.lot_id == lot_id) db.lots b.lot_read,
          find_sound (λ (x : HecLot). x.lot_id == k) db.lots there,
          books.backed k l0 there,
          custody_of_others lot_id quantity db books.hec_keys k other,
        )
      ]

  abbrev paid : Wallet → Wallet
  paid =
      charge (price_of unit_price (energy_of float_sum lot_id quantity db)) quantity
        (energy_of float_sum lot_id quantity db)

  abbrev bought : InventoryPosition
  bought =
      new_position position_id wallet buyer_id lot.lot_id tx_id quantity
        (energy_of float_sum lot_id quantity db) (available_hecs lot_id quantity db) now

  after-held_buyer :
      (w : Wallet)
      → find_wallet buyer_id after.wallets ≡ some w
      → total (held_by buyer_id) after.positions ≡ w.hec_balance
  unfolding settle charge new_position
  after-held_buyer w e =
      let found =
        find-update (λ (x : Wallet). x.user_id == buyer_id) (λ x. x.wallet_id == wallet.wallet_id)
          paid db.wallets (λ x. refl) in
      ground (
        arith,
        found,
        b.wallet_read,
        books.held buyer_id wallet b.wallet_read,
        total-append (held_by buyer_id) db.positions (bought ∷ []),
      )

  after-held_other :
      (u : ℕ) (w : Wallet)
      → u ≢ buyer_id
      → find_wallet u after.wallets ≡ some w
      → total (held_by u) after.positions ≡ w.hec_balance
  unfolding settle charge new_position
  after-held_other u w other e =
      let found =
        find-update (λ (x : Wallet). x.user_id == u) (λ x. x.wallet_id == wallet.wallet_id) paid
          db.wallets (λ x. refl) in
      elim (Option-cases (find_wallet u db.wallets)) [
        | inl none_there ↦ ground arith
        | inr (w0, there) ↦ ground (
          arith,
          find_sound (λ (x : Wallet). x.user_id == u) db.wallets there,
          find_sound (λ (x : Wallet). x.user_id == buyer_id) db.wallets b.wallet_read,
          find_same_key (λ (x : Wallet). x.wallet_id) (λ x. x.user_id == u)
              (λ x. x.user_id == buyer_id) db.wallets books.wallet_keys there b.wallet_read,
          books.held u w0 there,
          total-append (held_by u) db.positions (bought ∷ []),
        )
      ]

  bought-IsBalanced : IsBalanced bought
  unfolding new_position
  bought-IsBalanced = record {
    parts = omega arith;
    listed =
        length-map (λ (h : HecCertificate). h.hec_id) (available_hecs lot_id quantity db)
        ∙ length-available_hecs lot_id quantity db b.backed;
  }

  after-IsBooked : IsBooked after
  unfolding settle charge deplete
  after-IsBooked = record {
    hec_keys =
        subst Distinct
          (sym (keys-update (λ (h : HecCertificate). h.hec_id) _ allocate db.hecs (λ x. refl)))
          books.hec_keys;
    lot_keys =
        subst Distinct
          (sym (keys-update (λ (l : HecLot). l.lot_id) _ (deplete quantity) db.lots (λ x. refl)))
          books.lot_keys;
    wallet_keys =
        subst Distinct
          (sym (keys-update (λ (w : Wallet). w.wallet_id) _ paid db.wallets (λ x. refl)))
          books.wallet_keys;
    backed = λ k l e. elim (ℕ_discrete k lot_id) [
      | yes same ↦
          subst
            (λ j.
              (find_lot j after.lots ≡ some l)
              → count_if (in_custody_of j) after.hecs ≡ l.available_quantity)
            (sym same) (after-backed_lot l) e
      | no other ↦ after-backed_other k l other e
    ];
    held = λ u w e. elim (ℕ_discrete u buyer_id) [
      | yes same ↦
          subst
            (λ j.
              (find_wallet j after.wallets ≡ some w)
              → total (held_by j) after.positions ≡ w.hec_balance)
            (sym same) (after-held_buyer w) e
      | no other ↦ after-held_other u w other e
    ];
    balanced =
        All-append IsBalanced db.positions (bought ∷ []) books.balanced (bought-IsBalanced, tt);
  }

-- A purchase keeps the books balanced, whether it succeeds or is refused.
pub buy-IsBooked :
    (float_sum : List ℕ → ℕ) (buyer_id lot_id quantity tx_id position_id now : ℕ) (db : Db)
    → IsBooked db
    → IsBooked (buy_from_lot float_sum buyer_id lot_id quantity tx_id position_id now db).1
buy-IsBooked float_sum buyer_id lot_id quantity tx_id position_id now db books =
    elim (buy_cases float_sum buyer_id lot_id quantity tx_id position_id now db) [
      | inl refused ↦ Refuses-keeps IsBooked db _ refused books
      | inr (lot, buyer, wallet, unit_price, (b, e)) ↦
          subst (λ o. IsBooked o.1) (sym e)
            (after-IsBooked float_sum buyer_id lot_id quantity tx_id position_id now db lot buyer
              wallet unit_price b books)
    ]
