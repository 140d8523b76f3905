-- ===== src/Market/Laws.antt =====
-- What a purchase does for the buyer, for the lot and for the certificates.
use hec_mvp.Base.{
  ℕ, ◌+◌, ◌*◌, ◌≤◌, ◌<◌, ◌≡◌, refl, sym, ap, ◌∙◌, subst, ◌≢◌, ◌⊎◌, ◌↔◌, inl, inr, true, false,
  Option, some, List, [], ◌∷◌, ◌++◌, arith, ◌==◌, ==→eq, Bool-cases, Option-cases, nat_eq,
  string_eq, length, length-map, length-take, select, find, length-select, order_by,
  length-order_by,
}
use hec_mvp.Base.Keys.{
  elem, Distinct, find_sound, find-update, find_of_elem, elem-select, All-find, elem-take,
  elem-order_by, elem-select-All,
}
use hec_mvp.Base.Result.{Exn, Result, ok, err, Refuses}
use hec_mvp.Ledger.{LotStatus, User, Wallet, HecCertificate, HecLot, InventoryPosition, Db}
use hec_mvp.Ledger.Books.{in_custody_of, find_lot, find_wallet, IsBooked}
use hec_mvp.Market.{
  BuyResult, price_of, available_hecs, older, ids, allocate, charge, deplete, new_position, receipt,
  settle, buy_from_lot,
}
use hec_mvp.Market.Custody.{length-available_hecs}
use hec_mvp.Market.Cases.{energy_of, IsBuyable, buy_cases}

-- The price is the exact product rounded to the nearest centavo, half a centavo upwards.
pub price_nearest :
    (unit_price energy : ℕ)
    → (price_of unit_price energy * 1000000 ≤ unit_price * energy + 500000)
      × (unit_price * energy < price_of unit_price energy * 1000000 + 500000)
unfolding price_of
price_nearest unit_price energy = (omega arith, omega arith)

-- What a completed purchase has moved: the buyer's wallet pays the price that the result states and
-- gains the certificates and their energy, and the lot has so many fewer to offer and is closed
-- exactly when none is left.
pub record Moves (db : Db) (buyer_id lot_id quantity : ℕ) (o : Result BuyResult × Db) : Type 0 where
  pub wallet : Wallet
  pub wallet' : Wallet
  pub lot : HecLot
  pub lot' : HecLot
  pub result : BuyResult
  pub returned : o.0 ≡ ok result
  pub wallet_before : find_wallet buyer_id db.wallets ≡ some wallet
  pub wallet_after : find_wallet buyer_id o.1.wallets ≡ some wallet'
  pub paid : wallet'.balance_brl + result.total_price_brl ≡ wallet.balance_brl
  pub gained : wallet'.hec_balance ≡ wallet.hec_balance + quantity
  pub energised : wallet'.energy_balance_kwh ≡ wallet.energy_balance_kwh + result.energy_kwh
  pub lot_before : find_lot lot_id db.lots ≡ some lot
  pub lot_after : find_lot lot_id o.1.lots ≡ some lot'
  pub sold : lot'.available_quantity + quantity ≡ lot.available_quantity
  pub closed : (lot'.status ≡ LotStatus.closed) ↔ (lot'.available_quantity ≡ 0)

module _ (float_sum : List ℕ → ℕ) (buyer_id lot_id quantity tx_id position_id now : ℕ)
    (db : Db) where
  abbrev bought : Result BuyResult × Db
  bought = buy_from_lot float_sum buyer_id lot_id quantity tx_id position_id now db

  settle-Moves :
      (lot : HecLot) (buyer : User) (wallet : Wallet) (unit_price : ℕ)
      → IsBuyable float_sum db buyer_id lot_id quantity lot buyer wallet unit_price
      → Moves db buyer_id lot_id quantity (
          settle buyer_id quantity tx_id position_id now lot wallet
            (available_hecs lot_id quantity db)
            (energy_of float_sum lot_id quantity db)
            unit_price
            db)
  unfolding settle charge deplete receipt
  settle-Moves lot buyer wallet unit_price b =
      let energy = energy_of float_sum lot_id quantity db in
      record {
        wallet = wallet;
        wallet' = charge (price_of unit_price energy) quantity energy wallet;
        lot = lot;
        lot' = deplete quantity lot;
        result =
            receipt buyer_id quantity tx_id (deplete quantity lot)
              (charge (price_of unit_price energy) quantity energy wallet) energy unit_price;
        returned = refl;
        wallet_before = b.wallet_read;
        wallet_after = ground (
          arith,
          b.wallet_read,
          find-update (λ (x : Wallet). x.user_id == buyer_id) (λ x. x.wallet_id == wallet.wallet_id)
              (charge (price_of unit_price energy) quantity energy) db.wallets (λ x. refl),
        );
        paid = ground (arith, b.funded);
        gained = refl;
        energised = refl;
        lot_before = b.lot_read;
        lot_after = ground (
          arith,
          b.lot_read,
          find-update (λ (x : HecLot). x.lot_id == lot_id) (λ x. x.lot_id == lot.lot_id)
              (deplete quantity) db.lots (λ x. refl),
        );
        sold = ground (arith, b.offered);
        closed = (λ e. ground (arith, b.on_sale), λ e. ground (arith, b.offered));
      }

  -- A purchase is refused and changes nothing, or it moves money, certificates and stock as `Moves`
  -- says.
  pub buy-Moves : Refuses db bought ⊎ Moves db buyer_id lot_id quantity bought
  buy-Moves = elim (buy_cases float_sum buyer_id lot_id quantity tx_id position_id now db) [
    | inl refused ↦ inl refused
    | inr (lot, buyer, wallet, unit_price, (b, e)) ↦ inr (
        subst (Moves db buyer_id lot_id quantity) (sym e)
          (settle-Moves lot buyer wallet unit_price b))
  ]

  -- What a refusal for want of certificates in custody would mean.
  short_facts :
      (lot : HecLot)
      → find_lot lot_id db.lots ≡ some lot
      → bought.0 ≡ err Exn.too_few_custodied
      → (quantity ≤ lot.available_quantity)
        × (length (available_hecs lot_id quantity db) < quantity)
  unfolding buy_from_lot settle
  short_facts lot there e = ground arith

  -- With balanced books a lot never runs short of what it offers: that fewer certificates are in
  -- custody than were asked for is never the reason of a refusal.
  pub buy_never_short : IsBooked db → bought.0 ≢ err Exn.too_few_custodied
  unfolding buy_from_lot settle available_hecs
  buy_never_short books e = elim (Option-cases (find_lot lot_id db.lots)) [
    | inl missing ↦ ground arith
    | inr (lot, there) ↦ omega (
      arith,
      short_facts lot there e,
      books.backed lot_id lot there,
      length-take quantity (order_by older (select (in_custody_of lot_id) db.hecs)),
      length-order_by older (select (in_custody_of lot_id) db.hecs),
      length-select (in_custody_of lot_id) db.hecs,
    )
  ]

  picked_were_in_custody :
      (k : ℕ)
      → Distinct (ids db.hecs)
      → elem k (ids (available_hecs lot_id quantity db)) ≡ true
      → (h : HecCertificate) × (find (λ (x : HecCertificate). x.hec_id == k) db.hecs ≡ some h)
        × (in_custody_of lot_id h ≡ true)
  unfolding available_hecs
  picked_were_in_custody k distinct there =
      let key = λ (x : HecCertificate). x.hec_id in
      let chosen = select (in_custody_of lot_id) db.hecs in
      let sorted = elem-take key k quantity (order_by older chosen) there in
      let among : elem k (ids chosen) ≡ true = sym (elem-order_by key k older chosen) ∙ sorted in
      let listed : elem k (ids db.hecs) ≡ true = elim (Bool-cases (elem k (ids db.hecs))) [
        | inl e ↦ e
        | inr e ↦
            let clash : false ≡ true =
              sym (elem-select key k (in_custody_of lot_id) db.hecs e) ∙ among in
            cc
      ] in
      let (h, found, same) = find_of_elem key k db.hecs listed in
      let kept : elem h.hec_id (ids chosen) ≡ in_custody_of lot_id h =
        All-find (λ (x : HecCertificate). elem x.hec_id (ids chosen) ≡ in_custody_of lot_id x)
          (λ x. x.hec_id == k) db.hecs (elem-select-All key (in_custody_of lot_id) db.hecs distinct)
          found in
      (h, found, sym kept ∙ ap (λ (i : ℕ). elem i (ids chosen)) same ∙ among)

  abbrev find_hec : ℕ → Db → Option HecCertificate
  find_hec k d = find (λ (x : HecCertificate). x.hec_id == k) d.hecs

  -- What a completed purchase does to the certificate `k`, by whether the new position lists it.
  pub record Delivers (o : Db) (k : ℕ) : Type 0 where
    pub position : InventoryPosition
    pub added : o.positions ≡ db.positions ++ position ∷ []
    pub holder : position.user_id ≡ buyer_id
    pub amount : length position.source_hec_ids ≡ quantity
    pub listed :
        elem k position.source_hec_ids ≡ true
        → (h : HecCertificate) × (find_hec k db ≡ some h)
          × (in_custody_of lot_id h ≡ true)
          × (find_hec k o ≡ some (allocate h))
    pub unlisted : elem k position.source_hec_ids ≡ false → find_hec k o ≡ find_hec k db

  settle-Delivers :
      (lot : HecLot) (buyer : User) (wallet : Wallet) (unit_price k : ℕ)
      → IsBuyable float_sum db buyer_id lot_id quantity lot buyer wallet unit_price
      → Distinct (ids db.hecs)
      → Delivers
          (settle buyer_id quantity tx_id position_id now lot wallet
            (available_hecs lot_id quantity db)
            (energy_of float_sum lot_id quantity db)
            unit_price
            db).1
          k
  unfolding settle new_position
  settle-Delivers lot buyer wallet unit_price k b distinct =
      let taken = ids (available_hecs lot_id quantity db) in
      let changed =
        find-update (λ (x : HecCertificate). x.hec_id == k) (λ x. elem x.hec_id taken) allocate
          db.hecs (λ x. refl) in
      record {
        position =
            new_position position_id wallet buyer_id lot.lot_id tx_id quantity
              (energy_of float_sum lot_id quantity db) (available_hecs lot_id quantity db) now;
        added = refl;
        holder = refl;
        amount =
            length-map (λ (h : HecCertificate). h.hec_id) (available_hecs lot_id quantity db)
            ∙ length-available_hecs lot_id quantity db b.backed;
        listed = λ there.
            let (h, found, custody) = picked_were_in_custody k distinct there in
            let same : h.hec_id ≡ k =
              ==→eq h.hec_id k (find_sound (λ (x : HecCertificate). x.hec_id == k) db.hecs found) in
            (h, found, custody, changed ∙ rw found (rw same (rw there)));
        unlisted = λ absent. elim (Option-cases (find_hec k db)) [
          | inl missing ↦ changed ∙ rw missing
          | inr (h, found) ↦
              let same : h.hec_id ≡ k =
                ==→eq h.hec_id k
                  (find_sound (λ (x : HecCertificate). x.hec_id == k) db.hecs found) in
              changed ∙ rw found (rw same (rw absent))
        ];
      }

  -- If the certificates' ids are distinct, a purchase is refused and changes nothing, or it adds
  -- one position of the buyer that lists `quantity` certificates: each of these was in the lot's
  -- custody and is allocated now, and every other certificate is as it was.
  pub buy-Delivers : (k : ℕ) → Distinct (ids db.hecs) → Refuses db bought ⊎ Delivers bought.1 k
  buy-Delivers k distinct =
      elim (buy_cases float_sum buyer_id lot_id quantity tx_id position_id now db) [
        | inl refused ↦ inl refused
        | inr (lot, buyer, wallet, unit_price, (b, e)) ↦ inr (
            subst (λ o. Delivers o.1 k) (sym e)
              (settle-Delivers lot buyer wallet unit_price k b distinct))
      ]
