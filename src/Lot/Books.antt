-- ===== src/Lot/Books.antt =====
-- The creation of a lot keeps the custody books balanced.
use hec_mvp.Base.{
  ℕ, ◌≡◌, refl, sym, ap, ◌∙◌, subst, ◌≢◌, inl, inr, true, false, ◌&&◌, none, some, List, [], ◌∷◌,
  map, arith, ◌==◌, Option-cases, nat_eq, string_eq, length, length-map, ℕ_discrete, count_if, All,
}
use hec_mvp.Base.Keys.{
  elem, Distinct, find_of_elem, count_if-false, All-find, All-map, count_if-congr, count_if-update,
  keys-update, elem-find,
}
use hec_mvp.Base.Rows.{
  find_self, find-append, count_if-elem, count_if-update_gain, Distinct-append_new,
}
use hec_mvp.Ledger.{HecCertificate, HecLot, Db}
use hec_mvp.Ledger.Books.{in_custody_of, find_lot, IsBooked}
use hec_mvp.Lot.{find_hec, ids, take_in, store_lot}
use hec_mvp.Lot.Checks.{IsFree, AreChosen}

-- No row speaks of the id yet, as of a new UUID.
pub record IsNewLot (lot_id : ℕ) (db : Db) : Type 0 where
  pub unlisted : find_lot lot_id db.lots ≡ none
  pub unreferenced : count_if (in_custody_of lot_id) db.hecs ≡ 0

module _ (hec_ids : List ℕ) (lot_id : ℕ) (lot : HecLot) (hecs : List HecCertificate) (db : Db)
    (chosen : AreChosen hec_ids db hecs) (books : IsBooked db) (new : IsNewLot lot_id db)
    (named : lot.lot_id ≡ lot_id) (filled : lot.available_quantity ≡ length hecs) where
  abbrev stored : Db
  stored = store_lot lot_id lot hecs db

  -- A row whose key is among the chosen ones is one of them, and so in no lot.
  chosen_lotless :
      All (λ (x : HecCertificate). elem x.hec_id (ids hecs) ≡ true → x.lot_id ≡ none) db.hecs
  chosen_lotless =
      All-map db.hecs
        (λ (x : HecCertificate) found there.
          let (h, listed, same) =
            find_of_elem (λ (y : HecCertificate). y.hec_id) x.hec_id hecs there in
          let row =
            All-find (λ y. find_hec y.hec_id db ≡ some y) (λ y. y.hec_id == x.hec_id) hecs
              chosen.rows listed in
          let row' = subst (λ k. find_hec k db ≡ some h) same row in
          let free = All-find IsFree (λ y. y.hec_id == x.hec_id) hecs chosen.free listed in
          let one : h ≡ x = ground arith in subst (λ y. y.lot_id ≡ none) one free.lotless)
        (find_self (λ (y : HecCertificate). y.hec_id) db.hecs books.hec_keys)

  chosen_kept : All (λ k. elem k (map (λ (x : HecCertificate). x.hec_id) db.hecs) ≡ true) (ids hecs)
  chosen_kept = keep hecs chosen.rows
    where
      keep :
          (hs : List HecCertificate)
          → All (λ h. find_hec h.hec_id db ≡ some h) hs
          → All (λ k. elem k (map (λ (x : HecCertificate). x.hec_id) db.hecs) ≡ true) (ids hs)
      keep [] r = tt
      keep (h ∷ hs) r = (
        elem-find (λ (x : HecCertificate). x.hec_id) (λ x. x.hec_id == h.hec_id) db.hecs r.0,
        keep hs r.1,
      )

  -- The new lot has its certificates, and no others, in custody.
  stored-backed_new : count_if (in_custody_of lot_id) stored.hecs ≡ length hecs
  unfolding store_lot
  stored-backed_new =
      count_if-update_gain (in_custody_of lot_id) (λ x. elem x.hec_id (ids hecs)) (take_in lot_id)
        db.hecs (λ x. ground arith) new.unreferenced
      ∙ count_if-elem (λ (x : HecCertificate). x.hec_id) (ids hecs) db.hecs books.hec_keys
          chosen.distinct chosen_kept
      ∙ length-map (λ (x : HecCertificate). x.hec_id) hecs

  -- The other lots lose none.
  stored-backed_other :
      (k : ℕ)
      → k ≢ lot_id
      → count_if (in_custody_of k) stored.hecs ≡ count_if (in_custody_of k) db.hecs
  unfolding store_lot
  stored-backed_other k other =
      let lost =
        count_if-update (in_custody_of k) (λ x. elem x.hec_id (ids hecs)) (take_in lot_id) db.hecs
          (λ x. ground arith) in
      let none_there =
        count_if-congr (λ x. in_custody_of k x && elem x.hec_id (ids hecs)) (λ _. false) db.hecs
          (All-map db.hecs (λ x free. ground (arith, free)) chosen_lotless)
        ∙ count_if-false db.hecs in
      omega (arith, lost, none_there)

  stored-backed :
      (k : ℕ) (l : HecLot)
      → find_lot k stored.lots ≡ some l
      → count_if (in_custody_of k) stored.hecs ≡ l.available_quantity
  unfolding store_lot
  stored-backed k l e =
      let split = find-append (λ (x : HecLot). x.lot_id == k) db.lots (lot ∷ []) in
      elim (ℕ_discrete k lot_id) [
        | yes same ↦
            let there = subst (λ j. find_lot j stored.lots ≡ some l) same e in
            let split' = find-append (λ (x : HecLot). x.lot_id == lot_id) db.lots (lot ∷ []) in
            let mine : lot ≡ l = ground (arith, new.unlisted, named) in
            subst (λ j. count_if (in_custody_of j) stored.hecs ≡ l.available_quantity) (sym same)
              (stored-backed_new ∙ sym filled ∙ ap (λ (x : HecLot). x.available_quantity) mine)
        | no other ↦ elim (Option-cases (find_lot k db.lots)) [
          | inl missing ↦ absurd (ground (arith, named))
          | inr (l', found) ↦
              let mine : l' ≡ l = ground arith in
              stored-backed_other k other
              ∙ books.backed k l' found
              ∙ ap (λ (x : HecLot). x.available_quantity) mine
        ]
      ]

  pub stored-IsBooked : IsBooked stored
  unfolding store_lot
  stored-IsBooked = record {
    hec_keys =
        subst Distinct
          (sym (
            keys-update (λ (h : HecCertificate). h.hec_id) (λ h. elem h.hec_id (ids hecs))
              (take_in lot_id) db.hecs (λ x. refl)))
          books.hec_keys;
    lot_keys =
        Distinct-append_new (λ (l : HecLot). l.lot_id) db.lots lot books.lot_keys
          (subst (λ j. find_lot j db.lots ≡ none) (sym named) new.unlisted);
    wallet_keys = books.wallet_keys;
    backed = stored-backed;
    held = books.held;
    balanced = books.balanced;
  }
