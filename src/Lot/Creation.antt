-- ===== src/Lot/Creation.antt =====
-- The creation of a lot as a whole: the rows that it writes, the batch that it issues on chain.
use hec_mvp.Base.{
  ℕ, ◌*◌, String, ◌≡◌, refl, sym, subst, ◌⊎◌, inl, inr, true, false, Option, some, List, arith,
  nat_eq, string_eq, length,
}
use hec_mvp.Base.Result.{Result, ok, Refuses, Refuses-keeps, Result-cases, is_ok}
use hec_mvp.Ledger.{HecCertificate, HecLot}
use hec_mvp.Ledger.Books.{IsBooked}
use hec_mvp.Chain.{Chain, unit_scale, InventoryBatchIssuanceResult}
use hec_mvp.Chain.Mock.{issue_inventory_batch}
use hec_mvp.Chain.Mock.Batches.{unretired, issue_creates}
use hec_mvp.Chain.Provider.{Provider, Polygon, mock, polygon, issue_inventory_batch_on_chain}
use hec_mvp.Ipfs.{upload_json_document_to_ipfs}
use hec_mvp.World.{World, Host, text_digest}
use hec_mvp.Lot.{
  LotManifest, LotCreationResult, store_lot, choose_hecs, build_lot_manifest, new_lot, issue_lot,
  create_lot, derive_period_bounds,
}
use hec_mvp.Lot.Checks.{AreChosen, choose-AreChosen}
use hec_mvp.Lot.Books.{IsNewLot, stored-IsBooked}

abbrev pub unretired_on : ℕ → Provider → ℕ
unretired_on b (mock c) = unretired b c
unretired_on b _ = 0

-- The rows and the batch of a new lot with the certificates `hecs`, after the world `w` whose chain
-- was `c`.
pub record Creates (lot_id : ℕ) (hec_ids : List ℕ) (c : Chain) (w : World)
    (o : Result LotCreationResult × World) : Type 0 where
  pub hecs : List HecCertificate
  pub lot : HecLot
  pub chosen : AreChosen hec_ids w.db hecs
  pub succeeds : is_ok o.0 ≡ true
  pub rows : o.1.db ≡ store_lot lot_id lot hecs w.db
  pub named : lot.lot_id ≡ lot_id
  pub offered : lot.available_quantity ≡ length hecs
  pub batch : lot.onchain_batch_token_id ≡ some c.next_batch_id
  pub units : unretired_on c.next_batch_id o.1.provider ≡ length hecs * unit_scale

module _ (host : Host) (dumps : LotManifest → List ℕ) (lot_id : ℕ) (name : String)
    (description : Option String) (price_per_kwh : Option ℕ) (now : ℕ) where
  -- The call of the chain.
  abbrev issuing :
      List HecCertificate → String → World → Chain → Result InventoryBatchIssuanceResult × Chain
  issuing hecs cid w c =
      let bounds = derive_period_bounds w.db hecs now in
      issue_inventory_batch (text_digest host)
        (host.sha256 (
          dumps (
            build_lot_manifest host dumps lot_id name description hecs price_per_kwh bounds.0
              bounds.1 now)))
        cid bounds.0 bounds.1 (length hecs * unit_scale) "HEC-CUSTODY-1.0" "1.0" now c

  issue_lot-Creates :
      (hec_ids : List ℕ) (hecs : List HecCertificate) (c : Chain) (w : World)
      → AreChosen hec_ids w.db hecs
      → w.provider ≡ mock c
      → let o = issue_lot host dumps lot_id name description price_per_kwh now hecs w in
        (is_ok o.0 ≡ false) × (o.1.db ≡ w.db) ⊎ Creates lot_id hec_ids c w o
  unfolding issue_lot new_lot issue_inventory_batch_on_chain
  issue_lot-Creates hec_ids hecs c w chosen at =
      let bounds = derive_period_bounds w.db hecs now in
      let bytes = dumps (
        build_lot_manifest host dumps lot_id name description hecs price_per_kwh bounds.0 bounds.1
          now) in
      let up = upload_json_document_to_ipfs host.sha256 bytes w.ipfs in
      elim (Result-cases up.0) [
        | inl (e, failed) ↦ inl (ground arith)
        | inr (u, stored) ↦
            let call = issuing hecs u.json_cid w c in
            elim (Result-cases call.0) [
              | inl (e, failed) ↦ inl (ground arith)
              | inr (b, issued) ↦
                  let hash = host.sha256 bytes in
                  let created =
                    issue_creates (text_digest host) hash u.json_cid bounds.0 bounds.1
                      (length hecs * unit_scale) "HEC-CUSTODY-1.0" "1.0" now 0 c in
                  inr (record {
                    hecs = hecs;
                    lot =
                        new_lot host dumps lot_id name description price_per_kwh hecs u.json_cid
                          hash b;
                    chosen = chosen;
                    succeeds = ground arith;
                    rows = ground arith;
                    named = refl;
                    offered = refl;
                    batch = ground (arith, created);
                    units = ground (arith, created);
                  })
            ]
      ]

  -- With the chain that is not implemented yet no lot is made.
  issue_lot-unimplemented :
      (hecs : List HecCertificate) (p : Polygon) (w : World)
      → w.provider ≡ polygon p
      → (issue_lot host dumps lot_id name description price_per_kwh now hecs w).1.db ≡ w.db
  unfolding issue_lot issue_inventory_batch_on_chain
  issue_lot-unimplemented hecs p w at =
      let bounds = derive_period_bounds w.db hecs now in
      let bytes = dumps (
        build_lot_manifest host dumps lot_id name description hecs price_per_kwh bounds.0 bounds.1
          now) in
      elim (Result-cases (upload_json_document_to_ipfs host.sha256 bytes w.ipfs).0) [
        | inl (e, failed) ↦ ground arith
        | inr (u, stored) ↦ ground arith
      ]

  create_lot-chosen :
      (hec_ids : List ℕ) (hecs : List HecCertificate) (w : World)
      → choose_hecs hec_ids w.db ≡ (ok hecs, w.db)
      → create_lot host dumps hec_ids name description price_per_kwh lot_id now w
        ≡ issue_lot host dumps lot_id name description price_per_kwh now hecs w
  unfolding create_lot
  create_lot-chosen hec_ids hecs w e = ground arith

  create_lot-refused :
      (hec_ids : List ℕ) (w : World)
      → Refuses w.db (choose_hecs hec_ids w.db)
      → Refuses w (create_lot host dumps hec_ids name description price_per_kwh lot_id now w)
  unfolding create_lot
  create_lot-refused hec_ids w refused = elim (Result-cases (choose_hecs hec_ids w.db).0) [
    | inl (x, e) ↦ ground arith
    | inr (hecs, e) ↦ ground arith
  ]

  -- With the in-memory chain, `create_lot` raises and leaves the database as it was, or succeeds: the
  -- lot is made of exactly the certificates asked for, each once, each anchored and in no lot before;
  -- it offers as many as they are; and the chain has a new batch, named by the lot's row, with 1000
  -- unretired units for each of them.
  pub create_lot-Creates :
      (hec_ids : List ℕ) (c : Chain) (w : World)
      → w.provider ≡ mock c
      → let o = create_lot host dumps hec_ids name description price_per_kwh lot_id now w in
        (is_ok o.0 ≡ false) × (o.1.db ≡ w.db) ⊎ Creates lot_id hec_ids c w o
  create_lot-Creates hec_ids c w at = elim (choose-AreChosen hec_ids w.db) [
    | inl refused ↦
        let r = create_lot-refused hec_ids w refused in
        elim (Result-cases
          (create_lot host dumps hec_ids name description price_per_kwh lot_id now w).0) [
            | inl (x, e) ↦ inl (ground arith)
            | inr (a, e) ↦ absurd (ground arith)
          ]
    | inr (hecs, e, chosen) ↦
        subst (λ o. (is_ok o.0 ≡ false) × (o.1.db ≡ w.db) ⊎ Creates lot_id hec_ids c w o)
          (sym (create_lot-chosen hec_ids hecs w e)) (issue_lot-Creates hec_ids hecs c w chosen at)
  ]

  -- Whatever its outcome, with either provider, `create_lot` keeps the custody books balanced if the
  -- id it draws for the lot is new.
  pub create_lot-IsBooked :
      (hec_ids : List ℕ) (w : World)
      → IsBooked w.db
      → IsNewLot lot_id w.db
      → IsBooked (create_lot host dumps hec_ids name description price_per_kwh lot_id now w).1.db
  create_lot-IsBooked hec_ids w books new = elim (choose-AreChosen hec_ids w.db) [
    | inl refused ↦
        Refuses-keeps (λ v. IsBooked v.db) w _ (create_lot-refused hec_ids w refused) books
    | inr (hecs, e, chosen) ↦
        subst (λ o. IsBooked o.1.db) (sym (create_lot-chosen hec_ids hecs w e))
          (issued-IsBooked hec_ids hecs w chosen books new w.provider refl)
  ]
    where
      issued-IsBooked :
          (hec_ids : List ℕ) (hecs : List HecCertificate) (w : World)
          → AreChosen hec_ids w.db hecs
          → IsBooked w.db
          → IsNewLot lot_id w.db
          → (p : Provider) → w.provider ≡ p
          → IsBooked (issue_lot host dumps lot_id name description price_per_kwh now hecs w).1.db
      issued-IsBooked hec_ids hecs w chosen books new (polygon p) at =
          subst IsBooked (sym (issue_lot-unimplemented hecs p w at)) books
      issued-IsBooked hec_ids hecs w chosen books new (mock c) at =
          elim (issue_lot-Creates hec_ids hecs c w chosen at) [
            | inl (_, same) ↦ subst IsBooked (sym same) books
            | inr made ↦ subst IsBooked (sym made.rows) (
                stored-IsBooked hec_ids lot_id made.lot made.hecs w.db made.chosen books new
                  made.named made.offered)
          ]
