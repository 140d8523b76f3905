-- ===== src/Issuance/Laws.antt =====
-- An issued certificate verifies, on chain and in the store, and fits the books.
use hec_mvp.Base.{
  ℕ, String, ◌≡◌, refl, sym, ap, ◌∙◌, subst, ◌≢◌, ◌⊎◌, inl, inr, true, false, none, some, List, [],
  ◌∷◌, ◌++◌, arith, ◌==◌, Bool-cases, nat_eq, string_eq, find,
}
use hec_mvp.Base.Rows.{Distinct-append_new, count_if-append}
use hec_mvp.Base.Result.{Result, Result-cases, is_ok}
use hec_mvp.Ledger.{is_approved, Validation, HecCertificate, Db}
use hec_mvp.Ledger.Books.{in_custody_of, IsBooked}
use hec_mvp.Chain.{Chain}
use hec_mvp.Chain.Mock.{register, verify}
use hec_mvp.Chain.Mock.Registry.{verify-register}
use hec_mvp.Chain.Provider.{mock, register_on_chain}
use hec_mvp.Ipfs.{Kind, cid_of, upload_certificate_to_ipfs, verify_certificate_from_ipfs}
use hec_mvp.Ipfs.Laws.{Keeps, verdict, upload_certificate-result, intact_in_memory}
use hec_mvp.World.{World, Host, text_digest}
use hec_mvp.Issuance.{HecIssuanceResult, new_hec, issue_hec}

-- What an issuance after the world `w` leaves: one more row, in no lot, whose hash is on chain with the
-- CID of its document, and whose document the store hands out unaltered.
pub record Issues (sha256 : List ℕ → String) (hec_id : ℕ) (w : World)
    (o : Result HecIssuanceResult × World) : Type 0 where
  pub row : HecCertificate
  pub chain : Chain
  pub cid : String
  pub rows : o.1.db ≡ record w.db { hecs = w.db.hecs ++ row ∷ [] }
  pub named : row.hec_id ≡ hec_id
  pub lotless : row.lot_id ≡ none
  pub located : row.ipfs_json_cid ≡ some cid
  pub at : o.1.provider ≡ mock chain
  pub anchored : (verify chain row.hash_sha256).found ≡ true
  pub pointed : (verify chain row.hash_sha256).ipfs_cid ≡ cid
  pub intact :
      (now : ℕ)
      → verdict (verify_certificate_from_ipfs sha256 row.hash_sha256 cid none now o.1.ipfs)
        ≡ some true

-- A certificate in no lot, with a new id, leaves the books balanced.
pub add_hec-IsBooked :
    (db : Db) (row : HecCertificate)
    → IsBooked db
    → row.lot_id ≡ none
    → find (λ (h : HecCertificate). h.hec_id == row.hec_id) db.hecs ≡ none
    → IsBooked (record db { hecs = db.hecs ++ row ∷ [] })
add_hec-IsBooked db row books lotless new = record {
  hec_keys = Distinct-append_new (λ (h : HecCertificate). h.hec_id) db.hecs row books.hec_keys new;
  lot_keys = books.lot_keys;
  wallet_keys = books.wallet_keys;
  backed = λ k l e.
      ground
        (arith, books.backed k l e, lotless, count_if-append (in_custody_of k) db.hecs (row ∷ []));
  held = books.held;
  balanced = books.balanced;
}

module _ (host : Host) (certificate : ℕ → Validation → ℕ → List ℕ) (pdf : List ℕ → String → List ℕ)
    (hec_id plant_id : ℕ) (validation : Validation) (issued_at now : ℕ) where
  abbrev document : List ℕ
  document = certificate hec_id validation issued_at

  abbrev drawing : List ℕ
  drawing = pdf document (host.sha256 document)

  -- With the in-memory chain and store, and documents with two CIDs, `issue_hec`
  -- raises and leaves the database as it was, or adds one certificate, in no lot, that verifies: its hash
  -- is on chain with the CID of its document, and the check of the store's content succeeds.
  pub issue_hec-Issues :
      (c : Chain) (w : World)
      → w.provider ≡ mock c
      → w.ipfs.kind ≡ Kind.mock
      → cid_of host.sha256 document ≢ cid_of host.sha256 drawing
      → let o = issue_hec host certificate pdf hec_id plant_id validation issued_at now w in
        (is_ok o.0 ≡ false) × (o.1.db ≡ w.db) ⊎ Issues host.sha256 hec_id w o
  unfolding issue_hec register_on_chain new_hec
  issue_hec-Issues c w at kind apart =
      let keeps : Keeps w.ipfs.kind = subst Keeps (sym kind) tt in
      let (u, stored, cid) = upload_certificate-result host.sha256 document drawing w.ipfs keeps in
      let call = register (text_digest host) (host.sha256 document) u.json_cid now c in
      elim (verify-register (text_digest host) (host.sha256 document) "" u.json_cid now c) [
        | inl refused ↦ elim (Result-cases call.0) [
          | inl (e, failed) ↦ inl (ground arith)
          | inr (r, done) ↦ absurd (ground arith)
        ]
        | inr (new, found, points, _, _, _, _) ↦ elim (Result-cases call.0) [
          | inl (e, failed) ↦ inl (ground arith)
          | inr (r, done) ↦ elim (Bool-cases (is_approved validation.status)) [
            | inr failed ↦ inl (ground arith)
            | inl passed ↦ inr (record {
              row = new_hec hec_id validation (host.sha256 document) issued_at now u r;
              chain = call.1;
              cid = cid_of host.sha256 document;
              rows = ground arith;
              named = refl;
              lotless = refl;
              located = ap some cid;
              at = ground arith;
              anchored = found;
              pointed = points ∙ cid;
              intact = λ t.
                  ground
                    (arith, intact_in_memory host.sha256 document drawing none t w.ipfs apart kind);
            })
          ]
        ]
      ]

  -- Whatever the providers are.
  pub issue_hec-rows :
      (w : World)
      → let o = issue_hec host certificate pdf hec_id plant_id validation issued_at now w in
        (o.1.db ≡ w.db)
        ⊎ ((row : HecCertificate) × (row.hec_id ≡ hec_id)
            × (row.lot_id ≡ none)
            × (o.1.db ≡ record w.db { hecs = w.db.hecs ++ row ∷ [] }))
  unfolding issue_hec new_hec
  issue_hec-rows w =
      let up = upload_certificate_to_ipfs host.sha256 document drawing w.ipfs in
      elim (Result-cases up.0) [
        | inl (e, failed) ↦ inl (ground arith)
        | inr (u, stored) ↦
            elim (Result-cases
              (register_on_chain (text_digest host) (host.sha256 document) u.json_cid now
                w.provider).0) [
                  | inl (e, failed) ↦ inl (ground arith)
                  | inr (r, done) ↦ elim (Bool-cases (is_approved validation.status)) [
                    | inl passed ↦ inr (
                      new_hec hec_id validation (host.sha256 document) issued_at now u r,
                      refl,
                      refl,
                      ground arith,
                    )
                    | inr failed ↦ inl (ground arith)
                  ]
                ]
      ]

  -- An issuance keeps the custody books balanced, whatever its outcome, if the id it draws is new.
  pub issue_hec-IsBooked :
      (w : World)
      → IsBooked w.db
      → find (λ (h : HecCertificate). h.hec_id == hec_id) w.db.hecs ≡ none
      → IsBooked (issue_hec host certificate pdf hec_id plant_id validation issued_at now w).1.db
  issue_hec-IsBooked w books new = elim (issue_hec-rows w) [
    | inl same ↦ subst IsBooked (sym same) books
    | inr (row, named, lotless, rows) ↦ subst IsBooked (sym rows) (
        add_hec-IsBooked w.db row books lotless (
          subst (λ k. find (λ (h : HecCertificate). h.hec_id == k) w.db.hecs ≡ none) (sym named)
            new))
  ]
