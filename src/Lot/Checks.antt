-- ===== src/Lot/Checks.antt =====
-- The checks of `create_lot`: which certificates a lot is made of, and when they are refused.
use hec_mvp.Base.{
  ℕ, ◌<◌, ◌≡◌, refl, sym, ap, ◌∙◌, subst, ◌⊎◌, ◌↔◌, inl, inr, true, not, ◌&&◌, none, some, List, [],
  ◌∷◌, arith, ◌==◌, ==→eq, Bool-cases, Option-cases, nat_eq, string_eq, truthy, length, All,
}
use hec_mvp.Base.Keys.{elem, Distinct, find_sound}
use hec_mvp.Base.Result.{ok, Refuses}
use hec_mvp.Ledger.{HecCertificate, Db}
use hec_mvp.Lot.{
  LotError, bad_status, missing_cid, missing_tx, already_belongs, is_backed_status,
  validate_hec_backing, validate_hec_not_in_lot, errors_of, validation_error, unique_from, find_hec,
  fetch_all, ids, choose_hecs,
}

-- A certificate that may enter a lot: anchored, and in no lot yet.
pub record IsFree (h : HecCertificate) : Type 0 where
  pub registered : is_backed_status h.status ≡ true
  pub stored : truthy h.ipfs_json_cid ≡ true
  pub anchored : truthy h.registry_tx_hash ≡ true
  pub lotless : h.lot_id ≡ none

elem-unique_from :
    (k : ℕ) (seen xs : List ℕ) → elem k (unique_from seen xs) ≡ (elem k xs && not (elem k seen))
unfolding unique_from
elem-unique_from k seen [] = refl
elem-unique_from k seen (x ∷ xs) = ground (
  arith,
  elem-unique_from k seen xs,
  elem-unique_from k (x ∷ seen) xs,
  λ (e : k ≡ x). ap (λ (i : ℕ). elem i seen) e,
)

Distinct-unique_from : (seen xs : List ℕ) → Distinct (unique_from seen xs)
unfolding unique_from
Distinct-unique_from seen [] = tt
Distinct-unique_from seen (x ∷ xs) = ground (
  arith,
  elem-unique_from x (x ∷ seen) xs,
  Distinct-unique_from seen xs,
  Distinct-unique_from (x ∷ seen) xs,
)

-- The rows that the ids name, in the order of the ids.
abbrev pub AreRows : Db → List ℕ → List HecCertificate → Type 0
AreRows db ks hecs = (ids hecs ≡ ks) × All (λ h. find_hec h.hec_id db ≡ some h) hecs

fetch_all-rows :
    (db : Db) (ks : List ℕ) (hecs : List HecCertificate)
    → fetch_all db ks ≡ some hecs
    → AreRows db ks hecs
unfolding fetch_all
fetch_all-rows db [] hecs e =
    let whole : [] ≡ hecs = ground arith in subst (AreRows db []) whole (refl, tt)
fetch_all-rows db (k ∷ ks) hecs e = elim (Option-cases (find_hec k db)) [
  | inl missing ↦ absurd (ground arith)
  | inr (h, found) ↦ elim (Option-cases (fetch_all db ks)) [
    | inl missing ↦ absurd (ground arith)
    | inr (hs, rest) ↦
        let same : h.hec_id ≡ k =
          ==→eq h.hec_id k (find_sound (λ (x : HecCertificate). x.hec_id == k) db.hecs found) in
        let (keys, rows) = fetch_all-rows db ks hs rest in
        let whole : h ∷ hs ≡ hecs = ground arith in
        subst (AreRows db (k ∷ ks)) whole
          (cc, (subst (λ i. find_hec i db ≡ some h) (sym same) found, rows))
  ]
]

validate-IsFree :
    (h : HecCertificate)
    → (validate_hec_backing h ≡ none) × (validate_hec_not_in_lot h ≡ none) ↔ IsFree h
unfolding validate_hec_backing validate_hec_not_in_lot
validate-IsFree h = (λ e. ground arith, λ f. ground arith)

validation_error-none : (es : List LotError) → validation_error es ≡ none → es ≡ []
unfolding validation_error
validation_error-none [] e = refl
validation_error-none (bad_status ∷ es) e = absurd (ground arith)
validation_error-none (missing_cid ∷ es) e = absurd (ground arith)
validation_error-none (missing_tx ∷ es) e = absurd (ground arith)
validation_error-none (already_belongs ∷ es) e = absurd (ground arith)

errors_of-nil : (hecs : List HecCertificate) → (errors_of hecs ≡ []) ↔ All IsFree hecs
unfolding errors_of
errors_of-nil [] = (λ _. tt, λ _. refl)
errors_of-nil (h ∷ hecs) =
    let v = validate-IsFree h in
    let r = errors_of-nil hecs in
    (
      λ e. (v.0 (ground arith, ground arith), r.0 (ground arith)),
      λ f. let (a, b) = v.1 f.0 in ground (arith, r.1 f.1),
    )

-- The certificates that pass the checks of `create_lot` for the ids asked for: each id once, each
-- with its row, and each row free to enter a lot.
pub record AreChosen (hec_ids : List ℕ) (db : Db) (hecs : List HecCertificate) : Type 0 where
  pub some_ids : 0 < length hec_ids
  pub distinct : Distinct (ids hecs)
  pub asked : (k : ℕ) → elem k (ids hecs) ≡ elem k hec_ids
  pub rows : All (λ h. find_hec h.hec_id db ≡ some h) hecs
  pub free : All IsFree hecs

choose_when :
    (hec_ids : List ℕ) (db : Db) (hecs : List HecCertificate)
    → 0 < length hec_ids
    → fetch_all db (unique_from [] hec_ids) ≡ some hecs
    → validation_error (errors_of hecs) ≡ none
    → AreChosen hec_ids db hecs
choose_when hec_ids db hecs n fetched valid =
    let (keys, rows) = fetch_all-rows db (unique_from [] hec_ids) hecs fetched in
    record {
      some_ids = n;
      distinct = subst Distinct (sym keys) (Distinct-unique_from [] hec_ids);
      asked = λ k.
          ap (λ (ks : List ℕ). elem k ks) keys
          ∙ elem-unique_from k [] hec_ids
          ∙ (let b = elem k hec_ids in ground arith);
      rows = rows;
      free = (errors_of-nil hecs).0 (validation_error-none (errors_of hecs) valid);
    }

-- The checks write nothing. They let the lot through exactly with certificates that are free to
-- enter it, each id that was asked for once; otherwise they raise.
pub choose-AreChosen :
    (hec_ids : List ℕ) (db : Db)
    → Refuses db (choose_hecs hec_ids db)
      ⊎ ((hecs : List HecCertificate) × (choose_hecs hec_ids db ≡ (ok hecs, db))
          × AreChosen hec_ids db hecs)
unfolding choose_hecs
choose-AreChosen hec_ids db = elim (Option-cases (fetch_all db (unique_from [] hec_ids))) [
  | inl missing ↦ inl (ground arith)
  | inr (hecs, fetched) ↦ elim (Option-cases (validation_error (errors_of hecs))) [
    | inr (x, invalid) ↦ inl (ground arith)
    | inl valid ↦ elim (Bool-cases (length hec_ids == 0)) [
      | inl empty ↦ inl (ground arith)
      | inr given ↦
          inr (hecs, ground arith, choose_when hec_ids db hecs (ground arith) fetched valid)
    ]
  ]
]
