-- ===== src/Lot.antt =====
-- app/lot_service.py: the creation of a custody lot from certificates. `dumps` stands for the bytes
-- of the manifest's canonical JSON; the new lot's id and the clock's reading are arguments.
pub mod Tests
pub mod Checks
pub mod Books
pub mod Creation
use hec_mvp.Base.{
  ℕ, ◌+◌, ◌-◌, ◌*◌, ◌/◌, min, max, String, Bool, true, false, not, Option, none, some, List, [],
  ◌∷◌, ◌++◌, map, ◌==◌, if◌then◌else◌, is_some, nat_eq, string_eq, truthy, length, find, update,
}
use hec_mvp.Base.Keys.{elem}
use hec_mvp.Base.Result.{Exn, Action, pure, raise, gets, or_raise, raise_if, modify, ◌>>=◌, ◌>>◌}
use hec_mvp.Ledger.{HecStatus, LotStatus, InventoryStatus, Validation, HecCertificate, HecLot, Db}
use hec_mvp.Chain.{unit_scale, InventoryBatchIssuanceResult}
use hec_mvp.Chain.Provider.{issue_inventory_batch_on_chain}
use hec_mvp.Ipfs.{upload_json_document_to_ipfs}
use hec_mvp.World.{World, Host, text_digest, on_db, on_chain, on_ipfs}

pub record LotCreationResult : Type 0 where
  pub lot_id : ℕ
  pub name : String
  pub description : Option String
  pub total_quantity : ℕ
  pub available_quantity : ℕ
  pub total_energy_kwh : ℕ
  pub certificate_count : ℕ
  pub status : LotStatus
  pub custody_mode : String
  pub transferability_policy : String
  pub inventory_status : InventoryStatus
  pub batch_hash : String
  pub manifest_cid : String
  pub onchain_batch_token_id : ℕ
  pub onchain_issued_tx_hash : String
  pub hec_ids : List ℕ
  pub created_at : ℕ

-- The messages that the two validations return.
pub data LotError : Type 0 where
  bad_status missing_cid missing_tx already_belongs : LotError

abbrev pub is_backed_status : HecStatus → Bool
is_backed_status HecStatus.registered = true
is_backed_status HecStatus.minted = true
is_backed_status _ = false

pub validate_hec_backing : HecCertificate → Option LotError
validate_hec_backing hec =
    if not (is_backed_status hec.status)
    then some bad_status
    else if not (truthy hec.ipfs_json_cid)
    then some missing_cid
    else if not (truthy hec.registry_tx_hash)
    then some missing_tx
    else none

pub validate_hec_not_in_lot : HecCertificate → Option LotError
validate_hec_not_in_lot hec = if is_some hec.lot_id then some already_belongs else none

abbrev to_list : Option LotError → List LotError
to_list none = []
to_list (some e) = e ∷ []

-- The loop that gathers the errors of all certificates.
pub errors_of : List HecCertificate → List LotError
unfolding validate_hec_backing validate_hec_not_in_lot
errors_of [] = []
errors_of (hec ∷ hecs) =
    to_list (validate_hec_backing hec) ++ (to_list (validate_hec_not_in_lot hec) ++ errors_of hecs)

-- The text that joins the errors; it says "already belongs" if one of them does.
pub validation_error : List LotError → Option Exn
validation_error [] = none
validation_error (already_belongs ∷ es) = some Exn.lot_validation_owned
validation_error (e ∷ es) = elim (validation_error es) [
  | none ↦ some Exn.lot_validation
  | some x ↦ some x
]

-- The loop over `seen`, which keeps each id's first occurrence.
pub unique_from : List ℕ → List ℕ → List ℕ
unique_from seen [] = []
unique_from seen (hid ∷ rest) =
    let fresh = hid ∷ unique_from (hid ∷ seen) rest in
    let again = unique_from seen rest in if elem hid seen then again else fresh

abbrev pub find_hec : ℕ → Db → Option HecCertificate
find_hec hid db = find (λ (h : HecCertificate). h.hec_id == hid) db.hecs

-- The loop of queries; `none` is the "not found" that it raises.
pub fetch_all : Db → List ℕ → Option (List HecCertificate)
fetch_all db [] = some []
fetch_all db (hid ∷ rest) = elim (find_hec hid db) [
  | none ↦ none
  | some hec ↦ elim (fetch_all db rest) [ none ↦ none | some hecs ↦ some (hec ∷ hecs) ]
]

abbrev validation_of : Db → HecCertificate → Option Validation
validation_of db hec =
    find (λ (v : Validation). v.validation_id == hec.validation_id) db.validations

-- The validations of those certificates that have one.
pub periods : Db → List HecCertificate → List Validation
periods db [] = []
periods db (hec ∷ hecs) = elim (validation_of db hec) [
  | none ↦ periods db hecs
  | some v ↦ v ∷ periods db hecs
]

pub earliest : ℕ → List Validation → ℕ
earliest t [] = t
earliest t (v ∷ vs) = min v.period_start (earliest t vs)

pub latest : ℕ → List Validation → ℕ
latest t [] = t
latest t (v ∷ vs) = max v.period_end (latest t vs)

-- `_derive_period_bounds`; both ends of a validation are non-null columns.
pub derive_period_bounds : Db → List HecCertificate → ℕ → ℕ × ℕ
unfolding periods earliest latest
derive_period_bounds db hecs now = elim (periods db hecs) [
  | [] ↦ (now, now)
  | v ∷ vs ↦ (earliest v.period_start vs, latest v.period_end vs)
]

pub record ManifestEntry : Type 0 where
  pub hec_id : ℕ
  pub energy_kwh : ℕ
  pub certificate_hash : String
  pub ipfs_json_cid : Option String
  pub registry_tx_hash : Option String

pub record LotManifest : Type 0 where
  pub lot_id : ℕ
  pub version : String
  pub standard : String
  pub custody_mode : String
  pub transferability_policy : String
  pub name : String
  pub description : Option String
  pub quantity : ℕ
  pub total_energy_kwh : ℕ
  pub price_per_kwh_brl : Option ℕ
  pub period_start : ℕ
  pub period_end : ℕ
  pub certificates : List ManifestEntry
  pub generated_at : ℕ
  pub schema_version : String
  pub methodology_version : String

pub manifest_entry : HecCertificate → ManifestEntry
manifest_entry hec = record {
  hec_id = hec.hec_id;
  energy_kwh = hec.energy_kwh;
  certificate_hash = hec.hash_sha256;
  ipfs_json_cid = hec.ipfs_json_cid;
  registry_tx_hash = hec.registry_tx_hash;
}

abbrev pub ids : List HecCertificate → List ℕ
ids = map (λ h. h.hec_id)

-- The writes to the rows of the certificates.
abbrev pub take_in : ℕ → HecCertificate → HecCertificate
take_in lot_id hec = record hec { lot_id = some lot_id; status = HecStatus.custodied }

-- The rows that `create_lot` writes.
pub store_lot : ℕ → HecLot → List HecCertificate → Db → Db
store_lot lot_id lot hecs db = record db {
  lots = db.lots ++ lot ∷ [];
  hecs = update (λ h. elem h.hec_id (ids hecs)) (take_in lot_id) db.hecs;
}

-- The checks of `create_lot`, up to the certificates that the lot is made of.
pub choose_hecs : List ℕ → Action Db (List HecCertificate)
choose_hecs hec_ids = do
  raise_if (length hec_ids == 0) Exn.empty_ids
  rows ← gets (λ db. fetch_all db (unique_from [] hec_ids))
  hecs ← or_raise rows Exn.hec_not_found
  elim (validation_error (errors_of hecs)) [ none ↦ pure hecs | some e ↦ raise e ]

module _ (host : Host) (dumps : LotManifest → List ℕ) where
  pub build_lot_manifest :
      ℕ → String → Option String → List HecCertificate → Option ℕ → ℕ → ℕ → ℕ → LotManifest
  build_lot_manifest lot_id name description hecs price_per_kwh period_start period_end now =
      record {
        lot_id = lot_id;
        version = "2.0";
        standard = "HEC-INVENTORY-CUSTODY-BR-2026";
        custody_mode = "platform_custody";
        transferability_policy = "non_transferable";
        name = name;
        description = description;
        quantity = length hecs;
        total_energy_kwh = host.float_sum (map (λ h. h.energy_kwh) hecs);
        price_per_kwh_brl = price_per_kwh;
        period_start = period_start;
        period_end = period_end;
        certificates = map manifest_entry hecs;
        generated_at = now;
        schema_version = "1.0";
        methodology_version = "HEC-CUSTODY-1.0";
      }

  -- The new row of `hec_lots`.
  pub new_lot :
      ℕ
      → String
      → Option String
      → Option ℕ
      → List HecCertificate
      → String
      → String
      → InventoryBatchIssuanceResult
      → HecLot
  new_lot lot_id name description price_per_kwh hecs manifest_cid batch_hash issuance = record {
    lot_id = lot_id;
    name = name;
    description = description;
    lot_manifest_cid = some manifest_cid;
    batch_hash = some batch_hash;
    onchain_batch_token_id = some issuance.batch_token_id;
    onchain_total_units = some (length hecs * unit_scale);
    onchain_issued_tx_hash = some issuance.tx_hash;
    onchain_issued_block = some issuance.block_number;
    custody_mode = "platform_custody";
    transferability_policy = "non_transferable";
    inventory_status = InventoryStatus.issued;
    total_energy_kwh = host.float_sum (map (λ h. h.energy_kwh) hecs);
    total_quantity = length hecs;
    available_quantity = length hecs;
    certificate_count = length hecs;
    price_per_kwh = price_per_kwh;
    status = LotStatus.opened;
  }

  -- The rest of it: the manifest, its upload, the issuance on chain and the rows.
  pub issue_lot :
      ℕ
      → String
      → Option String
      → Option ℕ
      → ℕ
      → List HecCertificate
      → Action World LotCreationResult
  issue_lot lot_id name description price_per_kwh now hecs = do
    bounds ← gets (λ w. derive_period_bounds w.db hecs now)
    let bytes =
        dumps (build_lot_manifest lot_id name description hecs price_per_kwh bounds.0 bounds.1 now)
    let batch_hash = host.sha256 bytes
    uploaded ← on_ipfs (upload_json_document_to_ipfs host.sha256 bytes)
    issuance ← on_chain (
        issue_inventory_batch_on_chain (text_digest host) batch_hash uploaded.json_cid bounds.0
          bounds.1 (length hecs * unit_scale) "HEC-CUSTODY-1.0" "1.0" now)
    let lot =
        new_lot lot_id name description price_per_kwh hecs uploaded.json_cid batch_hash issuance
    on_db (modify (store_lot lot_id lot hecs))
    pure (record {
      lot_id = lot_id;
      name = name;
      description = description;
      total_quantity = length hecs;
      available_quantity = length hecs;
      total_energy_kwh = host.float_sum (map (λ h. h.energy_kwh) hecs);
      certificate_count = length hecs;
      status = LotStatus.opened;
      custody_mode = "platform_custody";
      transferability_policy = "non_transferable";
      inventory_status = InventoryStatus.issued;
      batch_hash = batch_hash;
      manifest_cid = uploaded.json_cid;
      onchain_batch_token_id = issuance.batch_token_id;
      onchain_issued_tx_hash = issuance.tx_hash;
      hec_ids = ids hecs;
      created_at = now;
    })

  pub create_lot :
      List ℕ → String → Option String → Option ℕ → ℕ → ℕ → Action World LotCreationResult
  create_lot hec_ids name description price_per_kwh lot_id now = do
    hecs ← on_db (choose_hecs hec_ids)
    issue_lot lot_id name description price_per_kwh now hecs
