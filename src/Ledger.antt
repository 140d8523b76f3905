-- ===== src/Ledger.antt =====
-- app/models/models.py: the rows of the custody ledger's tables, and the database that the services
-- write. A UUID is a number; money is counted in centavos, a price in ten-thousandths of a real and
-- an energy in ten-thousandths of a kWh, the last places of their columns; a time is in seconds.
-- Columns that hold a JSON document are not modelled, nor are the timestamps of updates.
pub mod Samples
pub mod Books
use hec_mvp.Base.{
  ℕ, ◌-◌, ◌/◌, String, Bool, true, false, not, Option, none, some, List, ◌==◌, nat_eq, string_eq,
}

pub data HecStatus : Type 0 where
  pending registered minted custodied allocated retired : HecStatus

-- `opened` is the source's "open".
pub data LotStatus : Type 0 where
  opened closed listed sold : LotStatus

pub data InventoryStatus : Type 0 where
  pending issued suspended revoked : InventoryStatus

pub data PositionStatus : Type 0 where
  active exhausted : PositionStatus

pub record User : Type 0 where
  pub user_id : ℕ
  pub email : String
  pub name : String
  pub password_hash : String
  pub role : String
  pub is_active : Bool
  pub created_at : ℕ

pub record Wallet : Type 0 where
  pub wallet_id : ℕ
  pub user_id : ℕ
  pub wallet_address : Option String
  pub balance_brl : ℕ
  pub hec_balance : ℕ
  pub energy_balance_kwh : ℕ

pub data ValidationStatus : Type 0 where
  pending approved review rejected : ValidationStatus

-- The columns of a validation that the ledger reads.
pub record Validation : Type 0 where
  pub validation_id : ℕ
  pub plant_id : ℕ
  pub period_start : ℕ
  pub period_end : ℕ
  pub energy_kwh : ℕ
  pub status : ValidationStatus

pub record HecCertificate : Type 0 where
  pub hec_id : ℕ
  pub validation_id : ℕ
  pub lot_id : Option ℕ
  pub hash_sha256 : String
  pub energy_kwh : ℕ
  pub contract_address : Option String
  pub chain : Option String
  pub ipfs_json_cid : Option String
  pub ipfs_pdf_cid : Option String
  pub ipfs_provider : Option String
  pub registry_tx_hash : Option String
  pub registry_block : Option ℕ
  pub registered_at : Option ℕ
  pub status : HecStatus
  pub minted_at : ℕ
  pub created_at : ℕ

pub record HecLot : Type 0 where
  pub lot_id : ℕ
  pub name : String
  pub description : Option String
  pub lot_manifest_cid : Option String
  pub batch_hash : Option String
  pub onchain_batch_token_id : Option ℕ
  pub onchain_total_units : Option ℕ
  pub onchain_issued_tx_hash : Option String
  pub onchain_issued_block : Option ℕ
  pub custody_mode : String
  pub transferability_policy : String
  pub inventory_status : InventoryStatus
  pub total_energy_kwh : ℕ
  pub total_quantity : ℕ
  pub available_quantity : ℕ
  pub certificate_count : ℕ
  pub price_per_kwh : Option ℕ
  pub status : LotStatus

pub record Transaction : Type 0 where
  pub tx_id : ℕ
  pub buyer_id : ℕ
  pub lot_id : ℕ
  pub quantity : ℕ
  pub energy_kwh : ℕ
  pub unit_price_brl : ℕ
  pub total_price_brl : ℕ
  pub source_hec_ids : List ℕ
  pub status : String

pub record InventoryPosition : Type 0 where
  pub position_id : ℕ
  pub wallet_id : ℕ
  pub user_id : ℕ
  pub lot_id : ℕ
  pub transaction_id : Option ℕ
  pub quantity : ℕ
  pub available_quantity : ℕ
  pub retired_quantity : ℕ
  pub energy_kwh_total : ℕ
  pub energy_kwh_available : ℕ
  pub source_hec_ids : List ℕ
  pub status : PositionStatus
  pub created_at : ℕ

-- The tables, in the order in which rows were added.
pub record Db : Type 0 where
  pub users : List User
  pub wallets : List Wallet
  pub validations : List Validation
  pub hecs : List HecCertificate
  pub lots : List HecLot
  pub positions : List InventoryPosition
  pub transactions : List Transaction

-- `status == "..."` in a filter or a guard.
abbrev pub is_custodied : HecStatus → Bool
is_custodied HecStatus.custodied = true
is_custodied _ = false

abbrev pub is_approved : ValidationStatus → Bool
is_approved ValidationStatus.approved = true
is_approved _ = false

abbrev pub is_opened : LotStatus → Bool
is_opened LotStatus.opened = true
is_opened _ = false

abbrev pub is_issued : InventoryStatus → Bool
is_issued InventoryStatus.issued = true
is_issued _ = false

abbrev pub is_active : PositionStatus → Bool
is_active PositionStatus.active = true
is_active _ = false

-- A nullable number that Python tests for truth: null and 0 are both false.
abbrev pub nonzero : Option ℕ → Bool
nonzero none = false
nonzero (some n) = not (n == 0)

-- `HECCertificate.lot_id == lot_id` in a filter: a null matches nothing.
abbrev pub in_lot : ℕ → HecCertificate → Bool
in_lot l h = elim h.lot_id [ none ↦ false | some k ↦ k == l ]
