-- ===== src/Chain.antt =====
-- app/blockchain.py: the results that the providers return and the state of the in-memory
-- provider. The operations are in Chain/Mock.antt and Chain/Provider.antt.
-- A timestamp is in seconds; the clock's reading is an argument of each operation. An amount or a
-- count is a natural number, so `<= 0` in the source is `== 0` here.
pub mod Mock
pub mod Provider
use hec_mvp.Base.{ℕ, ◌-◌, ◌*◌, ◌/◌, ◌<◌, String, Bool, Option, [], ◌==◌, nat_eq, string_eq}
use hec_mvp.Base.Dict.{Dict}

abbrev pub unit_scale : ℕ
unit_scale = 1000

pub record RegistrationResult : Type 0 where
  pub tx_hash : String
  pub block_number : ℕ
  pub contract_address : String
  pub chain : String
  pub certificate_hash : String
  pub ipfs_cid : String
  pub gas_used : ℕ
  pub registered_at : ℕ
  pub provider : String

-- `exists` is a word of other provers, and so is the field of the source; here it is `found`.
pub record OnChainVerifyResult : Type 0 where
  pub found : Bool
  pub certificate_hash : String
  pub ipfs_cid : String
  pub registered_at : ℕ
  pub block_number : ℕ
  pub contract_address : String
  pub chain : String
  pub provider : String

pub record InventoryBatchIssuanceResult : Type 0 where
  pub tx_hash : String
  pub block_number : ℕ
  pub contract_address : String
  pub chain : String
  pub batch_hash : String
  pub batch_token_id : ℕ
  pub total_units : ℕ
  pub manifest_cid : String
  pub period_start : ℕ
  pub period_end : ℕ
  pub methodology_version : String
  pub schema_version : String
  pub issued_at : ℕ
  pub provider : String

pub record RetirementExecutionResult : Type 0 where
  pub tx_hash : String
  pub block_number : ℕ
  pub contract_address : String
  pub chain : String
  pub batch_token_id : ℕ
  pub retirement_id : ℕ
  pub receipt_token_id : ℕ
  pub amount_units : ℕ
  pub claimant_wallet : Option String
  pub retirement_reference : String
  pub beneficiary_ref_hash : Option String
  pub purpose : String
  pub retired_at : ℕ
  pub provider : String

-- The dict that `register` stores under a certificate's hash.
pub record Registration : Type 0 where
  pub certificate_hash : String
  pub ipfs_cid : String
  pub tx_hash : String
  pub block_number : ℕ
  pub registered_at : ℕ
  pub gas_used : ℕ

-- The dict that `issue_inventory_batch` stores under a batch token.
pub record Batch : Type 0 where
  pub batch_hash : String
  pub manifest_cid : String
  pub period_start : ℕ
  pub period_end : ℕ
  pub total_units : ℕ
  pub retired_units : ℕ
  pub methodology_version : String
  pub schema_version : String
  pub tx_hash : String
  pub block_number : ℕ
  pub issued_at : ℕ
  pub status : String

-- The dict that `retire_inventory_batch` stores under a retirement's number.
pub record Retirement : Type 0 where
  pub batch_token_id : ℕ
  pub amount_units : ℕ
  pub claimant_wallet : Option String
  pub retirement_reference : String
  pub beneficiary_ref_hash : Option String
  pub purpose : String
  pub receipt_token_id : ℕ
  pub tx_hash : String
  pub block_number : ℕ
  pub retired_at : ℕ

-- The fields of a `MockBlockchainProvider`.
pub record Chain : Type 0 where
  pub contract_addr : String
  pub chain_name : String
  pub certificate_registry : Dict String Registration
  pub inventory_by_hash : Dict String ℕ
  pub inventory_batches : Dict ℕ Batch
  pub retirements : Dict ℕ Retirement
  pub block_number : ℕ
  pub gas_base : ℕ
  pub next_batch_id : ℕ
  pub next_retirement_id : ℕ
  pub next_receipt_id : ℕ

-- `MockBlockchainProvider()` with its default arguments.
abbrev pub init : Chain
init = record {
  contract_addr = "0x1234567890abcdef1234567890abcdef12345678";
  chain_name = "polygon-amoy";
  certificate_registry = [];
  inventory_by_hash = [];
  inventory_batches = [];
  retirements = [];
  block_number = 50000000;
  gas_base = 65000;
  next_batch_id = 1;
  next_retirement_id = 1;
  next_receipt_id = 1;
}

-- `"0" * 64`
abbrev pub zero_digest : String
zero_digest = "0000000000000000000000000000000000000000000000000000000000000000"
