-- ===== src/Chain/Provider.antt =====
-- The provider in use in app/blockchain.py and the module's functions over it. None of the services
-- passes a `provider`, so each function reads the module's global, which is the state here.
use hec_mvp.Base.{ℕ, String, Option, nat_eq, string_eq}
use hec_mvp.Base.Result.{Exn, err, Action, gets}
use hec_mvp.Chain.{
  RegistrationResult, OnChainVerifyResult, InventoryBatchIssuanceResult, RetirementExecutionResult,
  Chain, init,
}
use hec_mvp.Chain.Mock

-- The fields of a `PolygonProvider`, whose methods all raise `NotImplementedError`.
pub record Polygon : Type 0 where
  pub rpc_url : String
  pub contract_address : String
  pub private_key : String
  pub chain_name : String

pub data Provider : Type 0 where
  mock : Chain → Provider
  polygon : Polygon → Provider

-- The properties `name`, `contract_address` and `chain`.
pub name : Provider → String
name (mock c) = "mock"
name (polygon p) = "polygon"

pub contract_address : Provider → String
contract_address (mock c) = c.contract_addr
contract_address (polygon p) = p.contract_address

pub chain : Provider → String
chain (mock c) = c.chain_name
chain (polygon p) = p.chain_name

-- A call of a method: the mock object is the one that the global names, so its new state stays.
abbrev pub call : {A : Type 0} → Action Chain A → Action Provider A
call m (mock c) = let (r, d) = m c in (r, mock d)
call m (polygon p) = (err Exn.not_implemented, polygon p)

pub set_blockchain_provider : Provider → Provider → Provider
set_blockchain_provider provider current = provider

pub reset_blockchain_provider : Provider → Provider
reset_blockchain_provider current = mock init

pub verify_on_chain : String → Action Provider OnChainVerifyResult
verify_on_chain certificate_hash_hex = call (gets (λ c. Mock.verify c certificate_hash_hex))

module _ (sha256 : String → String) where
  unfoldable pub register_on_chain : String → String → ℕ → Action Provider RegistrationResult
  register_on_chain certificate_hash_hex ipfs_cid now =
      call (Mock.register sha256 certificate_hash_hex ipfs_cid now)

  unfoldable pub issue_inventory_batch_on_chain :
      String
      → String
      → ℕ
      → ℕ
      → ℕ
      → String
      → String
      → ℕ
      → Action Provider InventoryBatchIssuanceResult
  issue_inventory_batch_on_chain batch_hash_hex manifest_cid period_start period_end total_units
        methodology_version schema_version now =
      call (
        Mock.issue_inventory_batch sha256 batch_hash_hex manifest_cid period_start period_end
          total_units methodology_version schema_version now)

  unfoldable pub retire_inventory_batch_on_chain :
      ℕ
      → ℕ
      → Option String
      → String
      → Option String
      → String
      → ℕ
      → Action Provider RetirementExecutionResult
  retire_inventory_batch_on_chain batch_token_id amount_units claimant_wallet retirement_reference
        beneficiary_ref_hash purpose now =
      call (
        Mock.retire_inventory_batch sha256 batch_token_id amount_units claimant_wallet
          retirement_reference beneficiary_ref_hash purpose now)
