-- ===== src/Chain/Mock.antt =====
-- The methods of `MockBlockchainProvider` in app/blockchain.py. `sha256` stands for hashlib's hex
-- digest of a text. Nothing but `block_number` and the tables is written, and only past the guards.
mod Cases
pub mod Totals
pub mod Tests
pub mod Invariant
pub mod Registry
pub mod Batches
use Prim.Native.String.{◌++◌ as text_append}
use hec_mvp.Base.Text.{str}
use hec_mvp.Base.{
  ℕ, ◌+◌, ◌-◌, ◌/◌, String, true, false, ◌||◌, Option, none, some, [], text_beq, ltb, ◌==◌, nat_eq,
  string_eq, is_empty, length,
}
use hec_mvp.Base.Dict.{lookup, contains, insert}
use hec_mvp.Base.Result.{Exn, ok, Action, gets, or_raise, raise_if, ◌>>=◌, ◌>>◌}
use hec_mvp.Chain.{
  RegistrationResult, OnChainVerifyResult, InventoryBatchIssuanceResult, RetirementExecutionResult,
  Registration, Batch, Chain, zero_digest,
}

-- The property `total_registered`.
pub total_registered : Chain → ℕ
total_registered c = length c.certificate_registry

-- The counter of blocks is kept.
pub clear : Chain → Chain
clear c = record c {
  certificate_registry = [];
  inventory_by_hash = [];
  inventory_batches = [];
  retirements = [];
  next_batch_id = 1;
  next_retirement_id = 1;
  next_receipt_id = 1;
}

found_as : Chain → String → Option Registration → OnChainVerifyResult
found_as c certificate_hash_hex none = record {
  found = false;
  certificate_hash = certificate_hash_hex;
  ipfs_cid = "";
  registered_at = 0;
  block_number = 0;
  contract_address = c.contract_addr;
  chain = c.chain_name;
  provider = "mock";
}
found_as c certificate_hash_hex (some r) = record {
  found = true;
  certificate_hash = certificate_hash_hex;
  ipfs_cid = r.ipfs_cid;
  registered_at = r.registered_at;
  block_number = r.block_number;
  contract_address = c.contract_addr;
  chain = c.chain_name;
  provider = "mock";
}

pub verify : Chain → String → OnChainVerifyResult
unfolding found_as
verify c certificate_hash_hex =
    found_as c certificate_hash_hex (lookup certificate_hash_hex c.certificate_registry)

module _ (sha256 : String → String) where
  -- `_next_tx_hash`
  unfoldable pub next_tx_hash : String → String → Chain → String
  next_tx_hash namespace seed c = text_append "0x" (
      sha256 (
        text_append namespace
          (text_append ":" (text_append seed (text_append ":" (str c.block_number))))))

  -- The writes of `register`, once its guards have passed.
  unfoldable pub record_registration : String → String → ℕ → Action Chain RegistrationResult
  record_registration certificate_hash_hex ipfs_cid now c =
      let c1 = record c { block_number = c.block_number + 1 } in
      let tx_hash : String = next_tx_hash "register" certificate_hash_hex c1 in
      (
        ok (record {
          tx_hash = tx_hash;
          block_number = c1.block_number;
          contract_address = c1.contract_addr;
          chain = c1.chain_name;
          certificate_hash = certificate_hash_hex;
          ipfs_cid = ipfs_cid;
          gas_used = c1.gas_base;
          registered_at = now;
          provider = "mock";
        }),
        record c1 {
          certificate_registry =
              insert certificate_hash_hex
                (record {
                  certificate_hash = certificate_hash_hex;
                  ipfs_cid = ipfs_cid;
                  tx_hash = tx_hash;
                  block_number = c1.block_number;
                  registered_at = now;
                  gas_used = c1.gas_base;
                })
                c1.certificate_registry;
        },
      )

  unfoldable pub register : String → String → ℕ → Action Chain RegistrationResult
  register certificate_hash_hex ipfs_cid now = do
    raise_if (is_empty certificate_hash_hex || text_beq certificate_hash_hex zero_digest)
        Exn.zero_hash
    raise_if (is_empty ipfs_cid) Exn.empty_cid
    known ← gets (λ c. contains certificate_hash_hex c.certificate_registry)
    raise_if known Exn.hash_registered
    record_registration certificate_hash_hex ipfs_cid now

  -- The writes of `issue_inventory_batch`, once its guards have passed.
  pub record_batch :
      String → String → ℕ → ℕ → ℕ → String → String → ℕ → Action Chain InventoryBatchIssuanceResult
  record_batch batch_hash_hex manifest_cid period_start period_end total_units methodology_version
        schema_version now c =
      let batch_token_id : ℕ = c.next_batch_id in
      let c1 = record c {
        block_number = c.block_number + 1;
        next_batch_id = c.next_batch_id + 1;
      } in
      let tx_hash : String = next_tx_hash "issue_batch" batch_hash_hex c1 in
      (
        ok (record {
          tx_hash = tx_hash;
          block_number = c1.block_number;
          contract_address = c1.contract_addr;
          chain = c1.chain_name;
          batch_hash = batch_hash_hex;
          batch_token_id = batch_token_id;
          total_units = total_units;
          manifest_cid = manifest_cid;
          period_start = period_start;
          period_end = period_end;
          methodology_version = methodology_version;
          schema_version = schema_version;
          issued_at = now;
          provider = "mock";
        }),
        record c1 {
          inventory_by_hash = insert batch_hash_hex batch_token_id c1.inventory_by_hash;
          inventory_batches =
              insert batch_token_id
                (record {
                  batch_hash = batch_hash_hex;
                  manifest_cid = manifest_cid;
                  period_start = period_start;
                  period_end = period_end;
                  total_units = total_units;
                  retired_units = 0;
                  methodology_version = methodology_version;
                  schema_version = schema_version;
                  tx_hash = tx_hash;
                  block_number = c1.block_number;
                  issued_at = now;
                  status = "issued";
                })
                c1.inventory_batches;
        },
      )

  pub issue_inventory_batch :
      String → String → ℕ → ℕ → ℕ → String → String → ℕ → Action Chain InventoryBatchIssuanceResult
  issue_inventory_batch batch_hash_hex manifest_cid period_start period_end total_units
        methodology_version schema_version now =
      do
        raise_if (is_empty batch_hash_hex || text_beq batch_hash_hex zero_digest)
            Exn.zero_batch_hash
        issued ← gets (λ c. contains batch_hash_hex c.inventory_by_hash)
        raise_if issued Exn.batch_issued
        raise_if (is_empty manifest_cid) Exn.empty_manifest
        raise_if (total_units == 0) Exn.no_units
        raise_if (ltb period_end period_start) Exn.bad_period
        record_batch batch_hash_hex manifest_cid period_start period_end total_units
            methodology_version schema_version now

  -- The writes of `retire_inventory_batch`, once its guards have passed.
  pub record_retirement :
      Batch
      → ℕ
      → ℕ
      → Option String
      → String
      → Option String
      → String
      → ℕ
      → Action Chain RetirementExecutionResult
  record_retirement batch batch_token_id amount_units claimant_wallet retirement_reference
        beneficiary_ref_hash purpose now c =
      let retirement_id : ℕ = c.next_retirement_id in
      let receipt_token_id : ℕ = c.next_receipt_id in
      let c1 = record c {
        block_number = c.block_number + 1;
        next_retirement_id = c.next_retirement_id + 1;
        next_receipt_id = c.next_receipt_id + 1;
      } in
      let tx_hash : String =
        next_tx_hash "retire_batch"
          (text_append (str batch_token_id) (
            text_append ":"
              (text_append (str amount_units) (text_append ":" retirement_reference))))
          c1 in
      (
        ok (record {
          tx_hash = tx_hash;
          block_number = c1.block_number;
          contract_address = c1.contract_addr;
          chain = c1.chain_name;
          batch_token_id = batch_token_id;
          retirement_id = retirement_id;
          receipt_token_id = receipt_token_id;
          amount_units = amount_units;
          claimant_wallet = claimant_wallet;
          retirement_reference = retirement_reference;
          beneficiary_ref_hash = beneficiary_ref_hash;
          purpose = purpose;
          retired_at = now;
          provider = "mock";
        }),
        record c1 {
          inventory_batches =
              insert batch_token_id
                (record batch { retired_units = batch.retired_units + amount_units })
                c1.inventory_batches;
          retirements =
              insert retirement_id
                (record {
                  batch_token_id = batch_token_id;
                  amount_units = amount_units;
                  claimant_wallet = claimant_wallet;
                  retirement_reference = retirement_reference;
                  beneficiary_ref_hash = beneficiary_ref_hash;
                  purpose = purpose;
                  receipt_token_id = receipt_token_id;
                  tx_hash = tx_hash;
                  block_number = c1.block_number;
                  retired_at = now;
                })
                c1.retirements;
        },
      )

  pub retire_inventory_batch :
      ℕ
      → ℕ
      → Option String
      → String
      → Option String
      → String
      → ℕ
      → Action Chain RetirementExecutionResult
  retire_inventory_batch batch_token_id amount_units claimant_wallet retirement_reference
        beneficiary_ref_hash purpose now =
      do
        stored ← gets (λ c. lookup batch_token_id c.inventory_batches)
        batch ← or_raise stored Exn.batch_not_found
        raise_if (amount_units == 0) Exn.no_amount
        raise_if (ltb batch.total_units (batch.retired_units + amount_units)) Exn.insufficient_units
        record_retirement batch batch_token_id amount_units claimant_wallet retirement_reference
            beneficiary_ref_hash purpose now
