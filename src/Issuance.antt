-- ===== src/Issuance.antt =====
-- app/hec_generator.py: `issue_hec`, which makes a certificate of an approved validation. `certificate`
-- stands for the canonical bytes of the document that `build_certificate_json` makes of the plant, the
-- validation and the time, `pdf` for the drawing.
pub mod Laws
pub mod Tests
use hec_mvp.Base.{
  ℕ, ◌+◌, ◌-◌, ◌/◌, String, not, none, some, List, [], ◌∷◌, ◌++◌, if◌then◌else◌, nat_eq, string_eq,
  is_empty,
}
use hec_mvp.Base.Result.{Exn, Action, pure, raise_if, modify, ◌>>=◌, ◌>>◌}
use hec_mvp.Ledger.{HecStatus, Validation, HecCertificate, is_approved}
use hec_mvp.Chain.{RegistrationResult}
use hec_mvp.Chain.Provider.{register_on_chain}
use hec_mvp.Ipfs.{IpfsUploadResult, upload_certificate_to_ipfs}
use hec_mvp.World.{World, Host, text_digest, on_db, on_chain, on_ipfs}

-- The result, without the document and the drawing.
pub record HecIssuanceResult : Type 0 where
  pub hec_id : ℕ
  pub validation_id : ℕ
  pub plant_id : ℕ
  pub energy_kwh : ℕ
  pub certificate_hash : String
  pub status : HecStatus
  pub issued_at : ℕ
  pub ipfs_json_cid : String
  pub ipfs_pdf_cid : String
  pub ipfs_provider : String
  pub registry_tx_hash : String
  pub registry_block : ℕ
  pub contract_address : String
  pub registered_at : ℕ

unfoldable pub final_status : RegistrationResult → HecStatus
final_status r = if is_empty r.tx_hash then HecStatus.pending else HecStatus.registered

-- The new row of `hec_certificates`, with its default creation time.
unfoldable pub new_hec :
    ℕ → Validation → String → ℕ → ℕ → IpfsUploadResult → RegistrationResult → HecCertificate
new_hec hec_id validation cert_hash issued_at now uploaded r = record {
  hec_id = hec_id;
  validation_id = validation.validation_id;
  lot_id = none;
  hash_sha256 = cert_hash;
  energy_kwh = validation.energy_kwh;
  contract_address = some r.contract_address;
  chain = some r.chain;
  ipfs_json_cid = some uploaded.json_cid;
  ipfs_pdf_cid = some uploaded.pdf_cid;
  ipfs_provider = some uploaded.provider;
  registry_tx_hash = some r.tx_hash;
  registry_block = some r.block_number;
  registered_at = some r.registered_at;
  status = final_status r;
  minted_at = issued_at;
  created_at = now;
}

module _ (host : Host) (certificate : ℕ → Validation → ℕ → List ℕ)
    (pdf : List ℕ → String → List ℕ) where
  unfoldable pub issue_hec : ℕ → ℕ → Validation → ℕ → ℕ → Action World HecIssuanceResult
  issue_hec hec_id plant_id validation issued_at now = do
    raise_if (not (is_approved validation.status)) Exn.not_approved
    let json = certificate hec_id validation issued_at
    let cert_hash = host.sha256 json
    uploaded ← on_ipfs (upload_certificate_to_ipfs host.sha256 json (pdf json cert_hash))
    r ← on_chain (register_on_chain (text_digest host) cert_hash uploaded.json_cid now)
    let row = new_hec hec_id validation cert_hash issued_at now uploaded r
    on_db (modify (λ db. record db { hecs = db.hecs ++ row ∷ [] }))
    pure (record {
      hec_id = hec_id;
      validation_id = validation.validation_id;
      plant_id = plant_id;
      energy_kwh = validation.energy_kwh;
      certificate_hash = cert_hash;
      status = final_status r;
      issued_at = issued_at;
      ipfs_json_cid = uploaded.json_cid;
      ipfs_pdf_cid = uploaded.pdf_cid;
      ipfs_provider = uploaded.provider;
      registry_tx_hash = r.tx_hash;
      registry_block = r.block_number;
      contract_address = r.contract_address;
      registered_at = r.registered_at;
    })
