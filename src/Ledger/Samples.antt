-- ===== src/Ledger/Samples.antt =====
-- A small custody ledger for runs of the services.
use hec_mvp.Base.{ℕ, refl, true, Option, none, some, [], ◌∷◌, arith, nat_eq, string_eq}
use hec_mvp.Ledger.{HecStatus, LotStatus, InventoryStatus, User, Wallet, HecCertificate, HecLot, Db}
use hec_mvp.Ledger.Books.{IsBooked}

abbrev pub buyer : User
buyer = record {
  user_id = 1;
  email = "ana@example.com";
  name = "Ana";
  password_hash = "x";
  role = "buyer";
  is_active = true;
  created_at = 500;
}

abbrev pub purse : Wallet
purse = record {
  wallet_id = 11;
  user_id = 1;
  wallet_address = some "0xabc";
  balance_brl = 1000000;
  hec_balance = 0;
  energy_balance_kwh = 0;
}

-- A registered certificate, made at `t`, with the lot and the status given.
abbrev pub certificate : ℕ → ℕ → Option ℕ → HecStatus → HecCertificate
certificate id t lot status = record {
  hec_id = id;
  validation_id = id;
  lot_id = lot;
  hash_sha256 = "aa";
  energy_kwh = 150000;
  contract_address = some "0x1";
  chain = some "polygon-amoy";
  ipfs_json_cid = some "QmA";
  ipfs_pdf_cid = some "QmB";
  ipfs_provider = some "mock";
  registry_tx_hash = some "0xt";
  registry_block = some 50000001;
  registered_at = some t;
  status = status;
  minted_at = t;
  created_at = t;
}

abbrev pub stock : HecLot
stock = record {
  lot_id = 7;
  name = "January";
  description = none;
  lot_manifest_cid = some "QmM";
  batch_hash = some "bb";
  onchain_batch_token_id = some 1;
  onchain_total_units = some 2000;
  onchain_issued_tx_hash = some "0xi";
  onchain_issued_block = some 50000002;
  custody_mode = "platform_custody";
  transferability_policy = "non_transferable";
  inventory_status = InventoryStatus.issued;
  total_energy_kwh = 300000;
  total_quantity = 2;
  available_quantity = 2;
  certificate_count = 2;
  price_per_kwh = some 5000;
  status = LotStatus.opened;
}

-- One lot with two certificates, one certificate in no lot, one buyer.
abbrev pub shop : Db
shop = record {
  users = buyer ∷ [];
  wallets = purse ∷ [];
  validations = [];
  hecs =
      certificate 101 20 (some 7) HecStatus.custodied
      ∷ certificate 102 10 (some 7) HecStatus.custodied
      ∷ certificate 103 30 none HecStatus.registered
      ∷ [];
  lots = stock ∷ [];
  positions = [];
  transactions = [];
}

pub shop-IsBooked : IsBooked shop
shop-IsBooked = record {
  hec_keys = (refl, (refl, (refl, tt)));
  lot_keys = (refl, tt);
  wallet_keys = (refl, tt);
  backed = λ k l e. ground arith;
  held = λ u w e. ground arith;
  balanced = tt;
}
