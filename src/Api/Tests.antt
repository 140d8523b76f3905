-- ===== src/Api/Tests.antt =====
-- Requests on a small ledger.
use hec_mvp.Base.{
  ℕ, ◌+◌, ◌*◌, ◌/◌, ◌≤◌, ◌≡◌, refl, ◌≢◌, none, some, List, [], ◌∷◌, nat_eq, string_eq, total,
}
use hec_mvp.Base.Text.{str}
use hec_mvp.Ledger.{InventoryPosition, PositionStatus, Db}
use hec_mvp.Ledger.Books.{IsBooked}
use hec_mvp.Ledger.Samples.{shop, shop-IsBooked, purse}
use hec_mvp.Chain.{Chain, init, unit_scale}
use hec_mvp.Chain.Mock.Invariant.{IsValid, init-IsValid, issues, run, run-IsValid}
use hec_mvp.Chain.Mock.Totals.{all_retired}
use hec_mvp.Chain.Provider.{mock}
use hec_mvp.Ipfs.{Kind}
use hec_mvp.World.{World, Host, text_digest}
use hec_mvp.Lot.{LotManifest}
use hec_mvp.Api.{Request, creates, buys, burns, burn_hecs, serve_all}
use hec_mvp.Api.Laws.{AllDraw, burn_hecs-Loses, serve_all-IsBooked}

abbrev host : Host
host = record {
  sha256 = λ bytes. str (total (λ b. b) bytes);
  utf8 = λ s. 1 ∷ [];
  float_sum = total (λ e. e);
}

abbrev dumps : LotManifest → List ℕ
dumps m = m.lot_id ∷ m.quantity ∷ []

abbrev share : ℕ → ℕ → ℕ → ℕ
share energy quantity part = energy * part / quantity

-- A chain on which the sample's lot has its batch.
abbrev one_batch : Chain
one_batch = run (text_digest host) init (issues "bb" "QmM" 10 20 2000 "M" "1.0" 30 ∷ [])

one_batch-IsValid : IsValid one_batch
one_batch-IsValid =
    run-IsValid (text_digest host) init (issues "bb" "QmM" 10 20 2000 "M" "1.0" 30 ∷ [])
      init-IsValid

-- The holder has bought both certificates of the sample's lot.
abbrev holding : InventoryPosition
holding = record {
  position_id = 901;
  wallet_id = 11;
  user_id = 1;
  lot_id = 7;
  transaction_id = some 900;
  quantity = 2;
  available_quantity = 2;
  retired_quantity = 0;
  energy_kwh_total = 300000;
  energy_kwh_available = 300000;
  source_hec_ids = 102 ∷ 101 ∷ [];
  status = PositionStatus.active;
  created_at = 500;
}

abbrev holder : Db
holder = record shop { wallets = record purse { hec_balance = 2 } ∷ []; positions = holding ∷ [] }

abbrev world : Db → World
world db = record {
  db = db;
  provider = mock one_batch;
  ipfs = record { kind = Kind.mock; objects = []; pinned = [] };
}

abbrev burnt : ℕ × World
burnt = burn_hecs host dumps str share 1 1 "offset" none none (some "op") 950 600 600 (world holder)

burn_hecs-Loses_example :
    (burnt.0 ≢ 201)
    × (burnt.1.db ≡ holder)
    × ((d : Chain) × (spent : ℕ) × (burnt.1.provider ≡ mock d)
        × IsValid d
        × (spent ≤ 1)
        × (all_retired d ≡ all_retired one_batch + spent * unit_scale)
        × (burnt.0 ≡ 500 → spent ≡ 1))
burn_hecs-Loses_example =
    burn_hecs-Loses host dumps str share 1 1 "offset" none none (some "op") 950 600 600 one_batch
      (world holder) refl one_batch-IsValid

abbrev requests : List Request
requests =
    creates (103 ∷ []) "Lot" none (some 4000) 8 600
    ∷ buys 1 7 1 900 901 610
    ∷ burns 1 1 "offset" none none none 950 620 620
    ∷ []

requests-AllDraw : AllDraw host dumps str share (world shop) requests
requests-AllDraw = (record { unlisted = refl; unreferenced = refl }, (tt, (tt, tt)))

serve_all-IsBooked_example : IsBooked (serve_all host dumps str share (world shop) requests).db
serve_all-IsBooked_example =
    serve_all-IsBooked host dumps str share (world shop) requests shop-IsBooked requests-AllDraw
