-- ===== src/Lot/Tests.antt =====
-- Lots created from a small ledger.
use hec_mvp.Base.{ℕ, ◌≡◌, refl, ◌⊎◌, false, none, some, List, [], ◌∷◌, nat_eq, string_eq, total}
use hec_mvp.Base.Result.{Result, ok, Refuses, is_ok}
use hec_mvp.Base.Text.{str}
use hec_mvp.Ledger.{HecCertificate}
use hec_mvp.Ledger.Samples.{shop}
use hec_mvp.Chain.{init}
use hec_mvp.Chain.Provider.{mock}
use hec_mvp.Ipfs.{Kind}
use hec_mvp.World.{World, Host}
use hec_mvp.Lot.{LotManifest, LotCreationResult, choose_hecs, create_lot}
use hec_mvp.Lot.Checks.{AreChosen, choose-AreChosen}
use hec_mvp.Lot.Books.{IsNewLot}
use hec_mvp.Lot.Creation.{Creates, create_lot-Creates}

abbrev host : Host
host = record {
  sha256 = λ bytes. str (total (λ b. b) bytes);
  utf8 = λ s. 1 ∷ [];
  float_sum = total (λ e. e);
}

abbrev dumps : LotManifest → List ℕ
dumps m = m.lot_id ∷ m.quantity ∷ []

abbrev world : World
world = record {
  db = shop;
  provider = mock init;
  ipfs = record { kind = Kind.mock; objects = []; pinned = [] };
}

abbrev created : Result LotCreationResult × World
created = create_lot host dumps (103 ∷ 103 ∷ []) "Lot" none (some 4000) 8 600 world

lot_8-IsNewLot : IsNewLot 8 shop
lot_8-IsNewLot = record { unlisted = refl; unreferenced = refl }

choose-AreChosen_example :
    Refuses shop (choose_hecs (103 ∷ 103 ∷ []) shop)
    ⊎ ((hecs : List HecCertificate) × (choose_hecs (103 ∷ 103 ∷ []) shop ≡ (ok hecs, shop))
        × AreChosen (103 ∷ 103 ∷ []) shop hecs)
choose-AreChosen_example = choose-AreChosen (103 ∷ 103 ∷ []) shop

create_lot-Creates_example :
    (is_ok created.0 ≡ false) × (created.1.db ≡ shop)
    ⊎ Creates 8 (103 ∷ 103 ∷ []) init world created
create_lot-Creates_example =
    create_lot-Creates host dumps 8 "Lot" none (some 4000) 600 (103 ∷ 103 ∷ []) init world refl
