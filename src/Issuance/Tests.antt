-- ===== src/Issuance/Tests.antt =====
-- An issuance from a small ledger.
use hec_mvp.Base.{
  ℕ, String, ◌≡◌, refl, ◌≢◌, ◌⊎◌, true, false, List, [], ◌∷◌, arith, text_beq, eq_iff, ◌==◌,
  if◌then◌else◌, nat_eq, string_eq, total,
}
use hec_mvp.Base.Result.{Result, is_ok}
use hec_mvp.Ledger.{Validation, ValidationStatus}
use hec_mvp.Ledger.Samples.{shop}
use hec_mvp.Chain.{init}
use hec_mvp.Chain.Provider.{mock}
use hec_mvp.Ipfs.{Kind, cid_of}
use hec_mvp.World.{World, Host}
use hec_mvp.Issuance.{HecIssuanceResult, issue_hec}
use hec_mvp.Issuance.Laws.{Issues, issue_hec-Issues}

-- A stand-in for the digest, which tells documents apart by their first byte.
abbrev first_byte : List ℕ → String
first_byte [] = ""
first_byte (b ∷ bs) = if b == 1 then "document" else "drawing"

abbrev host : Host
host = record { sha256 = first_byte; utf8 = λ s. 1 ∷ []; float_sum = total (λ e. e) }

abbrev certificate : ℕ → Validation → ℕ → List ℕ
certificate id v t = 1 ∷ id ∷ v.energy_kwh ∷ t ∷ []

abbrev pdf : List ℕ → String → List ℕ
pdf json hash = 2 ∷ json

abbrev passed : Validation
passed = record {
  validation_id = 31;
  plant_id = 5;
  period_start = 10;
  period_end = 20;
  energy_kwh = 150000;
  status = ValidationStatus.approved;
}

abbrev world : World
world = record {
  db = shop;
  provider = mock init;
  ipfs = record { kind = Kind.mock; objects = []; pinned = [] };
}

abbrev made : Result HecIssuanceResult × World
made = issue_hec host certificate pdf 104 5 passed 40 41 world

cids-apart :
    cid_of first_byte (certificate 104 passed 40)
    ≢ cid_of first_byte (pdf (certificate 104 passed 40) "document")
unfolding cid_of
cids-apart e =
    let clash : text_beq "Qmdocument" "Qmdrawing" ≡ true =
      ground (arith, e, eq_iff "Qmdocument" "Qmdrawing") in
    cc

issue_hec-Issues_example :
    (is_ok made.0 ≡ false) × (made.1.db ≡ shop) ⊎ Issues first_byte 104 world made
issue_hec-Issues_example =
    issue_hec-Issues host certificate pdf 104 5 passed 40 41 init world refl refl cids-apart
