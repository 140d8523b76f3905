-- ===== src/Chain/Mock/Totals.antt =====
-- All units that the in-memory chain has retired.
use hec_mvp.Base.{
  ℕ, ◌+◌, String, ◌≡◌, ◌⊎◌, inl, inr, Option, arith, Option-cases, nat_eq, string_eq, total,
}
use hec_mvp.Base.Dict.{lookup, total-insert_new}
use hec_mvp.Base.Result.{Exn, ok, err, Refuses, Result-cases}
use hec_mvp.Chain.{Retirement, Chain, RetirementExecutionResult}
use hec_mvp.Chain.Mock.{retire_inventory_batch, record_retirement}
use hec_mvp.Chain.Mock.Cases.{retire_cases}
use hec_mvp.Chain.Mock.Invariant.{IsValid, retire-IsValid}

abbrev amount_of : ℕ × Retirement → ℕ
amount_of (i, r) = r.amount_units

abbrev pub all_retired : Chain → ℕ
all_retired c = total amount_of c.retirements

-- A retirement is refused and changes nothing, or adds its amount to the units retired.
pub retire_adds :
    (sha256 : String → String) (b n : ℕ) (claimant : Option String) (reference : String)
    (beneficiary : Option String) (purpose : String) (now : ℕ) (c : Chain)
    → IsValid c
    → let o = retire_inventory_batch sha256 b n claimant reference beneficiary purpose now c in
      Refuses c o
      ⊎ ((r : RetirementExecutionResult) × (o.0 ≡ ok r)
          × (all_retired o.1 ≡ all_retired c + n)
          × IsValid o.1)
unfolding record_retirement
retire_adds sha256 b n claimant reference beneficiary purpose now c v =
    elim (retire_cases sha256 b n claimant reference beneficiary purpose now c) [
      | inl (refused, _) ↦ inl refused
      | inr (x, found, _, covered, e) ↦
          let stays = retire-IsValid sha256 b n claimant reference beneficiary purpose now c v in
          elim (Result-cases
            (retire_inventory_batch sha256 b n claimant reference beneficiary purpose now c).0) [
              | inl (y, failed) ↦ absurd (ground arith)
              | inr (r, done) ↦
                  inr (
                    r,
                    done,
                    grind (arith, e, total-insert_new, v.fresh c.next_retirement_id),
                    stays,
                  )
            ]
    ]

-- What a refused retirement raises.
pub retire-errors :
    (sha256 : String → String) (b n : ℕ) (claimant : Option String) (reference : String)
    (beneficiary : Option String) (purpose : String) (now : ℕ) (c : Chain) (e : Exn)
    → (retire_inventory_batch sha256 b n claimant reference beneficiary purpose now c).0 ≡ err e
    → (e ≡ Exn.batch_not_found) ⊎ (e ≡ Exn.no_amount) ⊎ (e ≡ Exn.insufficient_units)
unfolding retire_inventory_batch record_retirement
retire-errors sha256 b n claimant reference beneficiary purpose now c e h =
    elim (Option-cases (lookup b c.inventory_batches)) [
      | inl missing ↦ inl (ground arith)
      | inr (x, there) ↦ inr (ground arith)
    ]
