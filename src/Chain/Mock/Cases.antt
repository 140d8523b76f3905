-- ===== src/Chain/Mock/Cases.antt =====
-- Each operation of the in-memory chain either refuses and writes nothing, or all its guards hold
-- and it makes its writes.
use hec_mvp.Base.{
  ℕ, ◌+◌, ◌-◌, ◌≤◌, ◌<◌, String, ◌≡◌, refl, ◌⊎◌, inl, inr, false, Option, none, some, arith,
  text_beq, Option-cases, nat_eq, string_eq, is_empty,
}
use hec_mvp.Base.Dict.{lookup}
use hec_mvp.Base.Result.{Refuses}
use hec_mvp.Chain.{Batch, Chain, zero_digest}
use hec_mvp.Chain.Mock.{
  register, issue_inventory_batch, retire_inventory_batch, record_registration, record_batch,
  record_retirement,
}

-- A text that neither `not text` nor the comparison with sixty-four zeros refuses.
abbrev pub IsDigest : String → Type 0
IsDigest h = (is_empty h ≡ false) × (text_beq h zero_digest ≡ false)

-- The units of a batch that are not yet retired; of a batch that is not there, none.
abbrev pub left_of : Option Batch → ℕ
left_of none = 0
left_of (some x) = x.total_units - x.retired_units

module _ (sha256 : String → String) where
  pub register_cases :
      (h cid : String) (now : ℕ) (c : Chain)
      → Refuses c (register sha256 h cid now c)
        ⊎ (IsDigest h
            × (is_empty cid ≡ false)
            × (lookup h c.certificate_registry ≡ none)
            × (register sha256 h cid now c ≡ record_registration sha256 h cid now c))
  unfolding register
  register_cases h cid now c = ground arith

  pub issue_cases :
      (h cid : String) (start end units : ℕ) (method schema : String) (now : ℕ) (c : Chain)
      → Refuses c (issue_inventory_batch sha256 h cid start end units method schema now c)
        ⊎ (IsDigest h
            × (lookup h c.inventory_by_hash ≡ none)
            × (is_empty cid ≡ false)
            × (0 < units)
            × (start ≤ end)
            × (issue_inventory_batch sha256 h cid start end units method schema now c
                ≡ record_batch sha256 h cid start end units method schema now c))
  unfolding issue_inventory_batch
  issue_cases h cid start end units method schema now c = ground arith

  pub retire_cases :
      (b n : ℕ) (claimant : Option String) (reference : String) (beneficiary : Option String)
      (purpose : String) (now : ℕ) (c : Chain)
      → Refuses c (retire_inventory_batch sha256 b n claimant reference beneficiary purpose now c)
          × ((0 < n) × (n ≤ left_of (lookup b c.inventory_batches)) → ⊥)
        ⊎ ((x : Batch) × (lookup b c.inventory_batches ≡ some x)
            × (0 < n)
            × (x.retired_units + n ≤ x.total_units)
            × (retire_inventory_batch sha256 b n claimant reference beneficiary purpose now c
                ≡ record_retirement sha256 x b n claimant reference beneficiary purpose now c))
  unfolding retire_inventory_batch
  retire_cases b n claimant reference beneficiary purpose now c =
      elim (Option-cases (lookup b c.inventory_batches)) [
        | inl e ↦ rw e (inl (refl, λ h. omega arith))
        | inr (x, e) ↦ ground arith
      ]
