-- ===== src/Chain/Mock/Batches.antt =====
-- Inventory batches of the in-memory chain: what issuing adds and what a retirement spends.
use hec_mvp.Base.{
  ℕ, ◌+◌, ◌≤◌, ◌<◌, String, ◌≡◌, refl, ◌≢◌, ◌⊎◌, inl, inr, Option, none, some, arith, nat_eq,
  string_eq,
}
use hec_mvp.Base.Dict.{lookup, lookup-insert, lookup-insert_self}
use hec_mvp.Base.Result.{Refuses, Result, ok, err}
use hec_mvp.Chain.{InventoryBatchIssuanceResult, RetirementExecutionResult, Chain}
use hec_mvp.Chain.Mock.{
  issue_inventory_batch, retire_inventory_batch, record_batch, record_retirement,
}
use hec_mvp.Chain.Mock.Cases.{left_of, issue_cases, retire_cases}

abbrev pub unretired : ℕ → Chain → ℕ
unretired b c = left_of (lookup b c.inventory_batches)

-- The batch and the amount of the retirement that a call's result names.
abbrev pub on_record : Result RetirementExecutionResult × Chain → Option (ℕ × ℕ)
on_record (err e, d) = none
on_record (ok r, d) = elim (lookup r.retirement_id d.retirements) [
  | none ↦ none
  | some s ↦ some (s.batch_token_id, s.amount_units)
]

-- The batch token that a call of `issue_inventory_batch` returns.
abbrev pub issued_id : Result InventoryBatchIssuanceResult × Chain → Option ℕ
issued_id (err e, d) = none
issued_id (ok r, d) = some r.batch_token_id

module _ (sha256 : String → String) where
  -- A retirement of no units, or of more than the batch has left, is refused and changes nothing.
  -- Any other goes through: the batch loses exactly that many units, every other batch keeps its
  -- own, and the retirement is on record under the number that the result names.
  pub retire_spends :
      (b n : ℕ) (claimant : Option String) (reference : String) (beneficiary : Option String)
      (purpose : String) (now j : ℕ) (c : Chain)
      → let o = retire_inventory_batch sha256 b n claimant reference beneficiary purpose now c in
        Refuses c o × ((0 < n) × (n ≤ unretired b c) → ⊥)
        ⊎ (0 < n)
          × (unretired b o.1 + n ≡ unretired b c)
          × (j ≢ b → unretired j o.1 ≡ unretired j c)
          × (on_record o ≡ some (b, n))
  unfolding record_retirement
  retire_spends b n claimant reference beneficiary purpose now j c =
      elim (retire_cases sha256 b n claimant reference beneficiary purpose now c) [
        | inl refused ↦ inl refused
        | inr (x, found, positive, covered, e) ↦ rw e (
            inr (
              positive,
              grind (arith, lookup-insert),
              grind (arith, lookup-insert),
              grind (arith, lookup-insert),
            ))
      ]

  -- Issuing either is refused and changes nothing, or creates a batch under the next token with all
  -- its units unretired, and leaves the units of every other batch as they were.
  pub issue_creates :
      (h cid : String) (start end units : ℕ) (method schema : String) (now j : ℕ) (c : Chain)
      → let o = issue_inventory_batch sha256 h cid start end units method schema now c in
        Refuses c o
        ⊎ (issued_id o ≡ some c.next_batch_id)
          × (unretired c.next_batch_id o.1 ≡ units)
          × (0 < units)
          × (lookup h c.inventory_by_hash ≡ none)
          × (lookup h o.1.inventory_by_hash ≡ some c.next_batch_id)
          × (j ≢ c.next_batch_id → unretired j o.1 ≡ unretired j c)
  unfolding record_batch
  issue_creates h cid start end units method schema now j c =
      elim (issue_cases sha256 h cid start end units method schema now c) [
        | inl refused ↦ inl refused
        | inr (digest, new, given, positive, period, e) ↦ rw e (
            inr (
              refl,
              grind (arith, lookup-insert),
              positive,
              new,
              lookup-insert_self h _ _,
              grind (arith, lookup-insert),
            ))
      ]
