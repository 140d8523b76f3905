-- ===== src/Chain/Mock/Invariant.antt =====
-- What holds of every state of the in-memory chain, after any sequence of calls.
use hec_mvp.Base.{
  ℕ, ◌+◌, ◌≤◌, ◌<◌, String, ◌≡◌, refl, sym, subst, inl, inr, Option, none, some, List, [], ◌∷◌,
  arith, eq_iff, ◌==◌, if◌then◌else◌, Option-cases, nat_eq, string_eq, total,
}
use hec_mvp.Base.Dict.{lookup, lookup-insert, total-insert_new}
use hec_mvp.Base.Result.{Refuses-keeps}
use hec_mvp.Chain.{Batch, Retirement, Chain, init}
use hec_mvp.Chain.Mock.{
  register, issue_inventory_batch, retire_inventory_batch, record_registration, record_batch,
  record_retirement, clear,
}
use hec_mvp.Chain.Mock.Cases.{register_cases, issue_cases, retire_cases}

-- The units that the ledger of retirements counts against a batch.
abbrev pub units_against : ℕ → ℕ × Retirement → ℕ
units_against b (i, r) = if r.batch_token_id == b then r.amount_units else 0

abbrev pub retired_of : ℕ → Chain → ℕ
retired_of b c = total (units_against b) c.retirements

abbrev pub hash_at : Option Batch → Option String
hash_at none = none
hash_at (some x) = some x.batch_hash

-- What holds of a batch that is on the chain.
pub record IsSound (c : Chain) (b : ℕ) (x : Batch) : Type 0 where
  pub numbered : b < c.next_batch_id
  pub covered : x.retired_units ≤ x.total_units
  pub accounted : retired_of b c ≡ x.retired_units

pub record IsValid (c : Chain) : Type 0 where
  pub sound : (b : ℕ) (x : Batch) → lookup b c.inventory_batches ≡ some x → IsSound c b x
  pub unknown : (b : ℕ) → lookup b c.inventory_batches ≡ none → retired_of b c ≡ 0
  pub fresh : (i : ℕ) → c.next_retirement_id ≤ i → lookup i c.retirements ≡ none
  pub receipts : c.next_receipt_id ≡ c.next_retirement_id
  pub stamped : (i : ℕ) (r : Retirement) → lookup i c.retirements ≡ some r → r.receipt_token_id ≡ i
  pub indexed :
      (h : String) (b : ℕ)
      → lookup h c.inventory_by_hash ≡ some b
      → hash_at (lookup b c.inventory_batches) ≡ some h

pub init-IsValid : IsValid init
init-IsValid = record {
  sound = λ b x h. cc;
  unknown = λ b h. refl;
  fresh = λ i h. refl;
  receipts = refl;
  stamped = λ i r e. cc;
  indexed = λ h b e. cc;
}

clear-IsValid : (c : Chain) → IsValid (clear c)
unfolding clear
clear-IsValid c = record {
  sound = λ b x h. cc;
  unknown = λ b h. refl;
  fresh = λ i h. refl;
  receipts = refl;
  stamped = λ i r e. cc;
  indexed = λ h b e. cc;
}

above :
    (c : Chain) → IsValid c → (b : ℕ) → c.next_batch_id ≤ b → lookup b c.inventory_batches ≡ none
above c v b h = elim (Option-cases (lookup b c.inventory_batches)) [
  | inl e ↦ e
  | inr (x, e) ↦ absurd (let s = v.sound b x e in omega arith)
]

module _ (sha256 : String → String) where
  record_registration-IsValid :
      (h cid : String) (now : ℕ) (c : Chain)
      → IsValid c
      → IsValid (record_registration sha256 h cid now c).1
  unfolding record_registration
  record_registration-IsValid h cid now c v = record {
    sound = λ b x e.
        (let s = v.sound b x e in
          record { numbered = s.numbered; covered = s.covered; accounted = s.accounted });
    unknown = v.unknown;
    fresh = v.fresh;
    receipts = v.receipts;
    stamped = v.stamped;
    indexed = v.indexed;
  }

  record_batch-IsSound :
      (hash cid : String) (start end units : ℕ) (method schema : String) (now : ℕ) (c : Chain)
      → IsValid c
      → let d = (record_batch sha256 hash cid start end units method schema now c).1 in
        (b : ℕ) (x : Batch) → lookup b d.inventory_batches ≡ some x → IsSound d b x
  unfolding record_batch
  record_batch-IsSound hash cid start end units method schema now c v b x e =
      let n = c.next_batch_id in
      grind (arith, lookup-insert, above c v n, v.sound b x, v.unknown b, v.unknown n)

  record_batch-IsValid :
      (hash cid : String) (start end units : ℕ) (method schema : String) (now : ℕ) (c : Chain)
      → IsValid c
      → IsValid (record_batch sha256 hash cid start end units method schema now c).1
  unfolding record_batch
  record_batch-IsValid hash cid start end units method schema now c v =
      let n = c.next_batch_id in
      record {
        sound = record_batch-IsSound hash cid start end units method schema now c v;
        unknown = λ b e. grind (arith, lookup-insert, v.unknown b);
        fresh = v.fresh;
        receipts = v.receipts;
        stamped = v.stamped;
        indexed = λ h b e. grind (arith, lookup-insert, eq_iff hash h, v.indexed h b, above c v n);
      }

  record_retirement-IsSound :
      (x : Batch) (b n : ℕ) (claimant : Option String) (reference : String)
      (beneficiary : Option String) (purpose : String) (now : ℕ) (c : Chain)
      → IsValid c
      → lookup b c.inventory_batches ≡ some x
      → x.retired_units + n ≤ x.total_units
      → let d = (record_retirement sha256 x b n claimant reference beneficiary purpose now c).1 in
        (j : ℕ) (y : Batch) → lookup j d.inventory_batches ≡ some y → IsSound d j y
  unfolding record_retirement
  record_retirement-IsSound x b n claimant reference beneficiary purpose now c v found covered j y
        e =
      grind (
        arith,
        lookup-insert,
        total-insert_new,
        v.fresh c.next_retirement_id,
        v.sound b x,
        v.sound j y,
      )

  record_retirement-IsValid :
      (x : Batch) (b n : ℕ) (claimant : Option String) (reference : String)
      (beneficiary : Option String) (purpose : String) (now : ℕ) (c : Chain)
      → IsValid c
      → lookup b c.inventory_batches ≡ some x
      → x.retired_units + n ≤ x.total_units
      → IsValid (record_retirement sha256 x b n claimant reference beneficiary purpose now c).1
  unfolding record_retirement
  record_retirement-IsValid x b n claimant reference beneficiary purpose now c v found covered =
      record {
        sound =
            record_retirement-IsSound x b n claimant reference beneficiary purpose now c v found
              covered;
        unknown = λ j e.
            grind
              (arith, lookup-insert, total-insert_new, v.fresh c.next_retirement_id, v.unknown j);
        fresh = λ i h. grind (arith, lookup-insert, v.fresh i);
        receipts = omega (arith, v.receipts);
        stamped = λ i r e. grind (arith, lookup-insert, v.receipts, v.stamped i r);
        indexed = λ h j e. grind (arith, lookup-insert, v.indexed h j);
      }

-- A call of one of the methods that write, with what the clock reads.
pub data Call : Type 0 where
  registers : String → String → ℕ → Call
  issues : String → String → ℕ → ℕ → ℕ → String → String → ℕ → Call
  retires : ℕ → ℕ → Option String → String → Option String → String → ℕ → Call
  clears : Call

module _ (sha256 : String → String) where
  pub step : Chain → Call → Chain
  step c (registers h cid now) = (register sha256 h cid now c).1
  step c (issues h cid start end units method schema now) =
      (issue_inventory_batch sha256 h cid start end units method schema now c).1
  step c (retires b n claimant reference beneficiary purpose now) =
      (retire_inventory_batch sha256 b n claimant reference beneficiary purpose now c).1
  step c clears = clear c

  pub run : Chain → List Call → Chain
  run c [] = c
  run c (x ∷ xs) = run (step c x) xs

  step-IsValid : (c : Chain) (x : Call) → IsValid c → IsValid (step c x)
  unfolding step
  step-IsValid c (registers h cid now) v = elim (register_cases sha256 h cid now c) [
    | inl refused ↦ Refuses-keeps IsValid c _ refused v
    | inr (_, _, _, e) ↦
        subst (λ o. IsValid o.1) (sym e) (record_registration-IsValid sha256 h cid now c v)
  ]
  step-IsValid c (issues h cid start end units method schema now) v =
      elim (issue_cases sha256 h cid start end units method schema now c) [
        | inl refused ↦ Refuses-keeps IsValid c _ refused v
        | inr (_, _, _, _, _, e) ↦
            subst (λ o. IsValid o.1) (sym e)
              (record_batch-IsValid sha256 h cid start end units method schema now c v)
      ]
  step-IsValid c (retires b n claimant reference beneficiary purpose now) v =
      elim (retire_cases sha256 b n claimant reference beneficiary purpose now c) [
        | inl (refused, _) ↦ Refuses-keeps IsValid c _ refused v
        | inr (x, found, _, covered, e) ↦
            subst (λ o. IsValid o.1) (sym e)
              (record_retirement-IsValid sha256 x b n claimant reference beneficiary purpose now c v
                found covered)
      ]
  step-IsValid c clears v = clear-IsValid c

  pub retire-IsValid :
      (b n : ℕ) (claimant : Option String) (reference : String) (beneficiary : Option String)
      (purpose : String) (now : ℕ) (c : Chain)
      → IsValid c
      → IsValid (retire_inventory_batch sha256 b n claimant reference beneficiary purpose now c).1
  unfolding step
  retire-IsValid b n claimant reference beneficiary purpose now c v =
      step-IsValid c (retires b n claimant reference beneficiary purpose now) v

  -- From a valid state, any sequence of calls, refused ones among them, leads to a valid state: no
  -- batch has more units retired than issued, the retirements on record account for every retired
  -- unit and carry their own number as the receipt's, no retirement is on record under a number that is
  -- still to be given out, and each batch hash leads to its batch.
  pub run-IsValid : (c : Chain) (xs : List Call) → IsValid c → IsValid (run c xs)
  unfolding run
  run-IsValid c [] v = v
  run-IsValid c (x ∷ xs) v = run-IsValid (step c x) xs (step-IsValid c x v)
