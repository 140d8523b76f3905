-- ===== src/Burn/Laws.antt =====
-- What a burn as a whole does to the chain.
use hec_mvp.Base.{
  ℕ, ◌+◌, ◌*◌, ◌≤◌, String, ◌≡◌, refl, sym, subst, ◌⊎◌, inl, inr, true, false, Option, arith, ltb,
  ◌==◌, if◌then◌else◌, Bool-cases, Option-cases, nat_eq, string_eq, length, total,
}
use hec_mvp.Base.Result.{Exn, is_uncaught, Result, err, Action, Result-cases, ◌>>=◌}
use hec_mvp.Ledger.{Wallet, InventoryPosition}
use hec_mvp.Ledger.Books.{find_wallet}
use hec_mvp.Chain.{Chain, unit_scale}
use hec_mvp.Chain.Mock.Invariant.{IsValid}
use hec_mvp.Chain.Mock.Totals.{all_retired}
use hec_mvp.Chain.Provider.{mock}
use hec_mvp.World.{World, Host}
use hec_mvp.Burn.{
  is_bad_reason, Progress, retire_all, beginning, certify, terms_of, execute_burn, open_positions,
}
use hec_mvp.Burn.Loop.{Stops, retire_all-Stops}

-- A burn of `quantity` certificates that began on the chain `c` has retired `spent` of them there,
-- and all of them if it ended with the `TypeError`; it always raises.
pub record Loses (quantity : ℕ) (c : Chain) (o : Result (Unit {0}) × World) : Type 0 where
  pub chain : Chain
  pub spent : ℕ
  pub error : Exn
  pub raised : o.0 ≡ err error
  pub at : o.1.provider ≡ mock chain
  pub valid : IsValid chain
  pub bounded : spent ≤ quantity
  pub chained : all_retired chain ≡ all_retired c + spent * unit_scale
  pub whole : is_uncaught error ≡ true → spent ≡ quantity

module _ (host : Host) (uuid_text : ℕ → String) (share : ℕ → ℕ → ℕ → ℕ) (user_id quantity : ℕ)
    (reason : String) (claimant beneficiary_ref external : Option String)
    (burn_id burned_at now : ℕ) where
  abbrev burning : Action World (Unit {0})
  burning =
      execute_burn host uuid_text share user_id quantity reason claimant beneficiary_ref external
        burn_id burned_at now

  abbrev looping : Wallet → Action World Progress
  looping wallet w =
      retire_all host uuid_text share
        (terms_of host uuid_text share wallet reason claimant beneficiary_ref external burn_id
          burned_at now)
        (open_positions user_id w.db) (beginning host uuid_text share quantity) w

  -- A guard raised, or the loop runs and is followed by `certify`.
  burn_cases :
      (w : World)
      → ((e : Exn) × (burning w ≡ (err e, w)) × (is_uncaught e ≡ false))
        ⊎ ((wallet : Wallet) × (burning w ≡ (looping wallet >>= certify host uuid_text share) w))
  unfolding execute_burn
  burn_cases w = elim (Bool-cases (quantity == 0)) [
    | inl none_asked ↦ inl (Exn.bad_quantity, ground arith, refl)
    | inr asked ↦ elim (Bool-cases (is_bad_reason reason)) [
      | inl other_reason ↦ inl (Exn.bad_reason, ground arith, refl)
      | inr known ↦ elim (Option-cases (find_wallet user_id w.db.wallets)) [
        | inl missing ↦ inl (Exn.wallet_not_found, ground arith, refl)
        | inr (wallet, there) ↦ elim (Bool-cases (ltb wallet.hec_balance quantity)) [
          | inl low ↦ inl (Exn.low_hec_balance, ground arith, refl)
          | inr funded ↦
              elim (Bool-cases (
                ltb
                  (total (λ (p : InventoryPosition). p.available_quantity)
                    (open_positions user_id w.db))
                  quantity)) [
                    | inl low ↦ inl (Exn.low_inventory, ground arith, refl)
                    | inr covered ↦ inr (wallet, ground arith)
                  ]
        ]
      ]
    ]
  ]

  pub execute_burn-raises : (w : World) → (e : Exn) × ((burning w).0 ≡ err e)
  unfolding certify
  execute_burn-raises w = elim (burn_cases w) [
    | inl (e, refused, other) ↦ (e, ground arith)
    | inr (wallet, e) ↦ elim (Result-cases (looping wallet w).0) [
      | inl (x, failed) ↦ (x, ground arith)
      | inr (pr, done) ↦
          (if pr.remaining == 0 then Exn.type_error else Exn.unconsumed, ground arith)
    ]
  ]

  certify-Loses :
      (c : Chain) (o : Result Progress × World)
      → Stops quantity c o
      → Loses quantity c (((λ (v : World). o) >>= certify host uuid_text share) o.1)
  unfolding certify
  certify-Loses c o s = elim s.result [
    | inr (e, failed, other) ↦ record {
      chain = s.chain;
      spent = length s.progress.burned_hec_ids;
      error = e;
      raised = ground arith;
      at = ground (arith, s.at);
      valid = s.account.valid;
      bounded = omega (arith, s.account.split);
      chained = s.account.chained;
      whole = λ same. absurd (ground arith);
    }
    | inl done ↦ elim (Bool-cases (s.progress.remaining == 0)) [
      | inl finished ↦ record {
        chain = s.chain;
        spent = length s.progress.burned_hec_ids;
        error = Exn.type_error;
        raised = ground arith;
        at = ground (arith, s.at);
        valid = s.account.valid;
        bounded = omega (arith, s.account.split);
        chained = s.account.chained;
        whole = λ same. ground (arith, s.account.split);
      }
      | inr unfinished ↦ record {
        chain = s.chain;
        spent = length s.progress.burned_hec_ids;
        error = Exn.unconsumed;
        raised = ground arith;
        at = ground (arith, s.at);
        valid = s.account.valid;
        bounded = omega (arith, s.account.split);
        chained = s.account.chained;
        whole = λ same. absurd (ground arith);
      }
    ]
  ]

  -- With the in-memory chain in a valid state, a burn never returns. Whatever it raises, the chain is
  -- valid after it and has retired 1000 units for each of some number of certificates, at most those
  -- asked for; if what it raises is no `ValueError`, as the `TypeError` of the call that makes the
  -- receipt, for all of them.
  pub burn-Loses :
      (c : Chain) (w : World) → w.provider ≡ mock c → IsValid c → Loses quantity c (burning w)
  burn-Loses c w at valid = elim (burn_cases w) [
    | inl (e, refused, other) ↦ record {
      chain = c;
      spent = 0;
      error = e;
      raised = ground arith;
      at = ground arith;
      valid = valid;
      bounded = omega arith;
      chained = omega arith;
      whole = λ same. absurd (ground arith);
    }
    | inr (wallet, e) ↦ subst (Loses quantity c) (sym e) (
        certify-Loses c (looping wallet w) (
          retire_all-Stops host uuid_text share
            (terms_of host uuid_text share wallet reason claimant beneficiary_ref external burn_id
              burned_at now)
            quantity c (open_positions user_id w.db) (beginning host uuid_text share quantity) c w
            at
            (record { valid = valid; split = omega arith; events = refl; chained = omega arith })))
  ]
