-- ===== src/Burn/Loop.antt =====
-- What the loop of a burn retires: on chain, unit for unit, what it takes off its account.
use hec_mvp.Base.{
  ℕ, ◌+◌, ◌*◌, min, String, ◌≡◌, refl, sym, subst, ◌⊎◌, inl, inr, false, List, [], ◌∷◌, arith, ltb,
  ◌==◌, Bool-cases, Option-cases, nat_eq, string_eq, length, length-append, take, length-take,
  total, total-append,
}
use hec_mvp.Base.Result.{Exn, is_uncaught, Result, ok, err, Result-cases}
use hec_mvp.Ledger.{InventoryPosition, HecLot}
use hec_mvp.Chain.{Chain, unit_scale, RetirementExecutionResult}
use hec_mvp.Chain.Mock.{retire_inventory_batch}
use hec_mvp.Chain.Mock.Invariant.{IsValid}
use hec_mvp.Chain.Mock.Totals.{all_retired, retire_adds, retire-errors}
use hec_mvp.Chain.Provider.{mock, retire_inventory_batch_on_chain}
use hec_mvp.World.{World, Host, text_digest}
use hec_mvp.Burn.{
  PendingEvent, Progress, Terms, issued_lot, reference, energy_of, retire_from, retire_all, advance,
  new_event,
}

-- The progress of a burn of `quantity` certificates that began on the chain `start`, now `c`.
pub record IsOnAccount (quantity : ℕ) (start c : Chain) (pr : Progress) : Type 0 where
  pub valid : IsValid c
  pub split : length pr.burned_hec_ids + pr.remaining ≡ quantity
  pub events :
      total (λ (e : PendingEvent). e.amount_hec) pr.pending_events ≡ length pr.burned_hec_ids
  pub chained : all_retired c ≡ all_retired start + length pr.burned_hec_ids * unit_scale

-- A run of the loop or of one round stops at a chain and a progress that are on account, with a
-- result that is this progress unless it raises, and then a `ValueError`.
pub record Stops (quantity : ℕ) (start : Chain) (o : Result Progress × World) : Type 0 where
  pub chain : Chain
  pub progress : Progress
  pub at : o.1.provider ≡ mock chain
  pub account : IsOnAccount quantity start chain progress
  pub result : (o.0 ≡ ok progress) ⊎ ((e : Exn) × (o.0 ≡ err e) × (is_uncaught e ≡ false))

module _ (host : Host) (uuid_text : ℕ → String) (share : ℕ → ℕ → ℕ → ℕ) (terms : Terms)
    (quantity : ℕ) (start : Chain) where
  abbrev amount : InventoryPosition → Progress → ℕ
  amount p pr = min pr.remaining p.available_quantity

  abbrev calling :
      ℕ → InventoryPosition → Progress → Chain → Result RetirementExecutionResult × Chain
  calling token p pr c =
      retire_inventory_batch (text_digest host) token (amount p pr * unit_scale)
        terms.claimant_wallet (reference host uuid_text share terms p pr) terms.beneficiary_ref_hash
        terms.reason terms.now c

  advance-IsOnAccount :
      (p : InventoryPosition) (pr : Progress) (c c' : Chain) (energy : ℕ) (event : PendingEvent)
      → IsOnAccount quantity start c pr
      → event.amount_hec ≡ amount p pr
      → length (take (amount p pr) p.source_hec_ids) ≡ amount p pr
      → IsValid c'
      → all_retired c' ≡ all_retired c + amount p pr * unit_scale
      → IsOnAccount quantity start c' (advance p (amount p pr) energy event pr)
  unfolding advance
  advance-IsOnAccount p pr c c' energy event a named listed valid added =
      let ids = length-append pr.burned_hec_ids (take (amount p pr) p.source_hec_ids) in
      record {
        valid = valid;
        split = omega (arith, ids, listed, a.split);
        events = omega (
          arith,
          ids,
          listed,
          a.events,
          named,
          total-append (λ (e : PendingEvent). e.amount_hec) pr.pending_events (event ∷ []),
        );
        chained = omega (arith, ids, listed, a.chained, added);
      }

  event_amount :
      (p : InventoryPosition) (pr : Progress) (lot : HecLot × ℕ) (r : RetirementExecutionResult)
      (energy : ℕ)
      → (new_event terms p lot.0 lot.1 (amount p pr) energy r).amount_hec ≡ amount p pr
  unfolding new_event
  event_amount p pr lot r energy = refl

  retire_from-Stops :
      (p : InventoryPosition) (pr : Progress) (c : Chain) (w : World)
      → w.provider ≡ mock c
      → IsOnAccount quantity start c pr
      → Stops quantity start (retire_from host uuid_text share terms p pr w)
  unfolding retire_from retire_inventory_batch_on_chain
  retire_from-Stops p pr c w at a = elim (Option-cases (issued_lot p.lot_id w.db)) [
    | inl missing ↦ record {
      chain = c;
      progress = pr;
      at = ground arith;
      account = a;
      result = inr (Exn.no_batch, ground arith, refl);
    }
    | inr (lot, there) ↦
        elim (Bool-cases (ltb (length (take (amount p pr) p.source_hec_ids)) (amount p pr))) [
          | inl few ↦ record {
            chain = c;
            progress = pr;
            at = ground arith;
            account = a;
            result = inr (Exn.few_source_ids, ground arith, refl);
          }
          | inr enough ↦
              let call = calling lot.1 p pr c in
              let listed : length (take (amount p pr) p.source_hec_ids) ≡ amount p pr =
                ground (arith, length-take (amount p pr) p.source_hec_ids) in
              let adds =
                retire_adds (text_digest host) lot.1 (amount p pr * unit_scale)
                  terms.claimant_wallet (reference host uuid_text share terms p pr)
                  terms.beneficiary_ref_hash terms.reason terms.now c a.valid in
              elim adds [
                | inl refused ↦ elim (Result-cases call.0) [
                  | inl (e, failed) ↦ record {
                    chain = c;
                    progress = pr;
                    at = ground arith;
                    account = a;
                    result = inr (
                      e,
                      ground arith,
                      ground (
                        arith,
                        retire-errors (text_digest host) lot.1 (amount p pr * unit_scale)
                            terms.claimant_wallet (reference host uuid_text share terms p pr)
                            terms.beneficiary_ref_hash terms.reason terms.now c e failed,
                      ),
                    );
                  }
                  | inr (r, done) ↦ absurd (ground arith)
                ]
                | inr (r, done, added, valid) ↦
                    let energy = energy_of host uuid_text share p (amount p pr) in
                    let event = new_event terms p lot.0 lot.1 (amount p pr) energy r in
                    record {
                      chain = call.1;
                      progress = advance p (amount p pr) energy event pr;
                      at = ground arith;
                      account =
                          advance-IsOnAccount p pr c call.1 energy event a
                            (event_amount p pr lot r energy) listed valid added;
                      result = inl (ground arith);
                    }
              ]
        ]
  ]

  pub retire_all-Stops :
      (ps : List InventoryPosition) (pr : Progress) (c : Chain) (w : World)
      → w.provider ≡ mock c
      → IsOnAccount quantity start c pr
      → Stops quantity start (retire_all host uuid_text share terms ps pr w)
  unfolding retire_all
  retire_all-Stops [] pr c w at a = record {
    chain = c;
    progress = pr;
    at = at;
    account = a;
    result = inl refl;
  }
  retire_all-Stops (p ∷ ps) pr c w at a = elim (Bool-cases (pr.remaining == 0)) [
    | inl finished ↦ record {
      chain = c;
      progress = pr;
      at = ground arith;
      account = a;
      result = inl (ground arith);
    }
    | inr more ↦ elim (Bool-cases (p.available_quantity == 0)) [
      | inl skipped ↦
          let later = retire_all-Stops ps pr c w at a in
          record {
            chain = later.chain;
            progress = later.progress;
            at = ground (arith, later.at);
            account = later.account;
            result = ground (arith, later.result);
          }
      | inr taken ↦
          let here = retire_from-Stops p pr c w at a in
          elim here.result [
            | inr (e, failed, other) ↦ record {
              chain = here.chain;
              progress = here.progress;
              at = ground (arith, here.at);
              account = here.account;
              result = inr (e, ground arith, other);
            }
            | inl done ↦
                let later =
                  retire_all-Stops ps here.progress here.chain
                    (retire_from host uuid_text share terms p pr w).1 here.at here.account in
                let next : retire_all host uuid_text share terms (p ∷ ps) pr w
                    ≡ retire_all host uuid_text share terms ps here.progress
                        (retire_from host uuid_text share terms p pr w).1 =
                  ground arith in
                subst (Stops quantity start) (sym next) later
          ]
    ]
  ]
