-- ===== src/Api/Laws.antt =====
-- What the requests keep, and what a burn's request does.
use hec_mvp.Base.{
  ℕ, ◌+◌, ◌*◌, ◌≤◌, String, ◌≡◌, sym, subst, ◌≢◌, inl, inr, Bool, Option, List, [], ◌∷◌, arith,
  nat_eq, string_eq,
}
use hec_mvp.Base.Result.{Exn, ok, err, Action, Result-cases}
use hec_mvp.Ledger.{Db}
use hec_mvp.Ledger.Books.{IsBooked}
use hec_mvp.Chain.{Chain, unit_scale}
use hec_mvp.Chain.Mock.Invariant.{IsValid}
use hec_mvp.Chain.Mock.Totals.{all_retired}
use hec_mvp.Chain.Provider.{mock}
use hec_mvp.World.{World, Host, on_db}
use hec_mvp.Market.{buy_from_lot}
use hec_mvp.Market.Custody.{buy-IsBooked}
use hec_mvp.Lot.{LotManifest, create_lot}
use hec_mvp.Lot.Books.{IsNewLot}
use hec_mvp.Lot.Creation.{create_lot-IsBooked}
use hec_mvp.Burn.Laws.{burn-Loses, execute_burn-raises}
use hec_mvp.Api.{
  Request, creates, buys, burns, answer, code_of, create_lot_endpoint, buy_hecs, burn_hecs, serve,
  serve_all,
}

-- A handler leaves the database that it found or the one that its service wrote.
answer-keeps :
    {A : Type 0} (P : Db → Type 0) (conflicts : Exn → Bool) (m : Action World A) (w : World)
    → P w.db
    → P (m w).1.db
    → P (answer conflicts m w).1.db
answer-keeps {A = A} P conflicts m w before after = elim (Result-cases (m w).0) [
  | inl (e, failed) ↦ subst (λ o. P o.1.db) (sym (answer_err e failed)) before
  | inr (a, done) ↦ subst (λ o. P o.1.db) (sym (answer_ok a done)) after
]
  where
    answer_err :
        (e : Exn)
        → (m w).0 ≡ err e
        → answer conflicts m w ≡ (code_of conflicts e, record (m w).1 { db = w.db })
    answer_err e failed = ground arith

    answer_ok : (a : A) → (m w).0 ≡ ok a → answer conflicts m w ≡ (201, (m w).1)
    answer_ok a done = ground arith

-- The id that a creation draws for its lot is new where it is drawn.
abbrev pub Draws : World → Request → Type 0
Draws w (creates hec_ids name description price_per_kwh lot_id now) = IsNewLot lot_id w.db
Draws w _ = Unit {0}

module _ (host : Host) (dumps : LotManifest → List ℕ) (uuid_text : ℕ → String)
    (share : ℕ → ℕ → ℕ → ℕ) where
  abbrev pub AllDraw : World → List Request → Type 0
  AllDraw w [] = Unit {0}
  AllDraw w (r ∷ rs) = Draws w r × AllDraw (serve host dumps uuid_text share w r).1 rs

  burn_hecs-undone :
      (user_id quantity : ℕ) (reason : String) (claimant beneficiary_ref external : Option String)
      (burn_id burned_at now : ℕ) (w : World)
      → (burn_hecs host dumps uuid_text share user_id quantity reason claimant beneficiary_ref
          external burn_id burned_at now w).1.db
        ≡ w.db
  unfolding burn_hecs
  burn_hecs-undone user_id quantity reason claimant beneficiary_ref external burn_id burned_at now
        w =
      ground (
        arith,
        execute_burn-raises host uuid_text share user_id quantity reason claimant beneficiary_ref
            external burn_id burned_at now w,
      )

  -- A burn's request never answers 201 and leaves the database as it was. With the in-memory chain in
  -- a valid state, the chain has nevertheless retired 1000 units for each of some number of
  -- certificates, and for all those asked for if the answer is a 500.
  pub burn_hecs-Loses :
      (user_id quantity : ℕ) (reason : String) (claimant beneficiary_ref external : Option String)
      (burn_id burned_at now : ℕ) (c : Chain) (w : World)
      → w.provider ≡ mock c
      → IsValid c
      → let o =
          burn_hecs host dumps uuid_text share user_id quantity reason claimant beneficiary_ref
            external burn_id burned_at now w in
        (o.0 ≢ 201)
        × (o.1.db ≡ w.db)
        × ((d : Chain) × (spent : ℕ) × (o.1.provider ≡ mock d)
            × IsValid d
            × (spent ≤ quantity)
            × (all_retired d ≡ all_retired c + spent * unit_scale)
            × (o.0 ≡ 500 → spent ≡ quantity))
  unfolding burn_hecs code_of
  burn_hecs-Loses user_id quantity reason claimant beneficiary_ref external burn_id burned_at now c
        w at valid =
      let l =
        burn-Loses host uuid_text share user_id quantity reason claimant beneficiary_ref external
          burn_id burned_at now c w at valid in
      (
        λ e. ground (arith, l.raised),
        ground (arith, l.raised),
        (
          l.chain,
          l.spent,
          ground (arith, l.raised, l.at),
          l.valid,
          l.bounded,
          l.chained,
          λ e. ground (arith, l.raised, l.whole),
        ),
      )

  serve-IsBooked :
      (w : World) (r : Request)
      → IsBooked w.db
      → Draws w r
      → IsBooked (serve host dumps uuid_text share w r).1.db
  unfolding serve create_lot_endpoint buy_hecs burn_hecs
  serve-IsBooked w (creates hec_ids name description price_per_kwh lot_id now) books new =
      answer-keeps IsBooked _
        (create_lot host dumps hec_ids name description price_per_kwh lot_id now) w books
        (create_lot-IsBooked host dumps lot_id name description price_per_kwh now hec_ids w books
          new)
  serve-IsBooked w (buys user_id lot_id quantity tx_id position_id now) books new =
      answer-keeps IsBooked _
        (on_db (buy_from_lot host.float_sum user_id lot_id quantity tx_id position_id now)) w books
        (buy-IsBooked host.float_sum user_id lot_id quantity tx_id position_id now w.db books)
  serve-IsBooked w
        (burns user_id quantity reason claimant beneficiary_ref external burn_id burned_at now)
        books new =
      subst IsBooked
        (sym (
          burn_hecs-undone user_id quantity reason claimant beneficiary_ref external burn_id
            burned_at now w))
        books

  -- Requests to create lots, to buy and to burn, in any order and with any outcomes, keep the custody
  -- books balanced, if each creation draws a new id for its lot.
  pub serve_all-IsBooked :
      (w : World) (rs : List Request)
      → IsBooked w.db
      → AllDraw w rs
      → IsBooked (serve_all host dumps uuid_text share w rs).db
  unfolding serve_all
  serve_all-IsBooked w [] books new = books
  serve_all-IsBooked w (r ∷ rs) books new =
      serve_all-IsBooked (serve host dumps uuid_text share w r).1 rs
        (serve-IsBooked w r books new.0) new.1
