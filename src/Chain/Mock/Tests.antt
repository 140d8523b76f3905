-- ===== src/Chain/Mock/Tests.antt =====
-- Runs of the in-memory chain.
use hec_mvp.Base.{
  ℕ, ◌+◌, ◌≤◌, ◌<◌, String, ◌≡◌, refl, ◌≢◌, ◌⊎◌, true, false, none, some, [], ◌∷◌, nat_eq,
  string_eq,
}
use hec_mvp.Base.Result.{Refuses}
use hec_mvp.Chain.{Chain, init}
use hec_mvp.Chain.Mock.{
  register, verify, issue_inventory_batch, retire_inventory_batch, record_registration,
  record_batch,
}
use hec_mvp.Chain.Mock.Invariant.{
  IsValid, init-IsValid, registers, issues, retires, run, run-IsValid,
}
use hec_mvp.Chain.Mock.Registry.{verify-register}
use hec_mvp.Chain.Mock.Batches.{unretired, on_record, retire_spends}

-- A stand-in for the digest, which keeps different texts apart.
abbrev digest : String → String
digest s = s

abbrev issued : Chain
issued = (issue_inventory_batch digest "b1" "QmM" 10 20 2000 "M" "1.0" 30 init).1

abbrev registered : Chain
registered = (register digest "c1" "QmC" 30 init).1

issued-units : unretired 1 issued ≡ 2000
unfolding issue_inventory_batch record_batch
issued-units = refl

registered-found : (verify registered "c1").found ≡ true
unfolding register record_registration verify
registered-found = refl

run-IsValid_example : IsValid (
    run digest init (
      registers "c1" "QmC" 30
      ∷ issues "b1" "QmM" 10 20 2000 "M" "1.0" 30
      ∷ retires 1 500 none "burn:1" none "offset" 40
      ∷ retires 1 1501 none "burn:2" none "offset" 41
      ∷ []))
run-IsValid_example =
    run-IsValid digest init
      (registers "c1" "QmC" 30
        ∷ issues "b1" "QmM" 10 20 2000 "M" "1.0" 30
        ∷ retires 1 500 none "burn:1" none "offset" 40
        ∷ retires 1 1501 none "burn:2" none "offset" 41
        ∷ [])
      init-IsValid

verify-register_example :
    let (r, d) = register digest "c1" "QmC" 30 init in
    Refuses init (r, d)
    ⊎ ((verify init "c1").found ≡ false)
      × ((verify d "c1").found ≡ true)
      × ((verify d "c1").ipfs_cid ≡ "QmC")
      × ((verify d "c1").registered_at ≡ 30)
      × ((verify d "c1").block_number ≡ init.block_number + 1)
      × (d.block_number ≡ init.block_number + 1)
      × (◌≢◌ {A = String} "c1" "c2" → verify d "c2" ≡ verify init "c2")
verify-register_example = verify-register digest "c1" "c2" "QmC" 30 init

retire_spends_example :
    let o = retire_inventory_batch digest 1 500 none "burn:1" none "offset" 40 issued in
    Refuses issued o × ((0 < 500) × (500 ≤ unretired 1 issued) → ⊥)
    ⊎ (0 < 500)
      × (unretired 1 o.1 + 500 ≡ unretired 1 issued)
      × (◌≢◌ {A = ℕ} 2 1 → unretired 2 o.1 ≡ unretired 2 issued)
      × (on_record o ≡ some (1, 500))
retire_spends_example = retire_spends digest 1 500 none "burn:1" none "offset" 40 2 issued
