-- ===== src/Chain/Mock/Registry.antt =====
-- Registered certificates of the in-memory chain: what `register` writes, `verify` reads.
use hec_mvp.Base.{
  ℕ, ◌+◌, String, ◌≡◌, ◌≢◌, ◌⊎◌, inl, inr, true, false, arith, eq_iff, nat_eq, string_eq,
}
use hec_mvp.Base.Dict.{lookup-insert}
use hec_mvp.Base.Result.{Refuses}
use hec_mvp.Chain.{Chain}
use hec_mvp.Chain.Mock.{register, record_registration, verify}
use hec_mvp.Chain.Mock.Cases.{register_cases}

module _ (sha256 : String → String) where
  -- A certificate whose registration succeeds was not registered before; afterwards it verifies with
  -- the document, block and time of the registration, every other hash verifies as before, and one
  -- block has been added.
  pub verify-register :
      (h g cid : String) (now : ℕ) (c : Chain)
      → let (r, d) = register sha256 h cid now c in
        Refuses c (r, d)
        ⊎ ((verify c h).found ≡ false)
          × ((verify d h).found ≡ true)
          × ((verify d h).ipfs_cid ≡ cid)
          × ((verify d h).registered_at ≡ now)
          × ((verify d h).block_number ≡ c.block_number + 1)
          × (d.block_number ≡ c.block_number + 1)
          × (h ≢ g → verify d g ≡ verify c g)
  unfolding verify record_registration
  verify-register h g cid now c = elim (register_cases sha256 h cid now c) [
    | inl refused ↦ inl refused
    | inr (digest, cid_given, new, e) ↦
        rw e (inr (grind (arith, lookup-insert, eq_iff h h, eq_iff h g)))
  ]

  -- A hash is registered once: the second registration is refused, whatever the document.
  pub register_twice :
      (h cid : String) (now : ℕ) (c : Chain)
      → (verify c h).found ≡ true
      → Refuses c (register sha256 h cid now c)
  unfolding verify
  register_twice h cid now c known = ground (arith, register_cases sha256 h cid now c)
