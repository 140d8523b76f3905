-- ===== src/Identity/Users.antt =====
-- app/identity.py: the users that a call of `ensure_consumer_identity` and a flush leave.
use hec_mvp.Base.{
  ℕ, ◌≡◌, refl, sym, ◌∙◌, subst, inl, inr, Bool, true, false, List, ◌++◌, arith, if◌then◌else◌,
  Bool-cases, Option-cases, nat_eq, string_eq,
}
use hec_mvp.Base.Result.{Action, pure, Post, Post-bind}
use mathlib.Core.List.{append-nil}
use hec_mvp.Ledger.{User}
use hec_mvp.Session.{Table, add}
use hec_mvp.Store.{Store, UserRoleBinding, ConsumerProfile, settled, flush, is_consistent}
use hec_mvp.Store.Keeps.{flush-keeps}
use hec_mvp.Identity.{
  TextOps, ensure_consumer_identity, ensure_user_role_bindings, profile_of, save_profile,
  infer_default_person_type, generator_of, new_profile, repair_profile,
}

-- All users of a session.
abbrev pub everyone : Store → List User
everyone s = s.users.rows ++ s.users.pending

abbrev pub SameUsers : {A : Type 0} → Store → A → Store → Type 0
SameUsers s _ t = everyone t ≡ everyone s

-- A flush keeps the users, and has none pending.
pub flush-users :
    (s : Store)
    → Post (λ (_ : Unit {0}) t. (everyone t ≡ everyone s) × (t.users.rows ≡ everyone s)) (flush s)
unfolding flush
flush-users s = elim (Bool-cases (is_consistent s)) [
  | inl e ↦ rw e (append-nil (everyone s), refl)
  | inr e ↦ rw e tt
]

-- What flushes keep, and writes to bindings and profiles, a call of `ensure_consumer_identity` keeps.
module _ (P : Store → Type 0) (settles : (s : Store) → P s → P (settled s))
    (apart : (s : Store) (b : Table UserRoleBinding) (p : Table ConsumerProfile)
      → P s
      → P (record s { bindings = b; profiles = p })) where
  maybe_flush-keeps :
      (changed : Bool) (s : Store)
      → P s
      → Post
          (λ (_ : Unit {0}) t. P t)
          ((if◌then◌else◌ {A = Action Store (Unit {0})} changed flush (pure tt)) s)
  maybe_flush-keeps true s h = flush-keeps P settles s h
  maybe_flush-keeps false s h = h

  pub identity-keeps :
      (ops : TextOps) (user : User) (now : ℕ) (s : Store)
      → P s
      → Post (λ (_ : ConsumerProfile) t. P t) (ensure_consumer_identity ops user now s)
  unfolding ensure_consumer_identity ensure_user_role_bindings save_profile
  identity-keeps ops user now s h =
      let s1 : Store = ensure_user_role_bindings ops user now s in
      let desired = infer_default_person_type ops user s1 in
      elim (Option-cases (profile_of user.user_id s1)) [
        | inl missing ↦
            let p = new_profile ops user desired in
            let t : Store = record s1 { profiles = add p s1.profiles } in
            subst (Post (λ (_ : ConsumerProfile) v. P v)) (sym (ground arith)) (
              Post-bind (λ (_ : Unit {0}) v. P v) (λ (_ : ConsumerProfile) v. P v) flush
                (λ _. pure p) t
                (maybe_flush-keeps true t (apart s s1.bindings (add p s1.profiles) h)) (λ _ v c. c))
        | inr (p, there) ↦
            let repaired = repair_profile ops user desired (generator_of user.user_id s1) p in
            let t : Store = save_profile repaired.0 s1 in
            let rest : Action Store (Unit {0}) = if repaired.1 then flush else pure tt in
            subst (Post (λ (_ : ConsumerProfile) v. P v)) (sym (ground arith)) (
              Post-bind (λ (_ : Unit {0}) v. P v) (λ (_ : ConsumerProfile) v. P v) rest
                (λ _. pure repaired.0) t
                (maybe_flush-keeps repaired.1 t (apart s s1.bindings t.profiles h)) (λ _ v c. c))
      ]

pub identity-users :
    (ops : TextOps) (user : User) (now : ℕ) (s : Store)
    → Post (SameUsers s) (ensure_consumer_identity ops user now s)
identity-users ops user now s =
    identity-keeps (λ t. everyone t ≡ everyone s) (λ t h. append-nil (everyone t) ∙ h)
      (λ t b p h. h) ops user now s refl
