-- ===== src/Identity/Roles.antt =====
-- The bindings of a user's roles, seen as which roles the user has and which of them is primary.
use hec_mvp.Base.{
  ℕ, String, ◌≡◌, refl, sym, ap, ◌∙◌, inl, inr, Bool, true, false, not, ◌&&◌, Option, none, some,
  List, [], ◌∷◌, ◌++◌, arith, text_beq, eq_iff, ◌==◌, if◌then◌else◌, Bool-cases, Option-cases,
  nat_eq, string_eq, find, update,
}
use hec_mvp.Base.Keys.{find_sound, find-update}
use hec_mvp.Base.Rows.{find-append}
use hec_mvp.Ledger.{User}
use hec_mvp.Session.{Table, has}
use hec_mvp.Store.{UserRoleBinding, Store}
use hec_mvp.Identity.{
  TextOps, is_binding, is_managed, has_text, is_stale, ensure_role, ensure_roles, demote,
  desired_roles, roles_of, primary_of, ensure_user_role_bindings,
}

-- The abstract view: for each role, whether the user has it, and then whether it is the primary one.
abbrev pub Grants : Type 0
Grants = String → Option Bool

abbrev flag : Option UserRoleBinding → Option Bool
flag none = none
flag (some b) = some b.is_primary

abbrev pub view : ℕ → Table UserRoleBinding → Grants
view user_id t role = flag (find (is_binding user_id role) (t.rows ++ t.pending))

-- A role is granted, as the primary one or not.
abbrev pub grant : String → String → Grants → Grants
grant primary r g x = if text_beq x r then some (text_beq r primary) else g x

abbrev pub grant_all : String → List String → Grants → Grants
grant_all primary [] g = g
grant_all primary (r ∷ rs) g = grant_all primary rs (grant primary r g)

-- A managed role that is not among `desired` is not the primary one; it is kept.
abbrev pub revoke_flag : List String → String → Option Bool → Option Bool
revoke_flag desired x none = none
revoke_flag desired x (some b) = some (b && not (is_managed x && not (has_text x desired)))

abbrev pub revoke : List String → Grants → Grants
revoke desired g x = revoke_flag desired x (g x)

grant_all-congr :
    (primary : String) (rs : List String) (g h : Grants) (x : String)
    → ((y : String) → g y ≡ h y)
    → grant_all primary rs g x ≡ grant_all primary rs h x
grant_all-congr primary [] g h x same = same x
grant_all-congr primary (r ∷ rs) g h x same =
    grant_all-congr primary rs (grant primary r g) (grant primary r h) x
      (λ y. ap (λ o. if text_beq y r then some (text_beq r primary) else o) (same y))

module _ (user_id : ℕ) (primary : String) (now : ℕ) where
  -- No pending row has the role.
  abbrev NonePending : String → Table UserRoleBinding → Type 0
  NonePending r t = has (is_binding user_id r) t.pending ≡ false

  binding_role :
      (r x : String) (bs : List UserRoleBinding) {b : UserRoleBinding}
      → find (is_binding user_id x) bs ≡ some b
      → is_binding user_id r b ≡ text_beq x r
  binding_role r x bs {b = b} found =
      let hit = find_sound (is_binding user_id x) bs found in
      let same : text_beq b.role_code x ≡ true = ground arith in
      let role : b.role_code ≡ x = (eq_iff b.role_code x).0 same in
      let mine : (b.user_id == user_id) ≡ true = ground arith in
      rw (mine) (ap (λ y. text_beq y r) role)

  text_sym : (x y : String) → text_beq x y ≡ text_beq y x
  text_sym x y = elim (Bool-cases (text_beq x y)) [
    | inl e ↦ elim (Bool-cases (text_beq y x)) [
      | inl f ↦ e ∙ sym f
      | inr f ↦
          let same : x ≡ y = (eq_iff x y).0 e in
          let back : text_beq y x ≡ true = (eq_iff y x).1 (sym same) in absurd (ground arith)
    ]
    | inr e ↦ elim (Bool-cases (text_beq y x)) [
      | inl f ↦
          let same : y ≡ x = (eq_iff y x).0 f in
          let back : text_beq x y ≡ true = (eq_iff x y).1 (sym same) in absurd (ground arith)
      | inr f ↦ e ∙ sym f
    ]
  ]

  find_row :
      (r x : String) (row : UserRoleBinding)
      → row.user_id ≡ user_id
      → row.role_code ≡ r
      → find (is_binding user_id x) (row ∷ []) ≡ (if text_beq x r then some row else none)
  find_row r x row mine role =
      let same : text_beq row.role_code x ≡ text_beq x r =
        ap (λ y. text_beq y x) role ∙ text_sym r x in
      ground (arith, same, mine)

  same_role :
      (r x : String) (bs : List UserRoleBinding)
      → text_beq x r ≡ true
      → find (is_binding user_id x) bs ≡ find (is_binding user_id r) bs
  same_role r x bs e = ap (λ y. find (is_binding user_id y) bs) ((eq_iff x r).0 e)

  ensure_role-view :
      (r x : String) (t : Table UserRoleBinding)
      → NonePending r t
      → view user_id (ensure_role user_id primary now r t) x ≡ grant primary r (view user_id t) x
  unfolding ensure_role
  ensure_role-view r x t free = elim (Bool-cases (has (is_binding user_id r) t.rows)) [
    | inl there ↦
        let f = λ (b : UserRoleBinding). record b { is_primary = text_beq r primary } in
        let moved =
          find-update (is_binding user_id x) (is_binding user_id r) f t.rows (λ b. refl) in
        let before = find-append (is_binding user_id x) t.rows t.pending in
        let after =
          find-append (is_binding user_id x) (update (is_binding user_id r) f t.rows) t.pending in
        elim (Option-cases (find (is_binding user_id x) t.rows)) [
          | inl miss ↦ elim (Bool-cases (text_beq x r)) [
            | inl e ↦ absurd (ground (arith, same_role r x t.rows e, miss, there))
            | inr other ↦ rw there (rw (after, before, moved, miss, other) refl)
          ]
          | inr (b, hit) ↦
              let role = binding_role r x t.rows hit in
              rw there (rw (after, before, moved, hit) (ground (arith, role)))
        ]
    | inr new ↦
        let row : UserRoleBinding = record {
          user_id = user_id;
          role_code = r;
          is_primary = text_beq r primary;
          created_at = now;
        } in
        let before = find-append (is_binding user_id x) t.rows t.pending in
        let after = find-append (is_binding user_id x) t.rows (t.pending ++ row ∷ []) in
        let last = find-append (is_binding user_id x) t.pending (row ∷ []) in
        elim (Bool-cases (text_beq x r)) [
          | inl e ↦
              let no_row : find (is_binding user_id x) t.rows ≡ none =
                ground (arith, same_role r x t.rows e, new) in
              let no_pending : find (is_binding user_id x) t.pending ≡ none =
                ground (arith, same_role r x t.pending e, free) in
              let added = find_row r x row refl refl in
              rw new (ground (arith, after, last, no_row, no_pending, added, e))
          | inr other ↦
              let added = find_row r x row refl refl in
              rw new (ground (arith, after, last, before, added, other))
        ]
  ]

  ensure_role-pending :
      (r x : String) (t : Table UserRoleBinding)
      → text_beq x r ≡ false
      → NonePending x t
      → NonePending x (ensure_role user_id primary now r t)
  unfolding ensure_role
  ensure_role-pending r x t other free = elim (Bool-cases (has (is_binding user_id r) t.rows)) [
    | inl there ↦ rw there free
    | inr new ↦
        let row : UserRoleBinding = record {
          user_id = user_id;
          role_code = r;
          is_primary = text_beq r primary;
          created_at = now;
        } in
        let last = find-append (is_binding user_id x) t.pending (row ∷ []) in
        let added = find_row r x row refl refl in rw new (ground (arith, last, added, other, free))
  ]

  -- The roles of the list are distinct, and none of them is pending.
  abbrev AllNew : List String → Table UserRoleBinding → Type 0
  AllNew [] t = Unit {0}
  AllNew (r ∷ rs) t = NonePending r t × (has_text r rs ≡ false) × AllNew rs t

  AllNew-ensure_role :
      (r : String) (rs : List String) (t : Table UserRoleBinding)
      → has_text r rs ≡ false
      → AllNew rs t
      → AllNew rs (ensure_role user_id primary now r t)
  AllNew-ensure_role r [] t free h = tt
  AllNew-ensure_role r (x ∷ xs) t free h = (
    ensure_role-pending r x t (text_sym x r ∙ ground arith) h.0,
    h.1,
    AllNew-ensure_role r xs t (ground arith) h.2,
  )

  ensure_roles-view :
      (rs : List String) (t : Table UserRoleBinding) (x : String)
      → AllNew rs t
      → view user_id (ensure_roles user_id primary now rs t) x
        ≡ grant_all primary rs (view user_id t) x
  unfolding ensure_roles
  ensure_roles-view [] t x h = refl
  ensure_roles-view (r ∷ rs) t x h =
      ensure_roles-view rs (ensure_role user_id primary now r t) x
        (AllNew-ensure_role r rs t h.1 h.2)
      ∙ grant_all-congr primary rs (view user_id (ensure_role user_id primary now r t))
          (grant primary r (view user_id t)) x (λ y. ensure_role-view r y t h.0)

  -- Roles that are not in the list do not become pending.
  ensure_roles-pending :
      (rs : List String) (t : Table UserRoleBinding) (x : String)
      → has_text x rs ≡ false
      → NonePending x t
      → NonePending x (ensure_roles user_id primary now rs t)
  unfolding ensure_roles
  ensure_roles-pending [] t x other free = free
  ensure_roles-pending (r ∷ rs) t x other free =
      ensure_roles-pending rs (ensure_role user_id primary now r t) x (ground arith)
        (ensure_role-pending r x t (ground arith) free)

  demote-view :
      (desired : List String) (t : Table UserRoleBinding) (x : String)
      → (has_text x desired ≡ false → NonePending x t)
      → view user_id (demote user_id desired t) x ≡ revoke desired (view user_id t) x
  unfolding demote
  demote-view desired t x wanted =
      let f = λ (b : UserRoleBinding). record b { is_primary = false } in
      let stale = is_stale user_id desired in
      let moved = find-update (is_binding user_id x) stale f t.rows (λ b. refl) in
      let before = find-append (is_binding user_id x) t.rows t.pending in
      let after = find-append (is_binding user_id x) (update stale f t.rows) t.pending in
      elim (Option-cases (find (is_binding user_id x) t.rows)) [
        | inl miss ↦ elim (Option-cases (find (is_binding user_id x) t.pending)) [
          | inl nowhere ↦
              let old : find (is_binding user_id x) (t.rows ++ t.pending) ≡ none =
                before ∙ rw (miss, nowhere) refl in
              let new : find (is_binding user_id x) (update stale f t.rows ++ t.pending) ≡ none =
                after ∙ rw (moved, miss, nowhere) refl in
              ap flag new ∙ sym (ap (λ o. revoke_flag desired x (flag o)) old)
          | inr (b, hit) ↦
              let old : find (is_binding user_id x) (t.rows ++ t.pending) ≡ some b =
                before ∙ rw (miss, hit) refl in
              let new : find (is_binding user_id x) (update stale f t.rows ++ t.pending) ≡ some b =
                after ∙ rw (moved, miss, hit) refl in
              let kept : some b.is_primary ≡ revoke_flag desired x (some b.is_primary) =
                ground (arith, wanted, hit) in
              ap flag new ∙ kept ∙ sym (ap (λ o. revoke_flag desired x (flag o)) old)
        ]
        | inr (b, hit) ↦
            let found = find_sound (is_binding user_id x) t.rows hit in
            let mine : (b.user_id == user_id) ≡ true = ground arith in
            let role : b.role_code ≡ x = (eq_iff b.role_code x).0 (ground arith) in
            let known = ap is_managed role in
            let asked = ap (λ y. has_text y desired) role in
            let c : UserRoleBinding = if stale b then f b else b in
            let old : find (is_binding user_id x) (t.rows ++ t.pending) ≡ some b =
              before ∙ rw hit refl in
            let new : find (is_binding user_id x) (update stale f t.rows ++ t.pending) ≡ some c =
              after ∙ rw (moved, hit) refl in
            let kept : some c.is_primary ≡ revoke_flag desired x (some b.is_primary) =
              ground (arith, mine, known, asked) in
            ap flag new ∙ kept ∙ sym (ap (λ o. revoke_flag desired x (flag o)) old)
      ]

none_of :
    (user_id : ℕ) (r : String) (t : Table UserRoleBinding)
    → t.pending ≡ []
    → has (is_binding user_id r) t.pending ≡ false
none_of user_id r t e = ap (λ bs. has (is_binding user_id r) bs) e

-- The roles to have are distinct.
desired-AllNew :
    (user_id : ℕ) (primary : String) (now : ℕ) (a b : Bool) (t : Table UserRoleBinding)
    → t.pending ≡ []
    → AllNew user_id primary now (desired_roles a b) t
unfolding desired_roles
desired-AllNew user_id primary now true true t e = (
  none_of user_id "admin" t e,
  refl,
  (none_of user_id "consumer" t e, refl, (none_of user_id "generator" t e, refl, tt)),
)
desired-AllNew user_id primary now true false t e =
    (none_of user_id "admin" t e, refl, (none_of user_id "consumer" t e, refl, tt))
desired-AllNew user_id primary now false true t e =
    (none_of user_id "consumer" t e, refl, (none_of user_id "generator" t e, refl, tt))
desired-AllNew user_id primary now false false t e = (none_of user_id "consumer" t e, refl, tt)

-- When no binding is pending, the call does to the roles of the user what granting each role that the
-- user is to have, as primary exactly if it is the primary one, and then taking primacy from each other
-- managed role does; no role is taken away, and roles that are not managed stay as they are.
pub bindings-refine :
    (ops : TextOps) (user : User) (now : ℕ) (s : Store) (x : String)
    → s.bindings.pending ≡ []
    → view user.user_id (ensure_user_role_bindings ops user now s).bindings x
      ≡ revoke
          (roles_of ops user s)
          (grant_all (primary_of ops user) (roles_of ops user s) (view user.user_id s.bindings))
          x
unfolding ensure_user_role_bindings
bindings-refine ops user now s x e =
    let desired = roles_of ops user s in
    let primary = primary_of ops user in
    let t = ensure_roles user.user_id primary now desired s.bindings in
    let none_pending = λ (other : has_text x desired ≡ false).
      ensure_roles-pending user.user_id primary now desired s.bindings x other
        (ap (λ bs. has (is_binding user.user_id x) bs) e) in
    demote-view user.user_id primary now desired t x none_pending
    ∙ ap (revoke_flag desired x) (
        ensure_roles-view user.user_id primary now desired s.bindings x
          (desired-AllNew user.user_id primary now _ _ s.bindings e))
