-- ===== src/Identity.antt =====
-- app/identity.py: the roles of a user and the profile of a consumer. The methods of str are the
-- fields of `TextOps`; a query finds only rows that were flushed. The time of a user's creation is a
-- column that is never null, so `user.created_at or now` is that time.
pub mod Roles
pub mod Tests
pub mod Users
use hec_mvp.Base.{
  ℕ, ◌+◌, ◌-◌, ◌/◌, String, Bool, true, false, not, ◌&&◌, ◌||◌, Option, none, some, List, [], ◌∷◌,
  ◌++◌, map, text_beq, ◌==◌, if◌then◌else◌, is_some, nat_eq, string_eq, is_empty, select, find,
}
use hec_mvp.Base.Dict.{contains}
use hec_mvp.Base.Result.{Action, pure, gets, modify, ◌>>=◌, ◌>>◌}
use Prim.Native.String.{◌++◌ as text_append}
use hec_mvp.Ledger.{User}
use hec_mvp.Session.{Table, add, write, has}
use hec_mvp.Store.{GeneratorProfile, ConsumerProfile, UserRoleBinding, Store, flush}

-- `strip`: `s.strip()`; `fold`: `s.strip().lower()`; `words`: `s.strip().split()`; `head` and
-- `head_two`: `s[0]` and `s[:2]` of a text that is not empty; `upper`: `s.upper()`; `sorted_set`:
-- `sorted(set(values))`; `join`: `" ".join(values)`; `contains`: `hint in s`; `id_digits`: `str(user_id).replace("-", "")[:7].upper()`.
pub record TextOps : Type 0 where
  pub strip : String → String
  pub fold : String → String
  pub words : String → List String
  pub head : String → String
  pub head_two : String → String
  pub upper : String → String
  pub sorted_set : List String → List String
  pub join : List String → String
  pub contains : String → String → Bool
  pub id_digits : ℕ → String

abbrev pub default_consumer_plan : String
default_consumer_plan = "Ouro Verde"

abbrev pub pj_role_hints : List String
pj_role_hints = "pj" ∷ "institutional" ∷ "corporate" ∷ "company" ∷ []

-- `role_code in MANAGED_ROLE_CODES`
abbrev pub is_managed : String → Bool
is_managed r = text_beq r "consumer" || text_beq r "generator" || text_beq r "admin"

-- `value in {"PF", "PJ"}`
abbrev pub is_person_type : String → Bool
is_person_type t = text_beq t "PF" || text_beq t "PJ"

abbrev pub text_or : Option String → String → String
text_or none d = d
text_or (some s) d = if is_empty s then d else s

abbrev pub last_or : String → List String → String
last_or d [] = d
last_or d (x ∷ xs) = last_or x xs

abbrev pub generator_of : ℕ → Store → Option GeneratorProfile
generator_of user_id s = find (λ (g : GeneratorProfile). g.user_id == user_id) s.generators.rows

-- The roles to have, in sorted order.
unfoldable pub desired_roles : Bool → Bool → List String
desired_roles is_admin is_generator =
    (if is_admin then "admin" ∷ [] else [])
    ++ "consumer" ∷ (if is_generator then "generator" ∷ [] else [])

unfoldable pub primary_role : Bool → Bool → String
primary_role is_admin is_seller =
    if is_admin then "admin" else if is_seller then "generator" else "consumer"

abbrev pub is_binding : ℕ → String → UserRoleBinding → Bool
is_binding user_id role b = b.user_id == user_id && text_beq b.role_code role

-- One round of the loop over the roles to have.
unfoldable pub ensure_role : ℕ → String → ℕ → String → Table UserRoleBinding → Table UserRoleBinding
ensure_role user_id primary now role t =
    let desired_primary = text_beq role primary in
    if has (is_binding user_id role) t.rows
    then write (is_binding user_id role) (λ b. record b { is_primary = desired_primary }) t
    else add
        (record {
          user_id = user_id;
          role_code = role;
          is_primary = desired_primary;
          created_at = now;
        })
        t

unfoldable pub ensure_roles :
    ℕ → String → ℕ → List String → Table UserRoleBinding → Table UserRoleBinding
ensure_roles user_id primary now [] t = t
ensure_roles user_id primary now (r ∷ rs) t =
    ensure_roles user_id primary now rs (ensure_role user_id primary now r t)

abbrev pub has_text : String → List String → Bool
has_text x xs = has (text_beq x) xs

-- The second loop: managed roles that are no longer to be had.
abbrev pub is_stale : ℕ → List String → UserRoleBinding → Bool
is_stale user_id desired b =
    b.user_id == user_id
    && is_managed b.role_code
    && not (has_text b.role_code desired)
    && b.is_primary

unfoldable pub demote : ℕ → List String → Table UserRoleBinding → Table UserRoleBinding
demote user_id desired t = write (is_stale user_id desired) (λ b. record b { is_primary = false }) t

abbrev pub profile_of : ℕ → Store → Option ConsumerProfile
profile_of user_id s = find (λ (p : ConsumerProfile). p.user_id == user_id) s.profiles.rows

-- Assignments to a profile that a query gave.
unfoldable pub save_profile : ConsumerProfile → Store → Store
save_profile p s = record s {
  profiles = write (λ (q : ConsumerProfile). q.user_id == p.user_id) (λ _. p) s.profiles;
}

module _ (ops : TextOps) where
  -- The seed of an avatar; "SO" for a blank name.
  unfoldable pub avatar_seed_from_name : String → String
  avatar_seed_from_name name = elim (ops.words name) [
    | [] ↦ "SO"
    | w ∷ ws ↦ elim ws [
      | [] ↦ ops.upper (ops.head_two w)
      | v ∷ vs ↦ ops.upper (text_append (ops.head w) (ops.head (last_or v vs)))
    ]
  ]

  unfoldable pub infer_default_person_type : User → Store → String
  infer_default_person_type user s =
      let roles =
        map (λ (b : UserRoleBinding). ops.fold b.role_code)
          (select (λ (b : UserRoleBinding). b.user_id == user.user_id) s.bindings.rows) in
      let haystack = ops.join (ops.sorted_set (roles ++ ops.fold user.role ∷ [])) in
      let by_role : String =
        if has (λ hint. ops.contains hint haystack) pj_role_hints then "PJ" else "PF" in
      elim (generator_of user.user_id s) [
        | none ↦ by_role
        | some g ↦ if is_person_type g.person_type then g.person_type else by_role
      ]

  -- `desired_roles` and `primary_role` of a user.
  abbrev pub roles_of : User → Store → List String
  roles_of user s =
      let role = ops.fold user.role in
      desired_roles (text_beq role "admin")
        (text_beq role "seller" || is_some (generator_of user.user_id s))

  abbrev pub primary_of : User → String
  primary_of user =
      let role = ops.fold user.role in primary_role (text_beq role "admin") (text_beq role "seller")

  unfoldable pub ensure_user_role_bindings : User → ℕ → Store → Store
  ensure_user_role_bindings user now s = record s {
    bindings =
        demote user.user_id (roles_of user s)
          (ensure_roles user.user_id (primary_of user) now (roles_of user s) s.bindings);
  }

  abbrev pub premmia_id_of : User → String
  premmia_id_of user = text_append "PRM-" (ops.id_digits user.user_id)

  unfoldable pub new_profile : User → String → ConsumerProfile
  new_profile user person_type = record {
    user_id = user.user_id;
    person_type = person_type;
    document_id = none;
    display_name = some user.name;
    avatar_seed = avatar_seed_from_name user.name;
    plan_name = default_consumer_plan;
    premmia_id = some (premmia_id_of user);
    premmia_points = 0;
    current_streak_days = 0;
    total_retired_mhec = 0;
    total_co2_avoided_tons = 0;
    total_trees_equivalent = 0;
    total_referrals = 0;
    joined_at = some user.created_at;
  }

  abbrev pub blank : String → Bool
  blank t = is_empty (ops.strip t)

  abbrev pub blank_option : Option String → Bool
  blank_option t = blank (text_or t "")

  -- The five repairs of a profile that exists, each with whether it was made.
  abbrev pub wants_person_type : String → Option GeneratorProfile → ConsumerProfile → Bool
  wants_person_type desired generator p =
      is_person_type desired
      && not (text_beq p.person_type desired)
      && (not (is_person_type p.person_type)
          || elim generator [ none ↦ false | some g ↦ is_person_type g.person_type ])

  abbrev pub fill_person_type :
      String → Option GeneratorProfile → ConsumerProfile → ConsumerProfile × Bool
  fill_person_type desired generator p =
      if wants_person_type desired generator p
      then (record p { person_type = desired }, true)
      else (p, false)

  abbrev pub fill_display_name : User → ConsumerProfile → ConsumerProfile × Bool
  fill_display_name user p =
      if blank_option p.display_name && not (blank user.name)
      then (record p { display_name = some user.name }, true)
      else (p, false)

  abbrev pub fill_avatar_seed : User → ConsumerProfile → ConsumerProfile × Bool
  fill_avatar_seed user p =
      if blank p.avatar_seed
      then (
        record p { avatar_seed = avatar_seed_from_name (text_or p.display_name user.name) },
        true,
      )
      else (p, false)

  abbrev pub fill_plan_name : ConsumerProfile → ConsumerProfile × Bool
  fill_plan_name p =
      if blank p.plan_name
      then (record p { plan_name = default_consumer_plan }, true)
      else (p, false)

  abbrev pub fill_premmia_id : User → ConsumerProfile → ConsumerProfile × Bool
  fill_premmia_id user p =
      if blank_option p.premmia_id
      then (record p { premmia_id = some (premmia_id_of user) }, true)
      else (p, false)

  abbrev pub fill_joined_at : User → ConsumerProfile → ConsumerProfile × Bool
  fill_joined_at user p = elim p.joined_at [
    | none ↦ (record p { joined_at = some user.created_at }, true)
    | some t ↦ (p, false)
  ]

  unfoldable pub repair_profile :
      User → String → Option GeneratorProfile → ConsumerProfile → ConsumerProfile × Bool
  repair_profile user desired generator p =
      let (p1, u1) = fill_person_type desired generator p in
      let (p2, u2) = fill_display_name user p1 in
      let (p3, u3) = fill_avatar_seed user p2 in
      let (p4, u4) = fill_plan_name p3 in
      let (p5, u5) = fill_premmia_id user p4 in
      let (p6, u6) = fill_joined_at user p5 in (p6, u1 || u2 || u3 || u4 || u5 || u6)

  unfoldable pub ensure_consumer_identity : User → ℕ → Action Store ConsumerProfile
  unfolding ensure_user_role_bindings
  ensure_consumer_identity user now = do
    modify (ensure_user_role_bindings user now)
    desired ← gets (infer_default_person_type user)
    found ← gets (profile_of user.user_id)
    elim found [
      | none ↦ do
        modify (λ s. record s { profiles = add (new_profile user desired) s.profiles })
        flush
        pure (new_profile user desired)
      | some p ↦ do
        generator ← gets (generator_of user.user_id)
        let repaired = repair_profile user desired generator p
        modify (save_profile repaired.0)
        if repaired.1 then flush else pure tt
        pure repaired.0
    ]
