-- ===== src/Identity/Tests.antt =====
-- Runs of the role bindings, with simple texts in place of Python's.
use hec_mvp.Base.{String, ◌≡◌, refl, true, false, some, List, [], ◌∷◌, text_beq, nat_eq, string_eq}
use hec_mvp.Ledger.Samples.{buyer}
use hec_mvp.Store.Samples.{small}
use hec_mvp.Identity.{
  TextOps, ensure_user_role_bindings, roles_of, primary_of, demote, ensure_roles, desired_roles,
  ensure_role, primary_role,
}
use hec_mvp.Identity.Roles.{view, revoke, grant_all, bindings-refine}

abbrev join_all : List String → String
join_all [] = ""
join_all (x ∷ xs) = x

abbrev pub plain : TextOps
plain = record {
  strip = λ s. s;
  fold = λ s. s;
  words = λ s. s ∷ [];
  head = λ s. s;
  head_two = λ s. s;
  upper = λ s. s;
  sorted_set = λ xs. xs;
  join = join_all;
  contains = text_beq;
  id_digits = λ n. "0000001";
}

-- The role that she no longer has is kept, but is not the primary one.
generator_demoted :
    view 1 (ensure_user_role_bindings plain buyer 900 small).bindings "generator" ≡ some false
unfolding ensure_user_role_bindings demote ensure_roles desired_roles ensure_role primary_role
generator_demoted = refl

consumer_primary :
    view 1 (ensure_user_role_bindings plain buyer 900 small).bindings "consumer" ≡ some true
unfolding ensure_user_role_bindings demote ensure_roles desired_roles ensure_role primary_role
consumer_primary = refl

bindings-refine_example :
    view 1 (ensure_user_role_bindings plain buyer 900 small).bindings "generator"
    ≡ revoke
        (roles_of plain buyer small)
        (grant_all (primary_of plain buyer) (roles_of plain buyer small) (view 1 small.bindings))
        "generator"
bindings-refine_example = bindings-refine plain buyer 900 small "generator" refl
