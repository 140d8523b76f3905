-- ===== src/Store/Keeps.antt =====
-- What every flush keeps, a request keeps if its work does.
use hec_mvp.Base.{refl, inl, inr, Bool-cases, nat_eq, string_eq}
use hec_mvp.Base.Result.{Result, ok, err, Action, pure, ◌>>=◌, ◌>>◌, Refuses, Post, Post-bind}
use hec_mvp.Store.{Store, settled, flush, request, is_consistent}

-- A request whose work never returns is refused, and takes back all that was written.
pub request-Refuses :
    {A : Type 0} (m : Action Store A) (s : Store)
    → Post (λ (_ : A) (_ : Store). ⊥) (m s)
    → Refuses s (request m s)
unfolding request
request-Refuses {A} m s work = go ((do a ← m; flush; pure a) s) (
    Post-bind (λ (_ : A) (_ : Store). ⊥) (λ (_ : A) (_ : Store). ⊥) m (λ a. flush >> pure a) s work
      (λ a t p. absurd p))
  where
    go :
        (o : Result A × Store)
        → Post (λ (_ : A) (_ : Store). ⊥) o
        → Refuses s
            (elim o.0 as (λ _. Result A × Store) [ ok a ↦ (ok a, o.1) | err e ↦ (err e, s) ])
    go (ok a, t) p = absurd p
    go (err e, t) p = refl

-- What a request leaves that returns: what its work left, flushed.
module _ (P Q : Store → Type 0) (settles : (s : Store) → P s → Q (settled s)) where
  pub flush-leaves : (s : Store) → P s → Post (λ (_ : Unit {0}) t. Q t) (flush s)
  unfolding flush
  flush-leaves s h = elim (Bool-cases (is_consistent s)) [
    | inl e ↦ rw e (settles s h)
    | inr e ↦ rw e tt
  ]

  pub request-leaves :
      {A : Type 0} (m : Action Store A) (s : Store)
      → Post (λ (_ : A) t. P t) (m s)
      → Post (λ (_ : A) t. Q t) (request m s)
  unfolding request
  request-leaves {A} m s work = go ((do a ← m; flush; pure a) s) (
      Post-bind (λ (_ : A) t. P t) (λ (_ : A) t. Q t) m (λ a. flush >> pure a) s work
        (λ a t p.
          Post-bind (λ (_ : Unit {0}) t. Q t) (λ (_ : A) t. Q t) flush (λ _. pure a) t
            (flush-leaves t p) (λ _ v q. q)))
    where
      go :
          (o : Result A × Store)
          → Post (λ (_ : A) t. Q t) o
          → Post
              (λ (_ : A) t. Q t)
              (elim o.0 as (λ _. Result A × Store) [ ok a ↦ (ok a, o.1) | err e ↦ (err e, s) ])
      go (ok a, t) p = p
      go (err e, t) p = tt

-- What every flush keeps.
module _ (P : Store → Type 0) (settles : (s : Store) → P s → P (settled s)) where
  pub flush-keeps : (s : Store) → P s → Post (λ (_ : Unit {0}) t. P t) (flush s)
  flush-keeps s h = flush-leaves P P settles s h

  -- Whatever the outcome.
  pub request-keeps :
      {A : Type 0} (m : Action Store A) (s : Store)
      → P s
      → Post (λ (_ : A) t. P t) (m s)
      → P (request m s).1
  unfolding request
  request-keeps {A} m s h work = go ((do a ← m; flush; pure a) s) (
      Post-bind (λ (_ : A) t. P t) (λ (_ : A) t. P t) m (λ a. flush >> pure a) s work
        (λ a t p.
          Post-bind (λ (_ : Unit {0}) t. P t) (λ (_ : A) t. P t) flush (λ _. pure a) t
            (flush-keeps t p) (λ _ v q. q)))
    where
      go :
          (o : Result A × Store)
          → Post (λ (_ : A) t. P t) o
          → P (elim o.0 as (λ _. Result A × Store) [ ok a ↦ (ok a, o.1) | err e ↦ (err e, s) ]).1
      go (ok a, t) p = p
      go (err e, t) p = h
