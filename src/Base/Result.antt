-- ===== src/Base/Result.antt =====
-- Exceptions of the services as values, and calls that change a state and may raise.
use mathlib.Core.Path.{◌≡◌, refl, sym, ap, subst}
use mathlib.Core.Logic.{◌⊎◌, inl, inr}
use mathlib.Core.Bool.{Bool, true, false}
use mathlib.Core.Option.{Option, none, some}

-- What is raised, one constructor for each message of the source; a `ValueError` where no other
-- class is named.
pub data Exn : Type 0 where
  -- blockchain.py
  zero_hash empty_cid hash_registered : Exn
  zero_batch_hash batch_issued empty_manifest no_units bad_period : Exn
  batch_not_found no_amount insufficient_units : Exn
  -- `NotImplementedError` of the provider stubs
  not_implemented : Exn
  -- marketplace.py
  bad_quantity lot_not_found lot_not_open not_issued no_price exceeds_available : Exn
  buyer_not_found buyer_disabled wallet_not_found too_few_custodied low_balance : Exn
  -- lot_service.py
  empty_ids hec_not_found lot_validation lot_validation_owned : Exn
  -- burn_service.py
  bad_reason low_hec_balance low_inventory no_batch few_source_ids unconsumed : Exn
  -- hec_generator.py
  not_approved : Exn
  -- telemetry.py's answers 404, 401, 409 and 422
  plant_not_found bad_signature replayed bad_timestamp : Exn
  -- `ValueError` of a text that is no timestamp
  no_timestamp : Exn
  -- consumer_pf.py's answers 409 and 401, and auth.py
  document_taken unauthorized : Exn
  email_taken bad_credentials account_disabled email_required : Exn
  -- generator_onboarding.py's answers 422, 409, 404 and 403
  rules_broken already_generator generator_not_found not_owner no_consent : Exn
  -- inverter_telemetry.py's answers 503, 404, 422 and 500
  ingest_disabled devices_down device_not_found not_inverter site_closed device_retired : Exn
  not_persisted : Exn
  -- `TypeError`, and the database's `IntegrityError`
  type_error integrity_error : Exn

-- Exceptions that are no `ValueError`.
abbrev pub is_uncaught : Exn → Bool
is_uncaught type_error = true
is_uncaught not_implemented = true
is_uncaught integrity_error = true
is_uncaught _ = false

pub data Result (A : Type 0) : Type 0 where
  ok : A → Result A
  err : Exn → Result A

-- The state comes back after a raise too: what was written before it stays written.
abbrev pub Action : Type 0 → Type 0 → Type 0
Action S A = S → Result A × S

module _ {S A : Type 0} where
  abbrev pub pure : A → Action S A
  pure a s = (ok a, s)

  abbrev pub raise : Exn → Action S A
  raise e s = (err e, s)

  abbrev pub gets : (S → A) → Action S A
  gets f s = (ok (f s), s)

  abbrev pub or_raise : Option A → Exn → Action S A
  or_raise none e s = (err e, s)
  or_raise (some a) e s = (ok a, s)

abbrev pub raise_if : {S : Type 0} → Bool → Exn → Action S (Unit {0})
raise_if true e s = (err e, s)
raise_if false e s = (ok tt, s)

abbrev pub modify : {S : Type 0} → (S → S) → Action S (Unit {0})
modify f s = (ok tt, f s)

infixl 5 ◌>>=◌ ◌>>◌
abbrev pub ◌>>=◌ : {S A B : Type 0} → Action S A → (A → Action S B) → Action S B
◌>>=◌ m f s = let (r, t) = m s in elim r [ ok a ↦ f a t | err e ↦ (err e, t) ]

abbrev pub ◌>>◌ : {S A B : Type 0} → Action S A → Action S B → Action S B
m >> k = m >>= λ _. k

-- The call raised, and the state is the one before it.
abbrev pub Refuses : {S A : Type 0} → S → Result A × S → Type 0
Refuses s (ok a, t) = ⊥
Refuses s (err e, t) = t ≡ s

-- What held of the state holds after a call that raised before it wrote.
pub Refuses-keeps :
    {S A : Type 0} (P : S → Type 0) (s : S) (o : Result A × S) → Refuses s o → P s → P o.1
Refuses-keeps P s (ok a, t) h p = absurd h
Refuses-keeps P s (err e, t) h p = subst P (sym h) p

-- A call that never returns and is undone is a refusal, and so is what would follow a refusal.
pub Refuses-same : {S A : Type 0} (s : S) (o : Result A × S) → Refuses s o → o.1 ≡ s
Refuses-same s (ok a, t) h = absurd h
Refuses-same s (err e, t) h = h

pub bind-Refuses :
    {S A B : Type 0} (m : Action S A) (k : A → Action S B) (s : S)
    → Refuses s (m s)
    → Refuses s ((m >>= k) s)
bind-Refuses {S = S} {A = A} m k s h = go (m s) h
  where
    go : (o : Result A × S) → Refuses s o → Refuses s (((λ _. o) >>= k) s)
    go (ok a, t) r = absurd r
    go (err e, t) r = r

pub Result-cases : {A : Type 0} (r : Result A) → ((e : Exn) × (r ≡ err e)) ⊎ ((a : A) × (r ≡ ok a))
Result-cases (ok a) = inr (a, refl)
Result-cases (err e) = inl (e, refl)

abbrev pub is_ok : {A : Type 0} → Result A → Bool
is_ok (ok a) = true
is_ok (err e) = false

-- What holds after a call that returns.
abbrev pub Post : {S A : Type 0} → (A → S → Type 0) → Result A × S → Type 0
Post P (ok a, t) = P a t
Post P (err e, t) = Unit {0}

pub ends_or_raises : {S A : Type 0} (o : Result A × S) → Post (λ (_ : A) (_ : S). Unit {0}) o
ends_or_raises (ok a, t) = tt
ends_or_raises (err e, t) = tt

pub Post-bind :
    {S A B : Type 0} (P : A → S → Type 0) (Q : B → S → Type 0) (m : Action S A) (k : A → Action S B)
    (s : S)
    → Post P (m s)
    → ((a : A) (t : S) → P a t → Post Q (k a t))
    → Post Q ((m >>= k) s)
Post-bind {S = S} {A = A} P Q m k s h next = go (m s) h
  where
    go : (o : Result A × S) → Post P o → Post Q (((λ _. o) >>= k) s)
    go (ok a, t) p = next a t p
    go (err e, t) p = tt

pub Post-Post :
    {S A : Type 0} (P Q : A → S → Type 0) (o : Result A × S)
    → ((a : A) (t : S) → P a t → Q a t)
    → Post P o
    → Post Q o
Post-Post P Q (ok a, t) f h = f a t h
Post-Post P Q (err e, t) f h = tt

-- What every call keeps, whatever its outcome, their sequence keeps.
pub bind-keeps :
    {S A B : Type 0} (P : S → Type 0) (m : Action S A) (k : A → Action S B) (s : S)
    → P (m s).1
    → ((a : A) (t : S) → P t → P (k a t).1)
    → P ((m >>= k) s).1
bind-keeps {S = S} {A = A} P m k s h next = go (m s) h
  where
    go : (o : Result A × S) → P o.1 → P (((λ _. o) >>= k) s).1
    go (ok a, t) p = next a t p
    go (err e, t) p = p

-- What follows a test runs where the test failed, and what follows a look-up, on what was found.
module _ {S B : Type 0} (P : B → S → Type 0) (x : Exn) where
  pub raise_if-Post :
      (b : Bool) (k : Action S B) (s : S)
      → (b ≡ false → Post P (k s))
      → Post P ((raise_if b x >> k) s)
  raise_if-Post true k s h = tt
  raise_if-Post false k s h = h refl

  pub or_raise-Post :
      {A : Type 0} (o : Option A) (k : A → Action S B) (s : S)
      → ((a : A) → o ≡ some a → Post P (k a s))
      → Post P ((or_raise o x >>= k) s)
  or_raise-Post none k s h = tt
  or_raise-Post (some a) k s h = h a refl

-- What is kept whatever the outcome, past a test and a look-up.
module _ {S B : Type 0} (P : S → Type 0) (x : Exn) where
  pub raise_if-keeps :
      (b : Bool) (k : Action S B) (s : S)
      → P s
      → (b ≡ false → P (k s).1)
      → P ((raise_if b x >> k) s).1
  raise_if-keeps true k s h next = h
  raise_if-keeps false k s h next = next refl

  pub or_raise-keeps :
      {A : Type 0} (o : Option A) (k : A → Action S B) (s : S)
      → P s
      → ((a : A) → o ≡ some a → P (k a s).1)
      → P ((or_raise o x >>= k) s).1
  or_raise-keeps none k s h next = h
  or_raise-keeps (some a) k s h next = next a refl

-- A call that returns hands over to what follows it.
pub bind_ok :
    {S A B : Type 0} (m : Action S A) (k : A → Action S B) (s : S) {a : A} {t : S}
    → m s ≡ (ok a, t)
    → (m >>= k) s ≡ k a t
bind_ok m k s e = ap (λ o. ((λ _. o) >>= k) s) e

-- A call that returned left what holds after every return.
pub Post-ok :
    {S A : Type 0} (P : A → S → Type 0) (o : Result A × S) {a : A} {t : S}
    → o ≡ (ok a, t)
    → Post P o
    → P a t
Post-ok P o e h = subst (Post P) e h

-- A call that raises hands over to nothing.
pub bind_err :
    {S A B : Type 0} (m : Action S A) (k : A → Action S B) (s : S) {x : Exn}
    → (m s).0 ≡ err x
    → ((m >>= k) s).0 ≡ err x
bind_err {S = S} {A = A} m k s {x} h = go (m s) h
  where
    go : (o : Result A × S) → o.0 ≡ err x → (((λ _. o) >>= k) s).0 ≡ err x
    go (ok a, t) e = cc
    go (err y, t) e = cc

-- What is written in a transaction that raises is taken back.
abbrev pub settle : {S A : Type 0} → S → Result A × S → Result A × S
settle s (ok a, t) = (ok a, t)
settle s (err x, t) = (err x, s)

abbrev pub transaction : {S A : Type 0} → Action S A → Action S A
transaction m s = settle s (m s)

pub settle_err :
    {S A : Type 0} (s : S) (o : Result A × S) {x : Exn} → o.0 ≡ err x → settle s o ≡ (err x, s)
settle_err s (ok a, t) e = cc
settle_err s (err y, t) e = ap (λ z. (z, s)) e
