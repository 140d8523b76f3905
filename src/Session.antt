-- ===== src/Session.antt =====
-- The session of app/db/session.py (`SessionLocal` with `autoflush=False`): a row that was added is
-- pending, and no query finds it, until a flush or the commit. An object that a query gave is the row
-- itself, so that its assignments are seen at once.
use hec_mvp.Base.{
  Bool, true, not, ◌&&◌, List, [], ◌∷◌, ◌++◌, is_some, nat_eq, string_eq, find, update,
}

pub record Table (A : Type 0) : Type 0 where
  pub rows : List A
  pub pending : List A

module _ {A : Type 0} where
  -- `db.add(row)`
  abbrev pub add : A → Table A → Table A
  add x t = record t { pending = t.pending ++ x ∷ [] }

  abbrev pub add_all : List A → Table A → Table A
  add_all xs t = record t { pending = t.pending ++ xs }

  -- Assignments to the objects of a query.
  abbrev pub write : (A → Bool) → (A → A) → Table A → Table A
  write p f t = record t { rows = update p f t.rows }

  abbrev pub flushed : Table A → Table A
  flushed t = record { rows = t.rows ++ t.pending; pending = [] }

  abbrev pub has : (A → Bool) → List A → Bool
  has p xs = is_some (find p xs)

  -- A `UniqueConstraint`, given by the test that two rows have one key.
  abbrev pub is_unique : (A → A → Bool) → List A → Bool
  is_unique same [] = true
  is_unique same (x ∷ xs) = not (has (same x) xs) && is_unique same xs

  -- The constraint over a table with its pending rows.
  abbrev pub fits : (A → A → Bool) → Table A → Bool
  fits same t = is_unique same (t.rows ++ t.pending)
