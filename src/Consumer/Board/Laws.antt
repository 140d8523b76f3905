-- ===== src/Consumer/Board/Laws.antt =====
-- The leaderboard is in order, counts from one, leaves out nobody who is above someone on it, and
-- shows its reader.
use hec_mvp.Base.{
  ℕ, ◌+◌, ◌≤◌, min, ◌≡◌, refl, ◌∙◌, subst, ◌⊎◌, inl, inr, Bool, true, List, [], ◌∷◌, ◌++◌, arith,
  is_some, nat_eq, string_eq, length, drop, length-take, select, order_by, All, find, count_if,
  length-select, length-order_by, Bool-cases, Option-cases, ◌==◌,
}
use mathlib.Core.List.{append-nil}
use hec_mvp.Base.Keys.{All-map}
use hec_mvp.Base.Rows.{find-append_last}
use hec_mvp.Base.Sorted.{
  Descending, order_by-Descending, Descending-split, Occurs, All-Occurs, taken_or_left,
  All-select_back, All-order_by_back,
}
use hec_mvp.Ledger.{User}
use hec_mvp.Session.{has}
use hec_mvp.Store.{ConsumerProfile, DnftDefinition, Store}
use hec_mvp.Identity.{profile_of}
use hec_mvp.Consumer.History.{Clock}
use hec_mvp.Consumer.Board.{
  LeaderboardItem, ranks, outranks, owner_of, top_ten, board_item, board_items, build_leaderboard,
}

abbrev retired : ConsumerProfile → ℕ
retired p = p.total_retired_mhec

abbrev shown : LeaderboardItem → ℕ
shown i = i.retired_mhec

abbrev is_owned : Store → ConsumerProfile → Bool
is_owned s p = is_some (owner_of s p)

-- The profiles that the query orders: those of users on record.
abbrev pub ranked : Store → List ConsumerProfile
ranked s = order_by ranks (select (is_owned s) s.profiles.rows)

-- The positions count from `k`.
abbrev pub IsNumbered : ℕ → List LeaderboardItem → Type 0
IsNumbered k [] = Unit {0}
IsNumbered k (i ∷ is) = (i.position ≡ k) × IsNumbered (k + 1) is

-- Everybody on record is among the first ten, or has not retired more than any of these.
ranked-leads :
    (s : Store)
    → Descending retired (top_ten s)
      × All
          (λ p.
            is_owned s p ≡ true
            → Occurs p (top_ten s) ⊎ All (λ q. retired p ≤ retired q) (top_ten s))
          s.profiles.rows
unfolding top_ten
ranked-leads s =
    let sorted =
      order_by-Descending retired ranks (λ x y e. ground arith) (λ x y e. ground arith)
        (select (is_owned s) s.profiles.rows) in
    let (first, leads) = Descending-split retired 10 (ranked s) sorted in
    let Placed : ConsumerProfile → Type 0 =
      λ p. Occurs p (top_ten s) ⊎ All (λ q. retired p ≤ retired q) (top_ten s) in
    let placed : All Placed (ranked s) =
      All-map (ranked s)
        (λ p o. elim o as (λ _. Placed p) [
          | inl a ↦ inl a
          | inr b ↦ inr (
              All-map (top_ten s)
                (λ q l. All-Occurs (λ y. retired y ≤ retired q) (drop 10 (ranked s)) l b) leads)
        ])
        (taken_or_left 10 (ranked s)) in
    (
      first,
      All-select_back Placed (is_owned s) s.profiles.rows
          (All-order_by_back Placed ranks (select (is_owned s) s.profiles.rows) placed),
    )

length-top_ten : (s : Store) → length (top_ten s) ≡ min 10 (count_if (is_owned s) s.profiles.rows)
unfolding top_ten
length-top_ten s = omega (
  arith,
  length-take 10 (ranked s),
  length-order_by ranks (select (is_owned s) s.profiles.rows),
  length-select (is_owned s) s.profiles.rows,
)

module _ (clock : Clock) (tiers : List DnftDefinition) (s : Store) (user : User) where
  abbrev items : ℕ → List ConsumerProfile → List LeaderboardItem
  items k ps = board_items clock s tiers user.user_id k ps

  items-length : (k : ℕ) (ps : List ConsumerProfile) → length (items k ps) ≡ length ps
  unfolding board_items
  items-length k [] = refl
  items-length k (p ∷ ps) = omega (arith, items-length (k + 1) ps)

  items-IsNumbered : (k : ℕ) (ps : List ConsumerProfile) → IsNumbered k (items k ps)
  unfolding board_items board_item
  items-IsNumbered k [] = tt
  items-IsNumbered k (p ∷ ps) = (refl, items-IsNumbered (k + 1) ps)

  -- Each row is of the profile at its place.
  abbrev pub AreRowsOf : List LeaderboardItem → List ConsumerProfile → Type 0
  AreRowsOf [] [] = Unit {0}
  AreRowsOf [] (p ∷ ps) = ⊥
  AreRowsOf (i ∷ is) [] = ⊥
  AreRowsOf (i ∷ is) (p ∷ ps) =
      (i.retired_mhec ≡ p.total_retired_mhec)
      × (i.streak_days ≡ p.current_streak_days)
      × (i.is_user ≡ (p.user_id == user.user_id))
      × AreRowsOf is ps

  items-AreRowsOf : (k : ℕ) (ps : List ConsumerProfile) → AreRowsOf (items k ps) ps
  unfolding board_items board_item
  items-AreRowsOf k [] = tt
  items-AreRowsOf k (p ∷ ps) = (refl, refl, refl, items-AreRowsOf (k + 1) ps)

  items-All :
      (P : ℕ → Type 0) (k : ℕ) (ps : List ConsumerProfile)
      → All (λ p. P (retired p)) ps
      → All (λ i. P (shown i)) (items k ps)
  unfolding board_items board_item
  items-All P k [] h = tt
  items-All P k (p ∷ ps) h = (h.0, items-All P (k + 1) ps h.1)

  items-Descending :
      (k : ℕ) (ps : List ConsumerProfile) → Descending retired ps → Descending shown (items k ps)
  unfolding board_items board_item
  items-Descending k [] h = tt
  items-Descending k (p ∷ ps) h =
      (items-All (λ n. n ≤ retired p) (k + 1) ps h.0, items-Descending (k + 1) ps h.1)

  -- A board of `first` rows and perhaps one more, its reader's.
  pub record IsBoard (board : List LeaderboardItem) : Type 0 where
    pub first : List LeaderboardItem
    pub more : List LeaderboardItem
    pub parts : board ≡ first ++ more
    pub full : length first ≡ min 10 (count_if (is_owned s) s.profiles.rows)
    pub rows_of : AreRowsOf first (top_ten s)
    pub numbered : IsNumbered 1 first
    pub sorted : Descending shown first
    pub leads :
        All
          (λ p. is_owned s p ≡ true → Occurs p (top_ten s) ⊎ All (λ i. retired p ≤ shown i) first)
          s.profiles.rows
    pub one_more : length more ≤ 1
    pub reader :
        is_some (profile_of user.user_id s) ≡ true
        → has (λ (i : LeaderboardItem). i.is_user) board ≡ true

  with_more :
      (more : List LeaderboardItem)
      → length more ≤ 1
      → (is_some (profile_of user.user_id s) ≡ true
          → has (λ (i : LeaderboardItem). i.is_user) (items 1 (top_ten s) ++ more) ≡ true)
      → IsBoard (items 1 (top_ten s) ++ more)
  with_more more one reader =
      let (sorted, leads) = ranked-leads s in
      record {
        first = items 1 (top_ten s);
        more = more;
        parts = refl;
        full = items-length 1 (top_ten s) ∙ length-top_ten s;
        rows_of = items-AreRowsOf 1 (top_ten s);
        numbered = items-IsNumbered 1 (top_ten s);
        sorted = items-Descending 1 (top_ten s) sorted;
        leads =
            All-map s.profiles.rows
              (λ p placed owned.
                elim (placed owned)
                  as (λ _.
                    Occurs p (top_ten s) ⊎ All (λ i. retired p ≤ shown i) (items 1 (top_ten s))) [
                      | inl a ↦ inl a
                      | inr b ↦ inr (items-All (λ n. retired p ≤ n) 1 (top_ten s) b)
                    ])
              leads;
        one_more = one;
        reader = reader;
      }

  -- The leaderboard has as many first rows as there are profiles of users on record, ten at most. They
  -- count from one and are in the order of what was retired, and no profile
  -- of a user on record that is not among them has retired more than one of them. At most one row
  -- follows, and a reader with a profile has a row.
  pub build_leaderboard-IsBoard : IsBoard (build_leaderboard clock user tiers s)
  unfolding build_leaderboard board_item
  build_leaderboard-IsBoard =
      let rows = items 1 (top_ten s) in
      let mine : LeaderboardItem → Bool = λ i. i.is_user in
      let bare = append-nil rows in
      elim (Bool-cases (is_some (find mine rows))) [
        | inl seen ↦
            rw (build_leaderboard, seen)
              (subst IsBoard bare (with_more [] (omega arith) (λ _. rw (bare, seen) refl)))
        | inr unseen ↦ elim (Option-cases (profile_of user.user_id s)) [
          | inl missing ↦
              rw (build_leaderboard, unseen, missing)
                (subst IsBoard bare
                  (with_more [] (omega arith) (λ there. absurd (ground (arith, missing, there)))))
          | inr (p, there) ↦
              let better = count_if (λ (q : ConsumerProfile). outranks q p) s.profiles.rows in
              let item = board_item clock tiers (better + 1) user.name true p in
              rw (build_leaderboard, unseen, there)
                (with_more (item ∷ []) (omega arith) (λ _. find-append_last mine rows item refl))
        ]
      ]
