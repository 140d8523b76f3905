-- ===== src/Consensus/Neighbors.antt =====
-- Whose readings a comparison uses.
use hec_mvp.Base.{
  length-order_by, length-map, length-select, ◌∙◌, length, count_if, is_some, ℕ, ◌≤◌, ◌<◌, ◌≡◌,
  refl, subst, inl, inr, Bool, true, false, not, ◌&&◌, Option, none, some, List, [], ◌∷◌, map,
  arith, ltb, ◌==◌, text_beq, ltb→lt, ==→eq, Bool-cases, Option-cases, nat_eq, string_eq, select,
  find, order_by, All,
}
use hec_mvp.Base.Sorted.{
  All-order_by, All-order_by_back, All-select_back, Descending, order_by-Descending, Occurs,
  select-Occurs, find-Occurs,
}
use hec_mvp.Base.Keys.{All-map}
use hec_mvp.Base.Rows.{find-holds}
use hec_mvp.Consensus.{
  Plant, Telemetry, Neighborhood, NeighborReading, Geo, in_window, first_of, latest, reading_of,
  get_neighbor_readings, known_plants, find_neighbors_haversine, find_neighbors,
}

-- PostGIS lists the plant; without it, the plant is another one, active and within the radius.
abbrev pub IsNear : Geo → Plant → Option (List (ℕ × ℕ)) → Plant → Type 0
IsNear geo plant none p =
    (p.plant_id == plant.plant_id ≡ false)
    × (text_beq p.status "active" ≡ true)
    × (geo.is_within plant p ≡ true)
IsNear geo plant (some rows) p = (row : ℕ × ℕ) × Occurs row rows × (p.plant_id ≡ row.0)

module _ (geo : Geo) where
  abbrev pub IsNeighbor : Plant → List Plant → Plant → Type 0
  IsNeighbor plant plants p = Occurs p plants × IsNear geo plant (geo.postgis plant) p

  map-All :
      {A B : Type 0} (P : B → Type 0) (f : A → B) (xs : List A)
      → All (λ x. P (f x)) xs
      → All P (map f xs)
  map-All P f [] h = tt
  map-All P f (x ∷ xs) h = (h.0, map-All P f xs h.1)

  known_plants-All :
      (plant : Plant) (plants : List Plant) (rows : List (ℕ × ℕ))
      → All (λ n. Occurs n.0 plants × IsNear geo plant (some rows) n.0) (known_plants plants rows)
  unfolding known_plants
  known_plants-All plant plants [] = tt
  known_plants-All plant plants (row ∷ rows) =
      let rest =
        All-map (known_plants plants rows) (λ n h. (h.0, (h.1.0, inr h.1.1, h.1.2)))
          (known_plants-All plant plants rows) in
      elim (Option-cases (find (λ (p : Plant). p.plant_id == row.0) plants)) [
        | inl missing ↦ rw (known_plants, missing) rest
        | inr (p, there) ↦
            let same = ==→eq _ _ (find-holds (λ (q : Plant). q.plant_id == row.0) plants there) in
            rw (known_plants, there) ((find-Occurs _ plants there, (row, inl refl, same)), rest)
      ]

  haversine-All :
      (plant : Plant) (plants : List Plant)
      → All
          (λ n. Occurs n.0 plants × IsNear geo plant none n.0)
          (find_neighbors_haversine geo plant plants)
  unfolding find_neighbors_haversine
  haversine-All plant plants =
      let test : Plant → Bool = λ p.
        not (p.plant_id == plant.plant_id) && text_beq p.status "active" && geo.is_within plant p in
      let P : Plant × ℕ → Type 0 = λ n. Occurs n.0 plants × IsNear geo plant none n.0 in
      All-order_by P (λ a b. ltb a.1 b.1)
        (map (λ p. (p, geo.distance_km plant p)) (select test plants))
        (map-All P (λ p. (p, geo.distance_km plant p)) (select test plants)
          (All-map (select test plants)
            (λ p h. (h.1, (ground (arith, h.0), ground (arith, h.0), ground (arith, h.0))))
            (select-Occurs test plants)))

  pub find_neighbors-All :
      (plant : Plant) (plants : List Plant)
      → All (λ n. IsNeighbor plant plants n.0) (find_neighbors geo plant plants)
  unfolding find_neighbors
  find_neighbors-All plant plants = go (geo.postgis plant)
    where
      go :
          (o : Option (List (ℕ × ℕ)))
          → All
              (λ n. Occurs n.0 plants × IsNear geo plant o n.0)
              (elim o as (λ _. List (Plant × ℕ)) [
                | none ↦ find_neighbors_haversine geo plant plants
                | some rows ↦ known_plants plants rows
              ])
      go none = haversine-All plant plants
      go (some rows) = known_plants-All plant plants rows

  -- How many plants are near.
  abbrev pub count_near : Plant → List Plant → Option (List (ℕ × ℕ)) → ℕ
  count_near plant plants none =
      count_if
        (λ (p : Plant).
          not (p.plant_id == plant.plant_id) && text_beq p.status "active" && geo.is_within plant p)
        plants
  count_near plant plants (some rows) =
      count_if (λ row. is_some (find (λ (p : Plant). p.plant_id == row.0) plants)) rows

  length-known_plants :
      (plant : Plant) (plants : List Plant) (rows : List (ℕ × ℕ))
      → length (known_plants plants rows) ≡ count_near plant plants (some rows)
  unfolding known_plants
  length-known_plants plant plants [] = refl
  length-known_plants plant plants (row ∷ rows) =
      let rest = length-known_plants plant plants rows in
      elim (Option-cases (find (λ (p : Plant). p.plant_id == row.0) plants)) [
        | inl missing ↦ rw (known_plants, missing) (omega (arith, rest))
        | inr (p, there) ↦ rw (known_plants, there) (omega (arith, rest))
      ]

  length-haversine :
      (plant : Plant) (plants : List Plant)
      → length (find_neighbors_haversine geo plant plants) ≡ count_near plant plants none
  unfolding find_neighbors_haversine
  length-haversine plant plants =
      let test : Plant → Bool = λ p.
        not (p.plant_id == plant.plant_id) && text_beq p.status "active" && geo.is_within plant p in
      let far : Plant → Plant × ℕ = λ p. (p, geo.distance_km plant p) in
      length-order_by (λ (a b : Plant × ℕ). ltb a.1 b.1) (map far (select test plants))
      ∙ length-map far (select test plants)
      ∙ length-select test plants

  pub length-find_neighbors :
      (plant : Plant) (plants : List Plant)
      → length (find_neighbors geo plant plants) ≡ count_near plant plants (geo.postgis plant)
  unfolding find_neighbors
  length-find_neighbors plant plants = go (geo.postgis plant)
    where
      go :
          (o : Option (List (ℕ × ℕ)))
          → length (elim o as (λ _. List (Plant × ℕ)) [
            | none ↦ find_neighbors_haversine geo plant plants
            | some rows ↦ known_plants plants rows
          ])
            ≡ count_near plant plants o
      go none = length-haversine plant plants
      go (some rows) = length-known_plants plant plants rows

  -- The reading is of the latest row, within the window, of a neighbour with a capacity.
  pub record IsFit (db : Neighborhood) (plant : Plant) (reference_time : ℕ) (r : NeighborReading)
      : Type 0 where
    pub neighbor : Plant
    pub near : IsNeighbor plant db.plants neighbor
    pub row : Telemetry
    pub sent : Occurs row db.telemetry
    pub within : in_window geo neighbor.plant_id reference_time row ≡ true
    pub last :
        All
          (λ t. in_window geo neighbor.plant_id reference_time t ≡ true → t.time ≤ row.time)
          db.telemetry
    pub same : (r.plant_id ≡ neighbor.plant_id) × (r.capacity_kw ≡ neighbor.capacity_kw)
    pub read : (r.energy_kwh ≡ row.energy_kwh) × (r.telemetry_time ≡ row.time)
    pub ratio : r.normalized_ratio ≡ geo.ratio row.energy_kwh neighbor.capacity_kw
    pub sized : 0 < neighbor.capacity_kw

  first_of-All :
      {A : Type 0} (P : A → Type 0) (xs : List A) {x : A}
      → All P xs
      → first_of geo xs ≡ some x
      → P x
  first_of-All P [] h e = cc
  first_of-All P (y ∷ ys) h e = subst P (ground arith) h.0

  -- The first of rows in order is not below any.
  first_of-leads :
      {A : Type 0} (f : A → ℕ) (xs : List A) {x : A}
      → Descending f xs
      → first_of geo xs ≡ some x
      → All (λ y. f y ≤ f x) xs
  first_of-leads f [] h e = cc
  first_of-leads f (y ∷ ys) h e =
      subst (λ z. All (λ w. f w ≤ f z) (y ∷ ys)) (ground arith) (omega arith, h.0)

  latest-last :
      (plant_id reference_time : ℕ) (ts : List Telemetry) {t : Telemetry}
      → latest geo plant_id reference_time ts ≡ some t
      → (in_window geo plant_id reference_time t ≡ true)
        × Occurs t ts
        × All (λ u. in_window geo plant_id reference_time u ≡ true → u.time ≤ t.time) ts
  unfolding latest
  latest-last plant_id reference_time ts {t} e =
      let later : Telemetry → Telemetry → Bool = λ a b. ltb b.time a.time in
      let test = in_window geo plant_id reference_time in
      let rows = select test ts in
      let found =
        first_of-All (λ u. (test u ≡ true) × Occurs u ts) (order_by later rows)
          (All-order_by (λ u. (test u ≡ true) × Occurs u ts) later rows (select-Occurs test ts))
          e in
      let sorted =
        order_by-Descending (λ (u : Telemetry). u.time) later (λ x y l. ground arith)
          (λ x y l. ground arith) rows in
      (
        found.0,
        found.1,
        All-select_back (λ u. u.time ≤ t.time) test ts
            (All-order_by_back (λ u. u.time ≤ t.time) later rows
              (first_of-leads (λ (u : Telemetry). u.time) (order_by later rows) sorted e)),
      )

  pub readings-IsFit :
      (db : Neighborhood) (plant : Plant) (reference_time : ℕ) (ns : List (Plant × ℕ))
      → All (λ n. IsNeighbor plant db.plants n.0) ns
      → All
          (IsFit db plant reference_time)
          (get_neighbor_readings geo db.telemetry reference_time ns)
  unfolding get_neighbor_readings reading_of
  readings-IsFit db plant reference_time [] h = tt
  readings-IsFit db plant reference_time (n ∷ ns) h =
      let rest = readings-IsFit db plant reference_time ns h.1 in
      elim (Option-cases (latest geo n.0.plant_id reference_time db.telemetry)) [
        | inl missing ↦ rw (get_neighbor_readings, missing) rest
        | inr (t, there) ↦ elim (Bool-cases (ltb 0 n.0.capacity_kw)) [
          | inl sized ↦
              let (within, sent, last) =
                latest-last n.0.plant_id reference_time db.telemetry there in
              rw (get_neighbor_readings, there, sized)
                (
                  record {
                    neighbor = n.0;
                    near = h.0;
                    row = t;
                    sent = sent;
                    within = within;
                    last = last;
                    same = (refl, refl);
                    read = (refl, refl);
                    ratio = refl;
                    sized = ltb→lt _ _ sized;
                  },
                  rest,
                )
          | inr unsized ↦ rw (get_neighbor_readings, there, unsized) rest
        ]
      ]

  -- All neighbours that have a row in the window and a capacity are used.
  pub readings-all :
      (ts : List Telemetry) (reference_time : ℕ) (ns : List (Plant × ℕ))
      → length (get_neighbor_readings geo ts reference_time ns)
        ≡ count_if
            (λ n. is_some (latest geo n.0.plant_id reference_time ts) && ltb 0 n.0.capacity_kw)
            ns
  unfolding get_neighbor_readings
  readings-all ts reference_time [] = refl
  readings-all ts reference_time (n ∷ ns) =
      let rest = readings-all ts reference_time ns in
      elim (Option-cases (latest geo n.0.plant_id reference_time ts)) [
        | inl missing ↦ rw (get_neighbor_readings, missing) (omega (arith, rest))
        | inr (t, there) ↦ elim (Bool-cases (ltb 0 n.0.capacity_kw)) [
          | inl sized ↦ rw (get_neighbor_readings, there, sized) (omega (arith, rest))
          | inr unsized ↦ rw (get_neighbor_readings, there, unsized) (omega (arith, rest))
        ]
      ]
