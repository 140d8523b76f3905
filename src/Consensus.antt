-- ===== src/Consensus.antt =====
-- app/consensus.py: the comparison of a plant with its neighbours. Energies count 10^-4 kWh, capacities
-- 10^-3 kW, times microseconds, ratios 10^-6 kWh/kWp, percentages hundredths. `Geo` is what comes from outside or is
-- float arithmetic; coordinates stand only in it.
pub mod Median
pub mod Neighbors
pub mod Laws
pub mod Tests
use hec_mvp.Base.{
  ℕ, zero, ◌+◌, ◌-◌, ◌*◌, ◌/◌, ◌%◌, String, Bool, not, ◌&&◌, Option, none, some, List, [], ◌∷◌, map,
  text_beq, ltb, leb, ◌==◌, if◌then◌else◌, nat_eq, string_eq, length, drop, select, find, order_by,
}

-- The columns of a plant and of a telemetry row that the comparison reads.
pub record Plant : Type 0 where
  pub plant_id : ℕ
  pub name : String
  pub capacity_kw : ℕ
  pub status : String

pub record Telemetry : Type 0 where
  pub plant_id : ℕ
  pub time : ℕ
  pub energy_kwh : ℕ

pub record Neighborhood : Type 0 where
  pub plants : List Plant
  pub telemetry : List Telemetry

pub record NeighborReading : Type 0 where
  pub plant_id : ℕ
  pub plant_name : String
  pub distance_km : ℕ
  pub capacity_kw : ℕ
  pub energy_kwh : ℕ
  pub normalized_ratio : ℕ
  pub telemetry_time : ℕ

-- The median has twice the scale of a ratio, so that a half is exact.
pub record ConsensusResult : Type 0 where
  pub consensus_pass : Option Bool
  pub deviation_pct : Option ℕ
  pub median_ratio : Option ℕ
  pub plant_ratio : ℕ
  pub neighbor_count : ℕ
  pub neighbors_used : ℕ
  pub neighbors : List NeighborReading

abbrev pub time_window : ℕ
time_window = 30 * 60 * 1000000

abbrev pub deviation_threshold_pct : ℕ
deviation_threshold_pct = 3000

abbrev pub min_neighbors : ℕ
min_neighbors = 2

-- `postgis`: the rows of the PostGIS query, plant ids with distances, or nothing when the database raises;
-- `is_within` and `distance_km`: whether `haversine_km` of two plants is at most the radius, and its value
-- rounded to 10^-4 km; `ratio`: `round(energy / capacity, 6)`; `deviation`: the rounded
-- `abs(energy / capacity - median) / median * 100`, of an energy, a capacity and twice the median.
pub record Geo : Type 0 where
  pub postgis : Plant → Option (List (ℕ × ℕ))
  pub is_within : Plant → Plant → Bool
  pub distance_km : Plant → Plant → ℕ
  pub ratio : ℕ → ℕ → ℕ
  pub deviation : ℕ → ℕ → ℕ → ℕ

-- The rows of the query that have a plant.
unfoldable pub known_plants : List Plant → List (ℕ × ℕ) → List (Plant × ℕ)
known_plants plants [] = []
known_plants plants (row ∷ rows) =
    let rest = known_plants plants rows in
    elim (find (λ (p : Plant). p.plant_id == row.0) plants) [
      | none ↦ rest
      | some p ↦ (p, row.1) ∷ rest
    ]

module _ (geo : Geo) where
  unfoldable pub find_neighbors_haversine : Plant → List Plant → List (Plant × ℕ)
  find_neighbors_haversine plant plants =
      let near =
        select
          (λ (p : Plant).
            not (p.plant_id == plant.plant_id)
            && text_beq p.status "active"
            && geo.is_within plant p)
          plants in
      order_by (λ (a b : Plant × ℕ). ltb a.1 b.1) (map (λ p. (p, geo.distance_km plant p)) near)

  unfoldable pub find_neighbors : Plant → List Plant → List (Plant × ℕ)
  find_neighbors plant plants = elim (geo.postgis plant) [
    | none ↦ find_neighbors_haversine plant plants
    | some rows ↦ known_plants plants rows
  ]

  abbrev pub in_window : ℕ → ℕ → Telemetry → Bool
  in_window plant_id reference_time t =
      t.plant_id == plant_id
      && leb reference_time (t.time + time_window)
      && leb t.time (reference_time + time_window)

  abbrev pub first_of : {A : Type 0} → List A → Option A
  first_of [] = none
  first_of (x ∷ xs) = some x

  -- The latest telemetry of a plant in the window.
  unfoldable pub latest : ℕ → ℕ → List Telemetry → Option Telemetry
  latest plant_id reference_time ts = first_of (
      order_by (λ (a b : Telemetry). ltb b.time a.time)
        (select (in_window plant_id reference_time) ts))

  unfoldable pub reading_of : Plant → ℕ → Telemetry → NeighborReading
  reading_of p distance t = record {
    plant_id = p.plant_id;
    plant_name = p.name;
    distance_km = distance;
    capacity_kw = p.capacity_kw;
    energy_kwh = t.energy_kwh;
    normalized_ratio = geo.ratio t.energy_kwh p.capacity_kw;
    telemetry_time = t.time;
  }

  unfoldable pub get_neighbor_readings :
      List Telemetry → ℕ → List (Plant × ℕ) → List NeighborReading
  get_neighbor_readings ts reference_time [] = []
  get_neighbor_readings ts reference_time (n ∷ ns) =
      let rest = get_neighbor_readings ts reference_time ns in
      elim (latest n.0.plant_id reference_time ts) [
        | none ↦ rest
        | some t ↦ if ltb 0 n.0.capacity_kw then reading_of n.0 n.1 t ∷ rest else rest
      ]

  -- `sorted_v[i]`
  abbrev pub nth : ℕ → List ℕ → ℕ
  nth i xs = elim (first_of (drop i xs)) [ none ↦ 0 | some x ↦ x ]

  -- Twice `_median(values)`.
  unfoldable pub median : List ℕ → ℕ
  median values =
      let sorted = order_by ltb values in
      let n = length sorted in
      let mid = n / 2 in
      if n == 0
      then 0
      else if n % 2 == 0
      then nth (mid - 1) sorted + nth mid sorted
      else 2 * nth mid sorted

  -- The deviation, with the cases of a median or a ratio of zero.
  unfoldable pub deviation_of : Plant → ℕ → ℕ → ℕ
  deviation_of plant energy_kwh med =
      let has_ratio = ltb 0 plant.capacity_kw && ltb 0 energy_kwh in
      if ltb 0 med
      then geo.deviation energy_kwh plant.capacity_kw med
      else if has_ratio
      then 10000
      else 0

  unfoldable pub plant_ratio_of : Plant → ℕ → ℕ
  plant_ratio_of plant energy_kwh =
      if ltb 0 plant.capacity_kw then geo.ratio energy_kwh plant.capacity_kw else 0

  abbrev pub ratios : List NeighborReading → List ℕ
  ratios = map (λ (r : NeighborReading). r.normalized_ratio)

  unfoldable pub validate_consensus : Neighborhood → Plant → ℕ → ℕ → ConsensusResult
  validate_consensus db plant energy_kwh reference_time =
      let neighbors = find_neighbors plant db.plants in
      let readings = get_neighbor_readings db.telemetry reference_time neighbors in
      let med = median (ratios readings) in
      let deviation = deviation_of plant energy_kwh med in
      if ltb (length readings) min_neighbors
      then record {
        consensus_pass = none;
        deviation_pct = none;
        median_ratio = none;
        plant_ratio = plant_ratio_of plant energy_kwh;
        neighbor_count = length neighbors;
        neighbors_used = length readings;
        neighbors = readings;
      }
      else record {
        consensus_pass = some (leb deviation deviation_threshold_pct);
        deviation_pct = some deviation;
        median_ratio = some med;
        plant_ratio = plant_ratio_of plant energy_kwh;
        neighbor_count = length neighbors;
        neighbors_used = length readings;
        neighbors = readings;
      }
