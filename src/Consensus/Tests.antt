-- ===== src/Consensus/Tests.antt =====
-- Runs of the comparison in a small neighbourhood.
use hec_mvp.Base.{
  ℕ, ◌-◌, ◌*◌, ◌/◌, ◌≡◌, refl, true, none, some, [], ◌∷◌, ltb, if◌then◌else◌, nat_eq, string_eq,
}
use hec_mvp.Consensus.{
  Plant, Telemetry, Neighborhood, Geo, validate_consensus, median, find_neighbors,
  find_neighbors_haversine, get_neighbor_readings, latest, reading_of, deviation_of,
}

abbrev near_by : Geo
near_by = record {
  postgis = λ p. none;
  is_within = λ p q. true;
  distance_km = λ p q. 10000;
  ratio = λ energy capacity. energy * 100000 / capacity;
  deviation = λ energy capacity med.
      let r = energy * 200000 / capacity in (if ltb r med then med - r else r - med) * 10000 / med;
}

abbrev site : ℕ → Plant
site id = record { plant_id = id; name = "site"; capacity_kw = 10000; status = "active" }

abbrev reading_at : ℕ → ℕ → ℕ → Telemetry
reading_at id time energy = record { plant_id = id; time = time * 1000000; energy_kwh = energy }

abbrev area : Neighborhood
area = record {
  plants = site 1 ∷ site 2 ∷ site 3 ∷ [];
  telemetry = reading_at 2 5000 40000 ∷ reading_at 3 5600 44000 ∷ reading_at 3 9000 1 ∷ [];
}

agrees : (validate_consensus near_by area (site 1) 41000 5200000000).consensus_pass ≡ some true
unfolding validate_consensus find_neighbors find_neighbors_haversine get_neighbor_readings latest
    reading_of median deviation_of
agrees = refl
