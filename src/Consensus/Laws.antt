-- ===== src/Consensus/Laws.antt =====
-- What a verdict of the comparison rests on.
use hec_mvp.Base.{
  ℕ, ◌≤◌, ◌<◌, ◌≡◌, ◌⊎◌, some, none, ltb, leb, nat_eq, string_eq, length, All, count_if, is_some,
  ◌&&◌,
}
use hec_mvp.Consensus.{
  Plant, Neighborhood, ConsensusResult, Geo, deviation_threshold_pct, min_neighbors, latest, ratios,
  deviation_of, find_neighbors,
}
use hec_mvp.Consensus.Median.{IsMedian}
use hec_mvp.Consensus.Neighbors.{IsFit, count_near}

module _ (geo : Geo) where
  -- What a result says. Each reading is the latest, within 30 minutes of the reference, of a neighbour
  -- with a capacity, and no neighbour that has one is left out. Without two readings it is inconclusive, and no deviation is
  -- given; with two it is decided by the deviation from the median of their ratios.
  pub record IsVerdict (db : Neighborhood) (energy_kwh reference_time : ℕ) (plant : Plant)
      (r : ConsensusResult) : Type 0 where
    pub fit : All (IsFit geo db plant reference_time) r.neighbors
    pub counted : r.neighbor_count ≡ count_near geo plant db.plants (geo.postgis plant)
    pub complete :
        length r.neighbors
        ≡ count_if
            (λ n.
              is_some (latest geo n.0.plant_id reference_time db.telemetry)
              && ltb 0 n.0.capacity_kw)
            (find_neighbors geo plant db.plants)
    pub used : r.neighbors_used ≡ length r.neighbors
    pub decided :
        ((length r.neighbors < min_neighbors)
          × (r.consensus_pass ≡ none)
          × (r.deviation_pct ≡ none))
        ⊎ ((min_neighbors ≤ length r.neighbors)
            × (med : ℕ) × (r.median_ratio ≡ some med)
            × (r.deviation_pct ≡ some (deviation_of geo plant energy_kwh med))
            × (r.consensus_pass
                ≡ some (leb (deviation_of geo plant energy_kwh med) deviation_threshold_pct))
            × IsMedian med (ratios geo r.neighbors))
