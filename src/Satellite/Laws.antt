-- ===== src/Satellite/Laws.antt =====
-- What the two layers of irradiance let through, together.
use hec_mvp.Base.{ℕ, ◌≡◌, Bool, true, ◌==◌, nat_eq, string_eq}
use hec_mvp.Base.Float.{Float}
use hec_mvp.Instant.{Datetime}
use hec_mvp.Physics.{Sun, sky_of, compute_theoretical_max, default_interval_hours}
use hec_mvp.Physics.Laws.{AreExactAtZero, is_dark, physics_dark}
use hec_mvp.Satellite.{SatelliteProvider, fetch_irradiance, validate_satellite}

module _ (fl : Float) (sun : Sun fl) (provider : SatelliteProvider fl sun) (gauss : fl.F → fl.F)
    (lat lng capacity : fl.F) (ts : Datetime) (altitude margin satellite_margin : fl.F)
    (analytical : Bool) where
  -- What the layers say of a report of `a` 10^-4 kWh in an hour.
  abbrev pub physics_passes : ℕ → Bool
  physics_passes a =
      (compute_theoretical_max fl sun lat lng capacity ts (fl.lit a 4)
        (default_interval_hours fl sun) altitude margin analytical).physics_pass

  abbrev pub satellite_passes : ℕ → Bool
  satellite_passes a =
      (validate_satellite fl sun provider gauss lat lng capacity ts (fl.lit a 4) (fl.lit 1 0)
        satellite_margin).satellite_pass

  -- While the sun is not above the horizon, or gives no irradiance, physics lets through the report of
  -- no energy and no other, whatever the capacity and the margin; the satellite does so where it sees
  -- no irradiance.
  pub dark_passes_zero :
      (a : ℕ)
      → AreExactAtZero fl
      → (is_dark fl sun (sky_of fl sun lat lng ts altitude analytical) ≡ true
          → physics_passes a ≡ (a == 0))
        × (fl.le (fetch_irradiance fl sun provider gauss lat lng ts).ghi_wm2 (fl.lit 0 0) ≡ true
            → satellite_passes a ≡ (a == 0))
  unfolding compute_theoretical_max validate_satellite
  dark_passes_zero a o = (
    physics_dark fl sun (sky_of fl sun lat lng ts altitude analytical) capacity margin a o,
    λ dark. rw (dark, o.round_zero) (o.lit_zero a),
  )
