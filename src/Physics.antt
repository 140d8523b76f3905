-- ===== src/Physics.antt =====
-- app/physics.py: the most energy that the sun can give a plant, and the comparison of a report with
-- it. The floats are those of `Float`; `Sun` has what comes from elsewhere.
pub mod Laws
use hec_mvp.Base.{ℕ, String, Bool, ◌||◌, Option, none, some, if◌then◌else◌, nat_eq, string_eq}
use hec_mvp.Base.Float.{Float}
use hec_mvp.Instant.{Datetime, aware, hour, minute, second, day}

-- `pvlib`: the apparent elevation and the clear-sky irradiance at a place, a time and an altitude, or
-- nothing where the package is missing or raises; `day_of_year`: of a day of the clock.
pub record Sun (fl : Float) : Type 0 where
  pub pvlib : fl.F → fl.F → Datetime → fl.F → Option (fl.F × fl.F)
  pub day_of_year : ℕ → ℕ

module _ (fl : Float) (sun : Sun fl) where
  open fl use {
    F, lit, add, sub, mul, div, pow, neg, sin, cos, asin, radians, degrees, le, lt, round,
  }

  pub record PhysicsResult : Type 0 where
    pub theoretical_max_kwh : F
    pub theoretical_max_kw : F
    pub ghi_clear_sky_wm2 : F
    pub solar_elevation_deg : F
    pub physics_pass : Bool
    pub reported_kwh : F
    pub capacity_kw : F
    pub interval_hours : F
    pub method : String

  abbrev pub stc_irradiance_wm2 : F
  stc_irradiance_wm2 = lit 1000 0

  abbrev pub safety_margin : F
  safety_margin = lit 115 2

  abbrev pub default_interval_hours : F
  default_interval_hours = lit 1 0

  abbrev pub night_threshold_deg : F
  night_threshold_deg = lit 0 0

  -- `max(a, b)` and `min(a, b)`
  abbrev pub max_f : F → F → F
  max_f a b = if lt a b then b else a

  abbrev pub min_f : F → F → F
  min_f a b = if lt b a then b else a

  -- The angle of a day in the year.
  abbrev pub year_angle : ℕ → F
  year_angle n = radians (mul (div (lit 3600 1) (lit 3650 1)) (sub (lit n 0) (lit 81 0)))

  unfoldable pub solar_declination_deg : ℕ → F
  solar_declination_deg n = mul (lit 2345 2) (sin (year_angle n))

  unfoldable pub equation_of_time_min : ℕ → F
  equation_of_time_min n =
      let b = year_angle n in
      sub (sub (mul (lit 987 2) (sin (mul (lit 2 0) b))) (mul (lit 753 2) (cos b)))
        (mul (lit 15 1) (sin b))

  -- The hour is the one of the timestamp's own zone.
  unfoldable pub solar_elevation_deg : F → F → Datetime → F
  solar_elevation_deg lat lng dt =
      let n = sun.day_of_year (day dt) in
      let decl = radians (solar_declination_deg n) in
      let lat_rad = radians lat in
      let eot = equation_of_time_min n in
      let utc_hour =
        add (add (lit (hour dt) 0) (div (lit (minute dt) 0) (lit 60 0)))
          (div (lit (second dt) 0) (lit 3600 0)) in
      let solar_time = add (add utc_hour (div lng (lit 15 0))) (div eot (lit 60 0)) in
      let hour_angle = radians (mul (lit 15 0) (sub solar_time (lit 12 0))) in
      let sin_elev =
        add (mul (sin lat_rad) (sin decl)) (mul (mul (cos lat_rad) (cos decl)) (cos hour_angle)) in
      degrees (asin (max_f (neg (lit 1 0)) (min_f (lit 1 0) sin_elev)))

  unfoldable pub clear_sky_ghi_wm2 : F → F → F
  clear_sky_ghi_wm2 elevation altitude_m =
      let zenith = sub (lit 90 0) elevation in
      let air_mass = div (lit 1 0) (
        add (cos (radians zenith))
          (mul (lit 50572 5) (pow (sub (lit 9607995 5) zenith) (neg (lit 16364 4))))) in
      let altitude_factor = add (lit 1 0) (mul (lit 1 1) (div altitude_m (lit 1000 0))) in
      let clear =
        mul (mul (lit 1366 0) (pow (lit 7 1) (pow air_mass (lit 678 3))))
          (sin (radians elevation)) in
      if le elevation night_threshold_deg
      then lit 0 0
      else if le (lit 899 1) zenith
      then lit 0 0
      else max_f (lit 0 0) (mul clear altitude_factor)

  -- Elevation, irradiance and method.
  abbrev pub Sky : Type 0
  Sky = F × F × String

  unfoldable pub try_pvlib : F → F → Datetime → F → Option Sky
  try_pvlib lat lng timestamp altitude_m = elim (sun.pvlib lat lng (aware timestamp) altitude_m) [
    | none ↦ none
    | some found ↦ some (found.0, found.1, "pvlib")
  ]

  unfoldable pub analytical_solar : F → F → Datetime → F → Sky
  analytical_solar lat lng timestamp altitude_m =
      let elevation = solar_elevation_deg lat lng (aware timestamp) in
      (elevation, clear_sky_ghi_wm2 elevation altitude_m, "analytical")

  unfoldable pub sky_of : F → F → Datetime → F → Bool → Sky
  sky_of lat lng timestamp altitude_m force_analytical =
      let tried : Option Sky =
        if force_analytical then none else try_pvlib lat lng timestamp altitude_m in
      elim tried [ none ↦ analytical_solar lat lng timestamp altitude_m | some sky ↦ sky ]

  -- The comparison with what a sky gives.
  unfoldable pub judge : Sky → F → F → F → F → PhysicsResult
  judge sky capacity_kw reported_kwh interval_hours margin =
      let power : F =
        if le sky.1 (lit 0 0) || le sky.0 night_threshold_deg
        then lit 0 0
        else mul (mul capacity_kw (div sky.1 stc_irradiance_wm2)) margin in
      let theoretical_max_kwh = round 4 (mul power interval_hours) in
      record {
        theoretical_max_kwh = theoretical_max_kwh;
        theoretical_max_kw = round 4 power;
        ghi_clear_sky_wm2 = round 2 sky.1;
        solar_elevation_deg = round 2 sky.0;
        physics_pass = le reported_kwh theoretical_max_kwh;
        reported_kwh = reported_kwh;
        capacity_kw = capacity_kw;
        interval_hours = interval_hours;
        method = sky.2;
      }

  unfoldable pub compute_theoretical_max :
      F → F → F → Datetime → F → F → F → F → Bool → PhysicsResult
  unfolding judge
  compute_theoretical_max lat lng capacity_kw timestamp reported_kwh interval_hours altitude_m
        margin force_analytical =
      judge (sky_of lat lng timestamp altitude_m force_analytical) capacity_kw reported_kwh
        interval_hours margin
