-- ===== src/Satellite.antt =====
-- app/satellite.py: the irradiance that a satellite sees, from the synthetic provider or one of the two
-- that fall back on it, and the comparison of a report with it. A draw of `random.gauss` is an argument;
-- the raw data of a reading are left out.
pub mod Laws
use hec_mvp.Base.{String, Bool, true, ◌&&◌, Option, none, some, if◌then◌else◌, nat_eq, string_eq}
use hec_mvp.Base.Float.{Float}
use hec_mvp.Instant.{Datetime, aware, hour, minute}
use hec_mvp.Physics.{Sun, max_f, min_f, solar_elevation_deg, clear_sky_ghi_wm2}

module _ (fl : Float) (sun : Sun fl) where
  open fl use {F, lit, add, sub, mul, div, sin, pi, le, lt, round}

  pub record SatelliteReading : Type 0 where
    pub ghi_wm2 : F
    pub source : String
    pub timestamp : Datetime
    pub lat : F
    pub lng : F
    pub cloud_cover_pct : F
    pub confidence : F

  pub record SatelliteValidationResult : Type 0 where
    pub satellite_ghi_wm2 : F
    pub satellite_source : String
    pub satellite_max_kwh : F
    pub satellite_pass : Bool
    pub cloud_cover_pct : F
    pub low_irradiance : Bool
    pub high_generation_low_sun : Bool
    pub reported_kwh : F
    pub confidence : F

  abbrev pub satellite_safety_margin : F
  satellite_safety_margin = lit 120 2

  abbrev pub low_irradiance_threshold_wm2 : F
  low_irradiance_threshold_wm2 = lit 150 0

  -- The synthetic provider, with a fixed irradiance and cloud cover or without, and with noise or
  -- without; the two that wait for their interfaces.
  pub data SatelliteProvider : Type 0 where
    mock : Option F → Option F → Bool → SatelliteProvider
    inpe cams : SatelliteProvider

  abbrev pub name : SatelliteProvider → String
  name (mock ghi cloud noisy) = "mock"
  name inpe = "inpe_goes16"
  name cams = "cams_copernicus"

  abbrev pub or_zero : Option F → F
  or_zero none = lit 0 0
  or_zero (some x) = x

  -- `cloud_cover` of an hour of the day.
  unfoldable pub cloud_cover_of : Datetime → F
  cloud_cover_of dt =
      let h = add (lit (hour dt) 0) (div (lit (minute dt) 0) (lit 60 0)) in
      let base =
        add (lit 20 0) (mul (lit 15 0) (sin (div (mul pi (sub h (lit 6 0))) (lit 12 0)))) in
      max_f fl sun (lit 0 0) (min_f fl sun (lit 100 0) base)

  -- `gauss` is the draw, of the standard deviation it is given.
  unfoldable pub simulate_satellite : Bool → (F → F) → F → F → Datetime → F × F
  simulate_satellite noisy gauss lat lng dt =
      let clear = clear_sky_ghi_wm2 fl sun (solar_elevation_deg fl sun lat lng dt) (lit 0 0) in
      let cloud = cloud_cover_of dt in
      let factor = sub (lit 1 0) (mul (div cloud (lit 100 0)) (lit 75 2)) in
      let ghi = mul clear factor in
      let noise = gauss (mul ghi (lit 3 2)) in
      if noisy && lt (lit 0 0) ghi
      then (max_f fl sun (lit 0 0) (add ghi noise), cloud)
      else (ghi, cloud)

  unfoldable pub fetch_mock :
      Option F → Option F → Bool → (F → F) → F → F → Datetime → SatelliteReading
  fetch_mock fixed_ghi fixed_cloud noisy gauss lat lng timestamp =
      let dt = aware timestamp in
      let seen : F × F = elim fixed_ghi [
        | none ↦ simulate_satellite noisy gauss lat lng dt
        | some ghi ↦ (ghi, or_zero fixed_cloud)
      ] in
      record {
        ghi_wm2 = round 2 (max_f fl sun (lit 0 0) seen.0);
        source = "mock";
        timestamp = dt;
        lat = lat;
        lng = lng;
        cloud_cover_pct = round 1 seen.1;
        confidence = lit 85 2;
      }

  unfoldable pub fetch_irradiance :
      SatelliteProvider → (F → F) → F → F → Datetime → SatelliteReading
  unfolding fetch_mock
  fetch_irradiance (mock ghi cloud noisy) gauss lat lng dt =
      fetch_mock ghi cloud noisy gauss lat lng dt
  fetch_irradiance inpe gauss lat lng dt = record (fetch_mock none none true gauss lat lng dt) {
    source = "inpe_goes16";
    confidence = lit 92 2;
  }
  fetch_irradiance cams gauss lat lng dt = record (fetch_mock none none true gauss lat lng dt) {
    source = "cams_copernicus";
    confidence = lit 88 2;
  }

  -- The comparison with a reading.
  unfoldable pub compare_reading : SatelliteReading → F → F → F → F → SatelliteValidationResult
  compare_reading reading capacity_kw reported_kwh interval_hours margin =
      let sat_ghi = reading.ghi_wm2 in
      let energy : F =
        if le sat_ghi (lit 0 0)
        then lit 0 0
        else mul (mul (mul capacity_kw (div sat_ghi (lit 1000 0))) margin) interval_hours in
      let satellite_max_kwh = round 4 energy in
      let low_irradiance = lt sat_ghi low_irradiance_threshold_wm2 in
      let high_gen_threshold = mul (mul capacity_kw (lit 10 2)) interval_hours in
      record {
        satellite_ghi_wm2 = round 2 sat_ghi;
        satellite_source = reading.source;
        satellite_max_kwh = satellite_max_kwh;
        satellite_pass = le reported_kwh satellite_max_kwh;
        cloud_cover_pct = reading.cloud_cover_pct;
        low_irradiance = low_irradiance;
        high_generation_low_sun = low_irradiance && lt high_gen_threshold reported_kwh;
        reported_kwh = reported_kwh;
        confidence = reading.confidence;
      }

  unfoldable pub validate_satellite :
      SatelliteProvider → (F → F) → F → F → F → Datetime → F → F → F → SatelliteValidationResult
  unfolding compare_reading
  validate_satellite provider gauss lat lng capacity_kw timestamp reported_kwh interval_hours
        margin =
      compare_reading (fetch_irradiance provider gauss lat lng timestamp) capacity_kw reported_kwh
        interval_hours margin
