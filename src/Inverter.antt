-- ===== src/Inverter.antt =====
-- app/api/inverter_telemetry.py: the ingestion of the readings of inverters into two databases, the
-- devices and sites of MariaDB and the readings of PostgreSQL, with the validator of
-- app/schemas/inverter_telemetry.py. Whether a database raises at each of the three statements is given.
pub mod Checks
pub mod Links
pub mod Heartbeats
pub mod Tests
use hec_mvp.Base.{
  ℕ, ◌+◌, String, Bool, true, false, not, ◌&&◌, ◌||◌, Option, none, some, List, [], ◌∷◌, ◌++◌,
  text_beq, ◌==◌, if◌then◌else◌, nat_eq, string_eq, find, update,
}
use hec_mvp.Base.Int.{ℤ}
use hec_mvp.Base.Result.{
  Exn, Result, ok, err, Action, pure, gets, or_raise, raise_if, modify, ◌>>=◌, ◌>>◌,
}
use hec_mvp.Instant.{Datetime, Zone, naive, east, west, instant}

pub record DeviceSite : Type 0 where
  pub site_id : ℕ
  pub site_status : String

pub record Device : Type 0 where
  pub device_id : ℕ
  pub device_uuid : String
  pub site_id : ℕ
  pub device_type : String
  pub device_status : String
  pub last_seen_at : Option ℕ
  pub updated_at : Option ℕ

-- The columns that are copied from the request, F its floats.
pub record Measures (F : Type 0) : Type 0 where
  pub power_ac_w : Option F
  pub power_dc_w : Option F
  pub energy_today_wh : Option ℕ
  pub energy_total_wh : Option ℕ
  pub voltage_ac_v : Option F
  pub current_ac_a : Option F
  pub voltage_dc_v : Option F
  pub current_dc_a : Option F
  pub frequency_hz : Option F
  pub efficiency_pct : Option F
  pub temperature_c : Option F
  pub status_code : Option ℕ
  pub error_code : Option ℕ
  pub is_online : Bool
  pub data_quality : ℕ

pub record InverterTelemetryRequest (F : Type 0) : Type 0 where
  pub device_uuid : String
  pub timestamp : Datetime
  pub measures : Measures F

pub record InverterReading (F : Type 0) : Type 0 where
  pub ts : ℕ
  pub device_id : ℕ
  pub site_id : ℕ
  pub measures : Measures F

pub record InverterTelemetryResponse : Type 0 where
  pub status : String
  pub device_uuid : String
  pub device_id : ℕ
  pub site_id : ℕ
  pub timestamp_utc : ℕ
  pub device_sync_ok : Bool
  pub message : String

-- Both databases.
pub record Soa (F : Type 0) : Type 0 where
  pub sites : List DeviceSite
  pub devices : List Device
  pub readings : List (InverterReading F)

-- Which statements raise `SQLAlchemyError`, themselves or at their commit.
pub record Faults : Type 0 where
  pub lookup : Bool
  pub insert : Bool
  pub heartbeat : Bool

-- `validate_timestamp_has_timezone`.
abbrev pub has_timezone : Zone → Bool
has_timezone naive = false
has_timezone (east k) = true
has_timezone (west k) = true

-- The join of a device with its site.
abbrev pub with_site :
    Device → Option DeviceSite → List (Device × DeviceSite) → List (Device × DeviceSite)
with_site d none rows = rows
with_site d (some s) rows = (d, s) ∷ rows

abbrev pub joined : List DeviceSite → List Device → List (Device × DeviceSite)
joined sites [] = []
joined sites (d ∷ ds) =
    with_site d (find (λ (s : DeviceSite). s.site_id == d.site_id) sites) (joined sites ds)

abbrev pub has_uuid : String → Device × DeviceSite → Bool
has_uuid uuid r = text_beq r.0.device_uuid uuid

-- The heartbeat of `UPDATE devices`.
abbrev pub beat : String → ℕ → Device → Device
beat status now d = record d {
  last_seen_at = some now;
  device_status = status;
  updated_at = some now;
}

abbrev pub synced_message : String
synced_message = "Telemetry persisted in PostgreSQL Timeseries and device heartbeat synced."

abbrev pub not_synced_message : String
not_synced_message =
    "Telemetry persisted in PostgreSQL Timeseries, but MariaDB heartbeat sync failed."

module _ {F : Type 0} where
  unfoldable pub device_lookup : String → Soa F → Option (Device × DeviceSite)
  device_lookup uuid s = find (has_uuid uuid) (joined s.sites s.devices)

  -- What a device must be, checked in this order.
  unfoldable pub check_device : Device × DeviceSite → Action (Soa F) (Unit {0})
  check_device r = do
    raise_if (not (text_beq r.0.device_type "inverter")) Exn.not_inverter
    raise_if (text_beq r.1.site_status "decommissioned") Exn.site_closed
    raise_if (text_beq r.0.device_status "retired") Exn.device_retired

  unfoldable pub reading_row : Device × DeviceSite → InverterTelemetryRequest F → InverterReading F
  reading_row r req = record {
    ts = instant req.timestamp;
    device_id = r.0.device_id;
    site_id = r.0.site_id;
    measures = req.measures;
  }

  abbrev pub insert_reading : InverterReading F → Soa F → Soa F
  insert_reading row s = record s { readings = s.readings ++ row ∷ [] }

  unfoldable pub update_last_seen : Bool → ℕ → ℕ → Soa F → Soa F
  update_last_seen is_online device_id now s =
      let status = if is_online then "online" else "offline" in
      record s {
        devices = update (λ (d : Device). d.device_id == device_id) (beat status now) s.devices;
      }

  unfoldable pub telemetry_response :
      Device × DeviceSite → InverterTelemetryRequest F → Bool → InverterTelemetryResponse
  telemetry_response r req device_sync_ok = record {
    status = "accepted";
    device_uuid = req.device_uuid;
    device_id = r.0.device_id;
    site_id = r.0.site_id;
    timestamp_utc = instant req.timestamp;
    device_sync_ok = device_sync_ok;
    message = if device_sync_ok then synced_message else not_synced_message;
  }

  -- From the insertion on: a heartbeat that fails is rolled back alone.
  unfoldable pub persist :
      Faults
      → InverterTelemetryRequest F
      → ℕ
      → Device × DeviceSite
      → Action (Soa F) InverterTelemetryResponse
  persist faults req now r = do
    raise_if faults.insert Exn.not_persisted
    modify (insert_reading (reading_row r req))
    modify (
        if faults.heartbeat
        then (λ s. s)
        else update_last_seen req.measures.is_online r.0.device_id now)
    pure (telemetry_response r req (not faults.heartbeat))

  unfoldable pub ingest_inverter_telemetry :
      Bool → Faults → InverterTelemetryRequest F → ℕ → Action (Soa F) InverterTelemetryResponse
  ingest_inverter_telemetry enabled faults req now = do
    raise_if (not (has_timezone req.timestamp.zone)) Exn.rules_broken
    raise_if (not enabled) Exn.ingest_disabled
    raise_if faults.lookup Exn.devices_down
    found ← gets (device_lookup req.device_uuid)
    device ← or_raise found Exn.device_not_found
    check_device device
    persist faults req now device
