-- ===== src/Inverter/Tests.antt =====
-- Runs of the ingestion of inverters.
use hec_mvp.Base.{ℕ, length, ◌≡◌, refl, true, false, none, some, List, [], ◌∷◌, nat_eq, string_eq}
use hec_mvp.Instant.{east}
use hec_mvp.Inverter.{
  InverterTelemetryRequest, Soa, Faults, device_lookup, check_device, persist, update_last_seen,
  ingest_inverter_telemetry,
}
use hec_mvp.Inverter.Links.{IsLinked, Arrival, ingest_all, ingest_all-IsLinked}
use hec_mvp.Inverter.Heartbeats.{unsynced, heartbeat_lost}

abbrev roof : Soa ℕ
roof = record {
  sites = record { site_id = 4; site_status = "active" } ∷ [];
  devices =
      record {
        device_id = 7;
        device_uuid = "u7";
        site_id = 4;
        device_type = "inverter";
        device_status = "offline";
        last_seen_at = none;
        updated_at = none;
      }
      ∷ [];
  readings = [];
}

abbrev noon : InverterTelemetryRequest ℕ
noon = record {
  device_uuid = "u7";
  timestamp = record { wall = 43200000000; zone = east 0 };
  measures = record {
    power_ac_w = some 900;
    power_dc_w = none;
    energy_today_wh = some 3000;
    energy_total_wh = none;
    voltage_ac_v = none;
    current_ac_a = none;
    voltage_dc_v = none;
    current_dc_a = none;
    frequency_hz = none;
    efficiency_pct = none;
    temperature_c = none;
    status_code = none;
    error_code = none;
    is_online = true;
    data_quality = 100;
  };
}

abbrev well : Faults
well = record { lookup = false; insert = false; heartbeat = false }

abbrev ill : Faults
ill = record { lookup = false; insert = false; heartbeat = true }

-- A reading, a reading without its heartbeat, and one while the ingestion is switched off.
abbrev arrivals : List (Arrival ℕ)
arrivals =
    record { enabled = true; faults = well; req = noon; now = 50 }
    ∷ record { enabled = true; faults = ill; req = noon; now = 60 }
    ∷ record { enabled = false; faults = well; req = noon; now = 70 }
    ∷ []

two_stored : length (ingest_all arrivals roof).readings ≡ 2
unfolding ingest_inverter_telemetry device_lookup check_device persist update_last_seen
two_stored = refl

ingest_all-IsLinked_example : IsLinked (ingest_all arrivals roof)
ingest_all-IsLinked_example = ingest_all-IsLinked arrivals roof tt

heartbeat_lost_example :
    ingest_inverter_telemetry true ill noon 60 roof
    ≡ unsynced roof.devices (ingest_inverter_telemetry true well noon 60 roof)
heartbeat_lost_example = heartbeat_lost true well noon 60 roof
