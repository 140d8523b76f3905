-- ===== src/Inverter/Heartbeats.antt =====
-- What the failure of a heartbeat changes.
use hec_mvp.Base.{
  ℕ, ◌≡◌, refl, sym, subst, Bool, true, false, List, nat_eq, string_eq, inl, inr, Bool-cases,
  Option-cases,
}
use hec_mvp.Base.Result.{Result, ok, err, ◌>>◌}
use hec_mvp.Inverter.Checks.{check_device-cases}
use hec_mvp.Inverter.{
  DeviceSite, Device, InverterTelemetryRequest, InverterTelemetryResponse, Soa, Faults,
  not_synced_message, has_timezone, device_lookup, check_device, telemetry_response,
  update_last_seen, persist, ingest_inverter_telemetry,
}

abbrev lost : Faults → Faults
lost f = record f { heartbeat = true }

abbrev beaten : Faults → Faults
beaten f = record f { heartbeat = false }

-- The answer and the tables, had the heartbeat failed.
abbrev pub unsynced :
    {F : Type 0}
    → List Device
    → Result InverterTelemetryResponse × Soa F
    → Result InverterTelemetryResponse × Soa F
unsynced ds (err e, t) = (err e, t)
unsynced ds (ok a, t) = (
  ok (record a { device_sync_ok = false; message = not_synced_message }),
  record t { devices = ds },
)

module _ {F : Type 0} where
  persist-lost :
      (faults : Faults) (req : InverterTelemetryRequest F) (now : ℕ) (r : Device × DeviceSite)
      (s : Soa F)
      → persist (lost faults) req now r s ≡ unsynced s.devices (persist (beaten faults) req now r s)
  unfolding persist telemetry_response update_last_seen
  persist-lost faults req now r s = elim (Bool-cases faults.insert) [
    | inl failed ↦ rw failed refl
    | inr kept ↦ rw kept refl
  ]

  checked-lost :
      (faults : Faults) (req : InverterTelemetryRequest F) (now : ℕ) (r : Device × DeviceSite)
      (s : Soa F)
      → (check_device r >> persist (lost faults) req now r) s
        ≡ unsynced s.devices ((check_device r >> persist (beaten faults) req now r) s)
  checked-lost faults req now r s =
      let late = persist (lost faults) req now r in
      let prompt = persist (beaten faults) req now r in
      let Agree : Result (Unit {0}) × Soa F → Type 0 =
        λ o. ((λ _. o) >> late) s ≡ unsynced s.devices (((λ _. o) >> prompt) s) in
      elim (check_device-cases r s) [
        | inl (e, refused) ↦ subst Agree (sym refused) refl
        | inr (inverter, passed) ↦ subst Agree (sym passed) (persist-lost faults req now r s)
      ]

  -- Whatever else the databases do, a request whose heartbeat raises has the same refusal as one whose
  -- heartbeat does not, or stores the same reading; then only the devices stay as they were, and the
  -- answer says that they are not synced.
  pub heartbeat_lost :
      (enabled : Bool) (faults : Faults) (req : InverterTelemetryRequest F) (now : ℕ) (s : Soa F)
      → ingest_inverter_telemetry enabled (record faults { heartbeat = true }) req now s
        ≡ unsynced s.devices
            (ingest_inverter_telemetry enabled (record faults { heartbeat = false }) req now s)
  unfolding ingest_inverter_telemetry persist
  heartbeat_lost enabled faults req now s = elim (Bool-cases (has_timezone req.timestamp.zone)) [
    | inr naive ↦ rw naive refl
    | inl zoned ↦ elim (Bool-cases enabled) [
      | inr off ↦ rw (zoned, off) refl
      | inl on ↦ elim (Bool-cases faults.lookup) [
        | inl down ↦ rw (zoned, on, down) refl
        | inr up ↦ elim (Option-cases (device_lookup req.device_uuid s)) [
          | inl missing ↦ rw (zoned, on, up, missing) refl
          | inr (r, there) ↦ rw (zoned, on, up, there) (checked-lost faults req now r s)
        ]
      ]
    ]
  ]
