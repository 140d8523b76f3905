-- ===== src/Inverter/Links.antt =====
-- The readings of inverters are of devices and sites that are on record.
use hec_mvp.Base.{
  ℕ, ◌≡◌, sym, subst, Bool, true, not, ◌&&◌, Option, some, List, [], ◌∷◌, arith, ◌==◌, nat_eq,
  string_eq, find, update, All, All-append, if◌then◌else◌, beq_refl, text_beq, inl, inr, Bool-cases,
  Option-cases,
}
use mathlib.Core.List.{append-nil}
use hec_mvp.Base.Keys.{All-map}
use hec_mvp.Base.Rows.{find-update_any}
use hec_mvp.Base.Result.{
  rules_broken, ingest_disabled, devices_down, device_not_found, Action, or_raise, raise_if, ◌>>=◌,
  ◌>>◌, raise_if-keeps, or_raise-keeps, raise_if-keeps, or_raise-keeps,
}
use hec_mvp.Session.{has}
use hec_mvp.Inverter.Checks.{check_device-cases}
use hec_mvp.Inverter.{
  DeviceSite, Device, InverterTelemetryRequest, InverterReading, InverterTelemetryResponse, Soa,
  Faults, has_timezone, with_site, joined, has_uuid, beat, device_lookup, check_device, reading_row,
  insert_reading, update_last_seen, persist, ingest_inverter_telemetry,
}

-- A row of the join is a row of the devices.
joined-has :
    (sites : List DeviceSite) (p : Device × DeviceSite → Bool) (q : Device → Bool)
    (ds : List Device) {r : Device × DeviceSite}
    → find p (joined sites ds) ≡ some r
    → q r.0 ≡ true
    → has q ds ≡ true
joined-has sites p q [] e h = cc
joined-has sites p q (d ∷ ds) {r} e h =
    elim (Option-cases (find (λ (s : DeviceSite). s.site_id == d.site_id) sites)) [
      | inl alone ↦
          let rest : has q ds ≡ true =
            joined-has sites p q ds
              (subst (λ o. find p (with_site d o (joined sites ds)) ≡ some r) alone e) h in
          ground (arith, rest)
      | inr (s, there) ↦
          let e2 = subst (λ o. find p (with_site d o (joined sites ds)) ≡ some r) there e in
          ground (arith, e2, λ (x : find p (joined sites ds) ≡ some r). joined-has sites p q ds x h)
    ]

-- A reading that arrives: the setting, what the databases do, the request and the clock.
pub record Arrival (F : Type 0) : Type 0 where
  pub enabled : Bool
  pub faults : Faults
  pub req : InverterTelemetryRequest F
  pub now : ℕ

module _ {F : Type 0} where
  abbrev pub is_of : InverterReading F → Device → Bool
  is_of r d =
      d.device_id == r.device_id && (d.site_id == r.site_id && text_beq d.device_type "inverter")

  -- Every reading is of an inverter on record, and of its site.
  abbrev pub IsLinked : Soa F → Type 0
  IsLinked s = All (λ r. has (is_of r) s.devices ≡ true) s.readings

  beats-IsLinked :
      (is_online : Bool) (device_id now : ℕ) (s : Soa F)
      → IsLinked s
      → IsLinked (update_last_seen is_online device_id now s)
  unfolding update_last_seen
  beats-IsLinked is_online device_id now s h =
      let status = if is_online then "online" else "offline" in
      let test : Device → Bool = λ d. d.device_id == device_id in
      All-map s.readings
        (λ r o.
          subst (λ ds. has (is_of r) ds ≡ true)
            (append-nil (update test (beat status now) s.devices))
            (find-update_any (is_of r) test (beat status now) s.devices [] (λ d e. e)
              (subst (λ ds. has (is_of r) ds ≡ true) (sym (append-nil s.devices)) o)))
        h

  persist-IsLinked :
      (faults : Faults) (req : InverterTelemetryRequest F) (now : ℕ) (r : Device × DeviceSite)
      (s : Soa F)
      → IsLinked s
      → has (is_of (reading_row r req)) s.devices ≡ true
      → IsLinked (persist faults req now r s).1
  unfolding persist
  persist-IsLinked faults req now r s h own =
      let row = reading_row r req in
      let more : IsLinked (insert_reading row s) =
        All-append (λ x. has (is_of x) s.devices ≡ true) s.readings (row ∷ []) h (own, tt) in
      elim (Bool-cases faults.insert) [
        | inl lost ↦ rw lost h
        | inr kept ↦ elim (Bool-cases faults.heartbeat) [
          | inl lost ↦ rw (kept, lost) more
          | inr beaten ↦
              rw (kept, beaten)
                (beats-IsLinked req.measures.is_online r.0.device_id now (insert_reading row s)
                  more)
        ]
      ]

  ingest-IsLinked :
      (enabled : Bool) (faults : Faults) (req : InverterTelemetryRequest F) (now : ℕ) (s : Soa F)
      → IsLinked s
      → IsLinked (ingest_inverter_telemetry enabled faults req now s).1
  unfolding ingest_inverter_telemetry device_lookup reading_row
  ingest-IsLinked enabled faults req now s h =
      let R : Type 0 = InverterTelemetryResponse in
      let stored : Device × DeviceSite → Action (Soa F) R = persist faults req now in
      let found : Soa F → Option (Device × DeviceSite) = device_lookup req.device_uuid in
      let checked : Device × DeviceSite → Action (Soa F) R = λ r. check_device r >> stored r in
      let looked : Action (Soa F) R = λ t. (or_raise (found t) device_not_found >>= checked) t in
      let lookup : Action (Soa F) R = raise_if faults.lookup devices_down >> looked in
      let switched : Action (Soa F) R = raise_if (not enabled) ingest_disabled >> lookup in
      raise_if-keeps IsLinked rules_broken (not (has_timezone req.timestamp.zone)) switched s h
        (λ _. raise_if-keeps IsLinked ingest_disabled (not enabled) lookup s h (λ _.
          raise_if-keeps IsLinked devices_down faults.lookup looked s h (λ _.
            or_raise-keeps IsLinked device_not_found (found s) checked s h (λ r there.
              elim (check_device-cases r s) [
                | inl (e, refused) ↦
                    subst (λ o. IsLinked (((λ _. o) >> stored r) s).1) (sym refused) h
                | inr (inverter, passed) ↦
                    let own : is_of (reading_row r req) r.0 ≡ true =
                      ground (arith, beq_refl r.0.device_id, beq_refl r.0.site_id, inverter) in
                    subst (λ o. IsLinked (((λ _. o) >> stored r) s).1) (sym passed)
                      (persist-IsLinked faults req now r s h (
                        joined-has s.sites (has_uuid req.device_uuid) (is_of (reading_row r req))
                          s.devices there own))
              ]))))

  abbrev pub ingest_all : List (Arrival F) → Soa F → Soa F
  ingest_all [] s = s
  ingest_all (a ∷ rest) s =
      ingest_all rest (ingest_inverter_telemetry a.enabled a.faults a.req a.now s).1

  -- From tables in which every reading of an inverter is of a device on record that is an inverter, with
  -- the device's site, any sequence of readings, refused ones and failures of either database among them,
  -- leads to such tables.
  pub ingest_all-IsLinked :
      (arrivals : List (Arrival F)) (s : Soa F) → IsLinked s → IsLinked (ingest_all arrivals s)
  ingest_all-IsLinked [] s h = h
  ingest_all-IsLinked (a ∷ rest) s h =
      ingest_all-IsLinked rest (ingest_inverter_telemetry a.enabled a.faults a.req a.now s).1
        (ingest-IsLinked a.enabled a.faults a.req a.now s h)
