-- ===== src/Inverter/Checks.antt =====
-- The outcomes of the checks of a device.
use hec_mvp.Base.{◌≡◌, refl, true, text_beq, inl, inr, ◌⊎◌, Bool-cases, string_eq}
use hec_mvp.Base.Result.{Exn, not_inverter, site_closed, device_retired, ok, err}
use hec_mvp.Inverter.{DeviceSite, Device, Soa, check_device}

-- A device that passes is an inverter, and nothing is written.
pub check_device-cases :
    {F : Type 0} (r : Device × DeviceSite) (s : Soa F)
    → ((e : Exn) × (check_device r s ≡ (err e, s)))
      ⊎ ((text_beq r.0.device_type "inverter" ≡ true) × (check_device r s ≡ (ok tt, s)))
unfolding check_device
check_device-cases r s = elim (Bool-cases (text_beq r.0.device_type "inverter")) [
  | inr other ↦ inl (not_inverter, rw other refl)
  | inl inverter ↦ elim (Bool-cases (text_beq r.1.site_status "decommissioned")) [
    | inl closed ↦ inl (site_closed, rw (inverter, closed) refl)
    | inr in_use ↦ elim (Bool-cases (text_beq r.0.device_status "retired")) [
      | inl retired ↦ inl (device_retired, rw (inverter, in_use, retired) refl)
      | inr working ↦ inr (inverter, rw (inverter, in_use, working) refl)
    ]
  ]
]
