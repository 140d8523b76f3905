-- ===== src/Onboarding/Consent.antt =====
-- What the requests of onboarding do without the consent to read the inverter.
use hec_mvp.Base.{Bool, nat_eq, string_eq}
use hec_mvp.Store.{Store}
use hec_mvp.Onboarding.Requests.{OnboardingCall, sign_up, enable, add_inverter}

-- The consent that a request carries.
abbrev pub consents : OnboardingCall → Bool
consents (sign_up account req time now) = req.inverter_connection.consent_accepted
consents (enable user req now) = req.inverter_connection.consent_accepted
consents (add_inverter user plant_id req now) = req.consent_accepted

abbrev Never : {A : Type 0} → A → Store → Type 0
Never _ _ = ⊥
