-- ===== src/Store/Samples.antt =====
-- A small database and concrete libraries for runs of the requests.
use hec_mvp.Base.{true, none, some, List, [], ◌∷◌, nat_eq, string_eq}
use hec_mvp.Ledger.Samples.{buyer, purse}
use hec_mvp.Session.{Table}
use hec_mvp.Store.{BurnCertificate, ConsumerProfile, UserRoleBinding, Store}

abbrev pub stored : {A : Type 0} → List A → Table A
stored xs = record { rows = xs; pending = [] }

-- Two burns, of 40 and of 12.5 kWh, on the days 100 and 101.
abbrev pub two_burns : List BurnCertificate
two_burns =
    record { user_id = 1; burned_at = some 8640000; energy_kwh = 400000 }
    ∷ record { user_id = 1; burned_at = some 8726400; energy_kwh = 125000 }
    ∷ []

abbrev pub ana : ConsumerProfile
ana = record {
  user_id = 1;
  person_type = "PF";
  document_id = none;
  display_name = some "Ana";
  avatar_seed = "AN";
  plan_name = "Ouro Verde";
  premmia_id = some "PRM-1";
  premmia_points = 0;
  current_streak_days = 0;
  total_retired_mhec = 0;
  total_co2_avoided_tons = 0;
  total_trees_equivalent = 0;
  total_referrals = 0;
  joined_at = some 500;
}

abbrev pub seller_binding : UserRoleBinding
seller_binding = record {
  user_id = 1;
  role_code = "generator";
  is_primary = true;
  created_at = 500;
}

-- One user with a profile, a burn history and a role that she no longer has, and empty catalogs.
abbrev pub small : Store
small = record {
  users = stored (buyer ∷ []);
  wallets = stored (purse ∷ []);
  generators = record { rows = []; pending = [] };
  plants = record { rows = []; pending = [] };
  connections = record { rows = []; pending = [] };
  burns = two_burns;
  bindings = stored (seller_binding ∷ []);
  profiles = stored (ana ∷ []);
  catalog = stored [];
  unlocks = stored [];
  tiers = stored [];
  dnft_states = stored [];
  dnft_events = stored [];
  rewards = stored [];
  snapshots = stored [];
  next_id = 1000;
}
