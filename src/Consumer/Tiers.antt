-- ===== src/Consumer/Tiers.antt =====
-- app/api/consumer_pf.py: the tier that a total of retired mHECs reaches, and the row that records it.
-- `percent a b` is `round(a / b * 100, 2)` of the float quotient, in hundredths.
pub mod Laws
use hec_mvp.Base.{
  ℕ, ◌-◌, ◌*◌, ◌/◌, min, max, String, Bool, not, ◌&&◌, ◌||◌, Option, none, some, List, [], ◌∷◌, ltb,
  leb, ◌==◌, if◌then◌else◌, nat_eq, string_eq, find, total, order_by,
}
use hec_mvp.Base.Result.{Action, gets, modify, ◌>>=◌, ◌>>◌}
use hec_mvp.Session.{add, write}
use hec_mvp.Store.{ConsumerProfile, DnftDefinition, UserDnftState, UserDnftEvent, Store, flush}

-- The keys of the dict that `_dnft_progress_from_total` returns.
pub record Progress : Type 0 where
  pub current_level : ℕ
  pub current_name : String
  pub next_level : ℕ
  pub next_name : Option String
  pub next_target : ℕ
  pub progress_pct : ℕ
  pub mhecs_to_evolve : ℕ
  pub benefits : List String

-- `sorted(tiers, key=lambda t: (t.min_mhec_required, t.tier_level))`
abbrev pub lower : DnftDefinition → DnftDefinition → Bool
lower a b =
    ltb a.min_mhec_required b.min_mhec_required
    || a.min_mhec_required == b.min_mhec_required && ltb a.tier_level b.tier_level

unfoldable pub ordered : List DnftDefinition → List DnftDefinition
ordered tiers = order_by lower tiers

-- The loop over the tiers after the first: the last one reached before one that is not, and that one.
unfoldable pub climb :
    ℕ → DnftDefinition → List DnftDefinition → DnftDefinition × Option DnftDefinition
climb total_mhec current [] = (current, none)
climb total_mhec current (t ∷ ts) =
    let higher = climb total_mhec t ts in
    if leb t.min_mhec_required total_mhec then higher else (current, some t)

-- `current` and `next_tier`; when the first tier is not reached the loop stops at once, with it.
unfoldable pub position :
    ℕ → DnftDefinition → List DnftDefinition → DnftDefinition × Option DnftDefinition
unfolding climb
position total_mhec t [] = (t, none)
position total_mhec t (u ∷ us) =
    if leb t.min_mhec_required total_mhec then climb total_mhec t (u ∷ us) else (t, some u)

module _ (percent : ℕ → ℕ → ℕ) where
  -- `min(100.0, max(0.0, raw_progress))`, rounded.
  unfoldable pub progress_between : ℕ → ℕ → ℕ → ℕ
  progress_between total_mhec low high =
      let interval = max 1 (high - low) in
      if leb total_mhec low then 0 else min 10000 (percent (total_mhec - low) interval)

  unfoldable pub progress_at : ℕ → DnftDefinition → Option DnftDefinition → Progress
  progress_at total_mhec current next_tier = elim next_tier [
    | none ↦ record {
      current_level = current.tier_level;
      current_name = current.tier_name;
      next_level = current.tier_level;
      next_name = none;
      next_target = current.min_mhec_required;
      progress_pct = 10000;
      mhecs_to_evolve = 0;
      benefits = current.benefits_json;
    }
    | some next ↦ record {
      current_level = current.tier_level;
      current_name = current.tier_name;
      next_level = next.tier_level;
      next_name = some next.tier_name;
      next_target = next.min_mhec_required;
      progress_pct = progress_between total_mhec current.min_mhec_required next.min_mhec_required;
      mhecs_to_evolve = next.min_mhec_required - total_mhec;
      benefits = current.benefits_json;
    }
  ]

  unfoldable pub dnft_progress_from_total : ℕ → List DnftDefinition → Progress
  dnft_progress_from_total total_mhec tiers = elim (ordered tiers) [
    | [] ↦ record {
      current_level = 1;
      current_name = "Semente";
      next_level = 1;
      next_name = none;
      next_target = 0;
      progress_pct = 10000;
      mhecs_to_evolve = 0;
      benefits = [];
    }
    | t ∷ ts ↦ let at = position total_mhec t ts in progress_at total_mhec at.0 at.1
  ]

  abbrev pub state_of : ℕ → Store → Option UserDnftState
  state_of user_id s = find (λ (d : UserDnftState). d.user_id == user_id) s.dnft_states.rows

  unfoldable pub new_state : ℕ → ℕ → Progress → ℕ → UserDnftState
  new_state user_id total_mhec progress now = record {
    user_id = user_id;
    current_tier_level = progress.current_level;
    current_xp_mhec = total_mhec;
    next_tier_level = progress.next_level;
    next_tier_target_mhec = progress.next_target;
    progress_pct = progress.progress_pct;
    created_at = now;
  }

  abbrev pub moved_event : ℕ → ℕ → ℕ → ℕ → ℕ → UserDnftEvent
  moved_event user_id old_level new_level total_mhec now = record {
    user_id = user_id;
    from_tier_level = old_level;
    to_tier_level = new_level;
    event_type = "upgrade";
    total_retired_mhec = total_mhec;
    created_at = now;
  }

  -- The assignments to a state that exists, and the event when its level is another one.
  unfoldable pub update_state : ℕ → ℕ → Progress → ℕ → UserDnftState → Store → Store
  unfolding new_state
  update_state user_id total_mhec progress now state s = record s {
    dnft_states =
        write (λ (d : UserDnftState). d.user_id == user_id)
          (λ d. new_state user_id total_mhec progress d.created_at) s.dnft_states;
    dnft_events =
        if state.current_tier_level == progress.current_level
        then s.dnft_events
        else add
            (moved_event user_id state.current_tier_level progress.current_level total_mhec now)
            s.dnft_events;
  }

  unfoldable pub sync_dnft_state :
      ℕ → ConsumerProfile → List DnftDefinition → ℕ → Action Store (Unit {0})
  sync_dnft_state user_id profile tiers now = do
    let total_mhec = profile.total_retired_mhec
    let progress = dnft_progress_from_total total_mhec tiers
    found ← gets (state_of user_id)
    elim found [
      | none ↦ do
        modify (λ s. record s {
          dnft_states = add (new_state user_id total_mhec progress now) s.dnft_states;
        })
        flush
      | some state ↦ modify (update_state user_id total_mhec progress now state)
    ]
