-- ===== src/Consumer/Requests/Laws.antt =====
-- Whatever is asked for, in whatever order, the points of each profile are those of the ledger.
use hec_mvp.Base.{
  ℕ, String, ◌≡◌, refl, sym, subst, inl, inr, Bool, List, [], ◌∷◌, arith, Bool-cases, nat_eq,
  string_eq,
}
use hec_mvp.Base.Result.{Action, pure, gets, ◌>>=◌, ◌>>◌}
use hec_mvp.Base.Result.{Post, Post-bind, Result-cases}
use hec_mvp.Ledger.{User}
use hec_mvp.Store.{
  ConsumerProfile, ConsumerDashboardSnapshot, DnftDefinition, Store, flush, request,
}
use hec_mvp.Identity.{TextOps, ensure_consumer_identity, ensure_user_role_bindings, save_profile}
use hec_mvp.Consumer.Seeds.{ensure_catalog_seed, ensure_dnft_seed}
use hec_mvp.Consumer.Tiers.{sync_dnft_state}
use hec_mvp.Consumer.History.{Clock, sync_profile_from_burn_history}
use hec_mvp.Consumer.Rewards.{Awards}
use hec_mvp.Consumer.Board.{load_monthly_footprint, build_dnft_summary}
use hec_mvp.Consumer.Requests.{
  Request, serve, serve_all, DashboardResponse, ProfileUpsertRequest, tiers_of, assemble_dashboard,
  get_dashboard, get_dnft_summary, load_dnft_summary, load_achievements, dnft_of, achievements_of,
  reward, fill_dashboard, dashboard_of, dashboard_response, save_edited, edit_found, simulate_for,
  reward_simulation, get_achievements, store_profile, upsert_profile, record_retirement, simulate,
  simulate_retirement, edit_profile, normalize_document, is_taken,
}
use hec_mvp.Consumer.Requests.Books.{
  IsAccounted, Held, Calm, Calm-Held, flush-Calm, request-IsAccounted, save_same-Held,
}
use hec_mvp.Consumer.Requests.Parts.{
  catalog_seed-Calm, dnft_seed-Calm, roles-Calm, sync_dnft_state-Calm, identity-Held, history-Held,
  record_retirement-Held, achievements-Held,
}

abbrev HeldBy : User → ConsumerProfile → Store → Type 0
HeldBy user p t = Held user.user_id p t × (p.user_id ≡ user.user_id)

module _ (ops : TextOps) (clock : Clock) (before : String → String → Bool) (user : User)
    (now : ℕ) where
  -- With the user's profile at hand, the rewards keep the books.
  reward-Post :
      (p : ConsumerProfile) (snapshots : List ConsumerDashboardSnapshot) (s : Store)
      → HeldBy user p s
      → Post (λ _ t. IsAccounted t) (reward ops clock before p snapshots now s)
  unfolding reward
  reward-Post p snapshots s h =
      (achievements-Held clock.percent user.user_id now p snapshots s h.0 h.1).0.books

  -- Tiers are synchronised, and `k` follows.
  module _ {A : Type 0} (p : ConsumerProfile) (k : Action Store A)
      (next : (t : Store) → HeldBy user p t → Post (λ _ v. IsAccounted v) (k t)) where
    after_tiers-Post :
        (tiers : List DnftDefinition) (s : Store)
        → HeldBy user p s
        → Post
            (λ (a : A) t. IsAccounted t)
            ((sync_dnft_state clock.percent user.user_id p tiers now >> k) s)
    after_tiers-Post tiers s h =
        Post-bind (λ _ v. Calm s v) (λ (a : A) t. IsAccounted t)
          (sync_dnft_state clock.percent user.user_id p tiers now) (λ _. k) s
          (sync_dnft_state-Calm clock.percent user.user_id p tiers now s)
          (λ _ v c. next v (Calm-Held s v c h.0, h.1))

  -- The identity is made sure of, and `k` follows.
  module _ {A : Type 0} (k : ConsumerProfile → Action Store A)
      (next : (p : ConsumerProfile) (t : Store)
        → HeldBy user p t
        → Post (λ _ v. IsAccounted v) (k p t)) where
    after_identity-Post :
        (s : Store)
        → IsAccounted s
        → Post (λ (a : A) t. IsAccounted t) ((ensure_consumer_identity ops user now >>= k) s)
    after_identity-Post s b =
        Post-bind (HeldBy user) (λ (a : A) t. IsAccounted t) (ensure_consumer_identity ops user now)
          k s (identity-Held ops user now s b) next

    after_history-Post :
        (p : ConsumerProfile) (s : Store)
        → HeldBy user p s
        → Post (λ (a : A) t. IsAccounted t) ((sync_profile_from_burn_history clock p now >>= k) s)
    after_history-Post p s h =
        Post-bind (HeldBy user) (λ (a : A) t. IsAccounted t)
          (sync_profile_from_burn_history clock p now) k s
          (history-Held clock user.user_id now p s h.0 h.1) next

  seeded-IsAccounted :
      (s : Store)
      → IsAccounted s
      → IsAccounted (
          ensure_user_role_bindings ops user now (ensure_dnft_seed now (ensure_catalog_seed now s)))
  seeded-IsAccounted s b =
      (roles-Calm ops user now (ensure_dnft_seed now (ensure_catalog_seed now s))
        (dnft_seed-Calm now (ensure_catalog_seed now s) (catalog_seed-Calm now s b).0).0).0

  simulate-Post :
      (amount consumed : ℕ) (s : Store)
      → IsAccounted s
      → Post (λ _ t. IsAccounted t) (simulate ops clock before amount consumed user now s)
  unfolding simulate simulate_for reward_simulation reward
  simulate-Post amount consumed s b =
      after_identity-Post (simulate_for ops clock before amount consumed user now)
        (λ p t h.
          let o = record_retirement ops clock before p amount consumed now t in
          let held =
            record_retirement-Held ops clock before user.user_id amount consumed now p t h.0 h.1 in
          after_tiers-Post o.0 (reward_simulation ops clock before amount user now o.0)
            (λ v g. reward-Post o.0 (load_monthly_footprint before user.user_id v) v g)
            (tiers_of o.1) o.1 held)
        (ensure_user_role_bindings ops user now (ensure_dnft_seed now (ensure_catalog_seed now s)))
        (seeded-IsAccounted s b)

  fill-Post :
      (p : ConsumerProfile) (tiers : List DnftDefinition) (s : Store)
      → HeldBy user p s
      → Post (λ _ t. IsAccounted t) (fill_dashboard ops clock before user now p tiers s)
  unfolding fill_dashboard
  fill-Post p tiers s h =
      let shots = load_monthly_footprint before user.user_id s in
      let answer = λ (r : Awards × ConsumerProfile).
        gets (dashboard_response ops clock before user now tiers shots r) in
      Post-bind (λ (_ : Awards × ConsumerProfile) t. IsAccounted t)
        (λ (_ : DashboardResponse) t. IsAccounted t) (reward ops clock before p shots now)
        (λ r. do flush; answer r) s (reward-Post p shots s h)
        (λ r t b.
          Post-bind (λ _ v. Calm t v) (λ (_ : DashboardResponse) v. IsAccounted v) flush
            (λ _. answer r) t (flush-Calm t) (λ _ v c. (c b).0))

  dashboard-Post :
      (s : Store)
      → IsAccounted s
      → Post (λ _ t. IsAccounted t) (assemble_dashboard ops clock before user now s)
  unfolding assemble_dashboard dashboard_of
  dashboard-Post s b =
      after_identity-Post
        (λ found.
          sync_profile_from_burn_history clock found now >>= dashboard_of ops clock before user now)
        (λ p t h.
          after_history-Post (dashboard_of ops clock before user now)
            (λ q v g.
              after_tiers-Post q (fill_dashboard ops clock before user now q (tiers_of v))
                (λ w k. fill-Post q (tiers_of v) w k) (tiers_of v) v g)
            p t h)
        (ensure_user_role_bindings ops user now (ensure_dnft_seed now (ensure_catalog_seed now s)))
        (seeded-IsAccounted s b)

  achievements-Post :
      (s : Store)
      → IsAccounted s
      → Post (λ _ t. IsAccounted t) (load_achievements ops clock before user now s)
  unfolding load_achievements achievements_of reward
  achievements-Post s b =
      after_identity-Post
        (λ found.
          sync_profile_from_burn_history clock found now
          >>= achievements_of ops clock before user now)
        (λ p t h.
          after_history-Post (achievements_of ops clock before user now)
            (λ q v g. reward-Post q (load_monthly_footprint before user.user_id v) v g) p t h)
        (ensure_catalog_seed now s) (catalog_seed-Calm now s b).0

  save_edited-Post :
      (p q : ConsumerProfile) (s : Store)
      → HeldBy user p s
      → q.user_id ≡ user.user_id
      → q.premmia_points ≡ p.premmia_points
      → Post (λ _ t. IsAccounted t) (save_edited ops clock before user now q s)
  unfolding save_edited
  save_edited-Post p q s h mine same =
      let t = save_profile q s in
      let held = save_same-Held user.user_id p q s t h.0 h.1 mine same refl refl in
      let seeded = ensure_dnft_seed now t in
      let both : ConsumerProfile × List DnftDefinition = (q, tiers_of seeded) in
      after_tiers-Post q (pure both) (λ v k. k.0.books) (tiers_of seeded) seeded
        (Calm-Held t seeded (dnft_seed-Calm now t) held, mine)

  profile-Post :
      (digits : String → String) (req : ProfileUpsertRequest) (s : Store)
      → IsAccounted s
      → Post (λ _ t. IsAccounted t) (store_profile ops clock before digits req user now s)
  unfolding store_profile edit_found edit_profile
  profile-Post digits req s b =
      after_identity-Post (edit_found ops clock before digits req user now)
        (λ p t h.
          let document = normalize_document digits req.document_id in
          let q = edit_profile ops clock before user req document p in
          elim (Bool-cases (is_taken user.user_id document t)) [
            | inl clash ↦ rw clash tt
            | inr free ↦ rw free (save_edited-Post p q t h h.1 refl)
          ])
        (ensure_user_role_bindings ops user now s) (roles-Calm ops user now s b).0

  dnft-Post :
      (s : Store)
      → IsAccounted s
      → Post (λ _ t. IsAccounted t) (load_dnft_summary ops clock before user now s)
  unfolding load_dnft_summary dnft_of
  dnft-Post s b =
      after_identity-Post
        (λ found.
          sync_profile_from_burn_history clock found now >>= dnft_of ops clock before user now)
        (λ p t h.
          after_history-Post (dnft_of ops clock before user now)
            (λ q v g.
              after_tiers-Post q (pure (build_dnft_summary clock q (tiers_of v))) (λ w k. k.0.books)
                (tiers_of v) v g)
            p t h)
        (ensure_dnft_seed now s) (dnft_seed-Calm now s b).0

-- From a database in which each profile's points are the sum of its user's entries in the ledger of
-- points, and no profile is pending, any sequence of requests to the dashboard, of any users and
-- with any outcomes, leads to such a database.
pub serve_all-IsAccounted :
    (ops : TextOps) (clock : Clock) (before : String → String → Bool) (digits : String → String)
    (rs : List Request) (s : Store)
    → IsAccounted s
    → IsAccounted (serve_all ops clock before digits rs s)
unfolding serve_all serve get_dashboard get_dnft_summary get_achievements upsert_profile
    simulate_retirement
serve_all-IsAccounted ops clock before digits [] s b = b
serve_all-IsAccounted ops clock before digits (r ∷ rs) s b =
    serve_all-IsAccounted ops clock before digits rs (serve ops clock before digits r s) (one r)
  where
    one : (r : Request) → IsAccounted (serve ops clock before digits r s)
    one (Request.dashboard user now) =
        request-IsAccounted (assemble_dashboard ops clock before user now) s b
          (dashboard-Post ops clock before user now s b)
    one (Request.dnft user now) =
        request-IsAccounted (load_dnft_summary ops clock before user now) s b
          (dnft-Post ops clock before user now s b)
    one (Request.achievements user now) =
        request-IsAccounted (load_achievements ops clock before user now) s b
          (achievements-Post ops clock before user now s b)
    one (Request.profile req user now) =
        let stored = store_profile ops clock before digits req user now in
        let kept =
          request-IsAccounted stored s b (profile-Post ops clock before user now digits req s b) in
        elim (Result-cases (request stored s).0) [
          | inl (e, failed) ↦ subst IsAccounted (sym (ground arith)) kept
          | inr (x, done) ↦ subst IsAccounted (sym (ground arith)) kept
        ]
    one (Request.simulation amount consumed user now) =
        request-IsAccounted (simulate ops clock before amount consumed user now) s b
          (simulate-Post ops clock before user now amount consumed s b)
