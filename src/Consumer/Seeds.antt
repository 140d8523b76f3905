-- ===== src/Consumer/Seeds.antt =====
-- app/api/consumer_pf.py: the achievements and the tiers that an empty table is filled with.
use hec_mvp.Base.{
  ℕ, ◌+◌, String, true, List, [], ◌∷◌, ltb, if◌then◌else◌, nat_eq, string_eq, length,
}
use hec_mvp.Session.{add_all}
use hec_mvp.Store.{AchievementCatalog, DnftDefinition, Store}

-- An entry of `ACHIEVEMENT_SEED`, with the id and the time that its row gets.
abbrev achievement :
    String → String → String → String → String → ℕ → ℕ → ℕ → ℕ → ℕ → AchievementCatalog
achievement code name description icon metric_key target points order id now = record {
  achievement_id = id;
  code = code;
  name = name;
  description = description;
  icon = icon;
  metric_key = metric_key;
  target_value = target;
  points_reward = points;
  is_active = true;
  sort_order = order;
  created_at = now;
}

abbrev pub achievement_seed : ℕ → ℕ → List AchievementCatalog
achievement_seed id now =
    achievement "FIRST_RETIREMENT" "Primeira Aposentadoria" "Aposentou seu primeiro mHEC" "seed"
      "total_retired_mhec" 1 100 10 (id + 0) now
    ∷ achievement "STREAK_7" "Streak 7 dias" "Compensou consumo por 7 dias seguidos" "flame"
        "current_streak_days" 7 120 20 (id + 1) now
    ∷ achievement "STREAK_14" "Streak 14 dias" "Compensou consumo por 14 dias seguidos" "flame"
        "current_streak_days" 14 200 30 (id + 2) now
    ∷ achievement "RETIRE_100" "100 mHECs" "Aposentou 100 mHECs no total" "tree"
        "total_retired_mhec" 100 180 40 (id + 3) now
    ∷ achievement "RETIRE_300" "300 mHECs" "Atingiu nivel Bosque" "forest" "total_retired_mhec" 300
        260 50 (id + 4) now
    ∷ achievement "RETIRE_500" "500 mHECs" "Evoluir para Floresta" "forest" "total_retired_mhec" 500
        320 60 (id + 5) now
    ∷ achievement "RETIRE_1000" "1000 mHECs" "Equivalente a 1 MWh limpo" "bolt" "total_retired_mhec"
        1000 500 70 (id + 6) now
    ∷ achievement "CARBON_ZERO_MONTH" "Carbono Zero Mes" "Registrou 100% de compensacao no mes"
        "planet" "carbon_zero_months" 1 300 80 (id + 7) now
    ∷ achievement "REFER_5_FRIENDS" "Indicou 5 amigos" "Convidou 5 amigos para o ecossistema" "team"
        "total_referrals" 5 220 90 (id + 8) now
    ∷ []

-- An entry of `DNFT_SEED`.
abbrev tier : ℕ → String → ℕ → String → List String → ℕ → DnftDefinition
tier level name min_required icon benefits now = record {
  tier_level = level;
  tier_name = name;
  min_mhec_required = min_required;
  icon = icon;
  benefits_json = benefits;
  created_at = now;
}

abbrev pub dnft_seed : ℕ → List DnftDefinition
dnft_seed now =
    tier 1 "Semente" 0 "seed" ("Bem-vindo ao ecossistema SOA/SOS" ∷ []) now
    ∷ tier 3 "Broto" 50 "sprout" ("Selo de progressao inicial" ∷ []) now
    ∷ tier 5 "Arbusto" 150 "flower" ("Desconto inicial em compensacoes" ∷ []) now
    ∷ tier 7 "Bosque" 300 "tree"
        ("12% desconto compensacao" ∷ "Badge verificado" ∷ "Relatorio mensal" ∷ []) now
    ∷ tier 10 "Floresta" 500 "forest" ("Relatorio ESG detalhado" ∷ "Beneficios premium" ∷ []) now
    ∷ tier 15 "Bioma" 1500 "planet"
        ("Acesso prioritario a pools regionais" ∷ "Reconhecimento comunidade" ∷ []) now
    ∷ []

-- A count sees rows that were flushed, so that a second call in one session adds the entries again.
unfoldable pub ensure_catalog_seed : ℕ → Store → Store
ensure_catalog_seed now s = if ltb 0 (length s.catalog.rows) then s else record s {
  catalog = add_all (achievement_seed s.next_id now) s.catalog;
  next_id = s.next_id + 9;
}

unfoldable pub ensure_dnft_seed : ℕ → Store → Store
ensure_dnft_seed now s =
    if ltb 0 (length s.tiers.rows) then s else record s { tiers = add_all (dnft_seed now) s.tiers }
