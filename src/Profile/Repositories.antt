-- ===== src/Profile/Repositories.antt =====
-- services/profile-service/internal/infrastructure/persistence/repositories.py: scenarios and media,
-- and the publisher. A command that raises ends the session without a commit, so a step gives the
-- new tables or the exception.
use rent_a_girlfriend.Prelude.{
  ℕ, pos, String, Option, none, some, List, [], ◌∷◌, ◌++◌, Bool, ◌&&◌, ◌==◌, total, if◌then◌else◌,
}
use rent_a_girlfriend.Table.{Table}
use rent_a_girlfriend.Profile.Vo.{
  Error, Result, ok, err, ◌>>=◌, money, duration, invalid_url, database_error, encode_error,
}
use rent_a_girlfriend.Profile.Aggregates.{DomainEvent, Scenario, MediaAsset}

pub record ScenarioModel : Type 0 where
  pub scenario_id : String
  pub companion_id : String
  pub title : String
  pub description : String
  pub price : ℕ
  pub duration_minutes : ℕ
  pub status : String

pub record MediaAssetModel : Type 0 where
  pub asset_id : String
  pub companion_id : String
  pub file_url : String
  pub asset_type : String
  pub size_bytes : ℕ
  pub duration_seconds : Option ℕ
  pub status : String

abbrev pub scenario_id : ScenarioModel → String
scenario_id m = m.scenario_id

abbrev pub asset_id : MediaAssetModel → String
asset_id m = m.asset_id

pub record Environment : Type 0 where
  pub scenarios : Table scenario_id scenario_id
  pub media : Table asset_id asset_id
  -- Whether a companion profile with this id is found.
  pub has_profile : String → Bool
  -- `MediaUrl(url)`: the stripped url, if it is one of http or https.
  pub media_url : String → Option String
  pub encodes : DomainEvent → Bool

pub record Store : Type 0 where
  pub scenarios : List ScenarioModel
  pub media : List MediaAssetModel
  pub outbox : List DomainEvent

unfoldable pub or_raise : {A : Type 0} → Error → Option A → Result A
or_raise e none = err e
or_raise e (some a) = ok a

-- The rows of `filter_by`, in the order of the table.
unfoldable pub select : {R : Type 0} → (R → Bool) → List R → List R
select p [] = []
select p (r ∷ t) = if p r then r ∷ select p t else select p t

-- The rows without the one of a key.
unfoldable pub without : {R : Type 0} → (R → String) → String → List R → List R
without key k [] = []
without key k (r ∷ t) = if key r == k then without key k t else r ∷ without key k t

abbrev pub is_active_of : String → ScenarioModel → Bool
is_active_of c m = m.companion_id == c && m.status == "ACTIVE"

abbrev pub has_type : String → String → MediaAssetModel → Bool
has_type c type m = m.companion_id == c && m.asset_type == type

abbrev pub one_if : Bool → ℕ
one_if b = if b then 1 else 0

-- `count_by_companion_id`
unfoldable pub count_by_companion_id : String → List ScenarioModel → ℕ
count_by_companion_id c t = total (λ m. one_if (is_active_of c m)) t

unfoldable pub scenario_to_model : Scenario → ScenarioModel
scenario_to_model x = record {
  scenario_id = x.scenario_id;
  companion_id = x.companion_id;
  title = x.title;
  description = x.description;
  price = x.price;
  duration_minutes = x.duration_minutes;
  status = x.status;
}

-- `ScenarioRepository._to_domain`
unfoldable pub scenario_to_domain : ScenarioModel → Result Scenario
scenario_to_domain m = do
  price ← money (pos m.price)
  minutes ← duration (pos m.duration_minutes)
  ok (record {
    scenario_id = m.scenario_id;
    companion_id = m.companion_id;
    title = m.title;
    description = m.description;
    price = price;
    duration_minutes = minutes;
    status = m.status;
    events = [];
  })

unfoldable pub media_to_model : MediaAsset → MediaAssetModel
media_to_model x = record {
  asset_id = x.asset_id;
  companion_id = x.companion_id;
  file_url = x.file_url;
  asset_type = x.asset_type;
  size_bytes = x.size_bytes;
  duration_seconds = x.duration_seconds;
  status = x.status;
}

module _ (env : Environment) where
  -- `MediaAssetRepository._to_domain`
  unfoldable pub media_to_domain : MediaAssetModel → Result MediaAsset
  media_to_domain m = do
    url ← or_raise invalid_url (env.media_url m.file_url)
    ok (record {
      asset_id = m.asset_id;
      companion_id = m.companion_id;
      file_url = url;
      asset_type = m.asset_type;
      size_bytes = m.size_bytes;
      duration_seconds = m.duration_seconds;
      status = m.status;
      events = [];
    })

  unfoldable pub all_to_domain : List MediaAssetModel → Result (List MediaAsset)
  all_to_domain [] = ok []
  all_to_domain (m ∷ t) = do x ← media_to_domain m; xs ← all_to_domain t; ok (x ∷ xs)

  unfoldable pub find_by_companion_id_and_type : String → String → Store → Result (List MediaAsset)
  find_by_companion_id_and_type c type s = all_to_domain (select (has_type c type) s.media)

  unfoldable pub save_scenario : Scenario → Store → Result Store
  save_scenario x s = do
    t ← or_raise database_error (env.scenarios.merge (scenario_to_model x) s.scenarios)
    ok (record s { scenarios = t })

  unfoldable pub save_media : MediaAsset → Store → Result Store
  save_media x s = do
    t ← or_raise database_error (env.media.merge (media_to_model x) s.media)
    ok (record s { media = t })

  unfoldable pub publish_all : List DomainEvent → Store → Result Store
  publish_all [] s = ok s
  publish_all (e ∷ es) s =
      if env.encodes e
      then publish_all es (record s { outbox = s.outbox ++ e ∷ [] })
      else err encode_error
