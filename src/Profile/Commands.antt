-- ===== src/Profile/Commands.antt =====
-- services/profile-service/internal/application/command/scenario.py and media.py, with
-- domain/service/media_validation.py. The ids that `uuid4` draws are arguments. The check of the
-- uploaded size (`_double_check_s3_metadata`) catches its own exception, so it does nothing.
pub mod Limits
pub mod Sequences
use rent_a_girlfriend.Prelude.{
  ℕ, ℤ, String, Option, none, some, List, [], ◌∷◌, ◌++◌, Bool, true, false, not, ◌||◌, ◌==◌, leb,
  length, if◌then◌else◌,
}
use rent_a_girlfriend.Profile.Vo.{
  Error, Result, ok, err, ◌>>=◌, money, duration, invalid_url, profile_not_found,
  scenario_not_found, media_asset_not_found, scenario_limit_exceeded, album_limit_exceeded,
}
use rent_a_girlfriend.Profile.Aggregates
use rent_a_girlfriend.Profile.Aggregates.{
  Scenario, MediaAsset, create_voice_intro, create_album_image,
}
use rent_a_girlfriend.Profile.Repositories.{
  Environment, Store, ScenarioModel, MediaAssetModel, scenario_id, asset_id, or_raise, without,
  count_by_companion_id, scenario_to_domain, media_to_domain, find_by_companion_id_and_type,
  save_scenario, save_media, publish_all,
}

unfoldable pub require : Bool → Error → Result Unit
require true e = ok tt
require false e = err e

unfoldable pub delete_all : List MediaAsset → List MediaAssetModel → List MediaAssetModel
delete_all [] t = t
delete_all (x ∷ xs) t = delete_all xs (without asset_id x.asset_id t)

module _ (env : Environment) where
  unfoldable pub create_scenario : String → String → String → String → ℤ → ℤ → Store → Result Store
  create_scenario k companion_id title description price minutes s = do
    found ← require (env.has_profile companion_id) (profile_not_found companion_id)
    below ←
        require (not (leb 5 (count_by_companion_id companion_id s.scenarios)))
          (scenario_limit_exceeded companion_id)
    amount ← money price
    length_minutes ← duration minutes
    let x = Aggregates.create_scenario k companion_id title description amount length_minutes in
        save_scenario env x s >>= publish_all env x.events

  -- The scenario, if it is the companion's.
  unfoldable pub own_scenario : String → String → Option ScenarioModel → Result Scenario
  own_scenario k companion_id none = err (scenario_not_found k)
  own_scenario k companion_id (some m) = do
    x ← scenario_to_domain m
    is_own ← require (x.companion_id == companion_id) (scenario_not_found k)
    ok x

  unfoldable pub update_scenario :
      String → String → String → String → ℤ → ℤ → String → Store → Result Store
  update_scenario k companion_id title description price minutes status s = do
    x ← own_scenario k companion_id (env.scenarios.first (λ m. scenario_id m == k) s.scenarios)
    amount ← money price
    length_minutes ← duration minutes
    let y = Aggregates.update_scenario title description amount length_minutes status x in
        save_scenario env y s >>= publish_all env y.events

  unfoldable pub delete_scenario : String → String → Store → Result Store
  delete_scenario k companion_id s = do
    x ← own_scenario k companion_id (env.scenarios.first (λ m. scenario_id m == k) s.scenarios)
    publish_all env (Aggregates.delete_scenario x).events
        (record s { scenarios = without scenario_id k s.scenarios })

  -- `validate_album_limit`
  unfoldable pub validate_album_limit : String → Store → Result Unit
  validate_album_limit companion_id s = do
    current_albums ← find_by_companion_id_and_type env companion_id "ALBUM" s
    require (not (leb 4 (length current_albums))) (album_limit_exceeded companion_id)

  unfoldable pub register_voice_intro : String → String → String → ℕ → ℕ → Store → Result Store
  register_voice_intro k companion_id file_url duration_seconds size_bytes s = do
    url ← or_raise invalid_url (env.media_url file_url)
    x ← create_voice_intro k companion_id url size_bytes duration_seconds
    existing_voices ← find_by_companion_id_and_type env companion_id "VOICE_INTRO" s
    s' ← save_media env x (record s { media = delete_all existing_voices s.media })
    publish_all env x.events s'

  unfoldable pub register_album_image : String → String → String → ℕ → Store → Result Store
  register_album_image k companion_id file_url size_bytes s = do
    below ← validate_album_limit companion_id s
    url ← or_raise invalid_url (env.media_url file_url)
    x ← create_album_image k companion_id url size_bytes
    s' ← save_media env x s
    publish_all env x.events s'

  unfoldable pub own_media : String → String → Option MediaAssetModel → Result MediaAsset
  own_media k companion_id none = err (media_asset_not_found k)
  own_media k companion_id (some m) = do
    x ← media_to_domain env m
    is_own ← require (x.companion_id == companion_id) (media_asset_not_found k)
    ok x

  unfoldable pub delete_media : String → String → Store → Result Store
  delete_media companion_id k s = do
    x ← own_media k companion_id (env.media.first (λ m. asset_id m == k) s.media)
    ok (record s { media = without asset_id k s.media })
