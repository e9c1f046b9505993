-- ===== src/Profile/Aggregates.antt =====
-- services/profile-service/internal/domain/aggregate/scenario.py and media_asset.py, with the events
-- of domain/events. Sizes and durations of media are natural numbers.
use rent_a_girlfriend.Prelude.{
  ℕ, ◌*◌, String, Option, none, some, List, [], ◌∷◌, ◌++◌, ltb, if◌then◌else◌,
}
use rent_a_girlfriend.Profile.Vo.{
  Result, ok, err, voice_intro_duration_exceeded, voice_intro_size_exceeded,
  album_image_size_exceeded,
}

pub record ScenarioData : Type 0 where
  pub scenario_id : String
  pub companion_id : String
  pub title : String
  pub price : ℕ
  pub duration_minutes : ℕ
  pub status : String

pub record MediaData : Type 0 where
  pub companion_id : String
  pub asset_id : String
  pub file_url : String
  pub duration_seconds : Option ℕ
  pub size_bytes : ℕ

pub data DomainEvent : Type 0 where
  scenario_created scenario_updated : ScenarioData → DomainEvent
  -- scenario_id, companion_id
  scenario_deleted : String → String → DomainEvent
  voice_intro_registered album_image_registered : MediaData → DomainEvent

pub record Scenario : Type 0 where
  pub scenario_id : String
  pub companion_id : String
  pub title : String
  pub description : String
  pub price : ℕ
  pub duration_minutes : ℕ
  pub status : String
  pub events : List DomainEvent

unfoldable pub create_scenario : String → String → String → String → ℕ → ℕ → Scenario
create_scenario scenario_id companion_id title description price duration_minutes = record {
  scenario_id = scenario_id;
  companion_id = companion_id;
  title = title;
  description = description;
  price = price;
  duration_minutes = duration_minutes;
  status = "ACTIVE";
  events =
      scenario_created (record {
        scenario_id = scenario_id;
        companion_id = companion_id;
        title = title;
        price = price;
        duration_minutes = duration_minutes;
        status = "ACTIVE";
      })
      ∷ [];
}

unfoldable pub update_scenario : String → String → ℕ → ℕ → String → Scenario → Scenario
update_scenario title description price duration_minutes status x = record x {
  title = title;
  description = description;
  price = price;
  duration_minutes = duration_minutes;
  status = status;
  events =
      x.events
      ++ scenario_updated (record {
        scenario_id = x.scenario_id;
        companion_id = x.companion_id;
        title = title;
        price = price;
        duration_minutes = duration_minutes;
        status = status;
      })
        ∷ [];
}

unfoldable pub delete_scenario : Scenario → Scenario
delete_scenario x = record x {
  events = x.events ++ scenario_deleted x.scenario_id x.companion_id ∷ [];
}

pub record MediaAsset : Type 0 where
  pub asset_id : String
  pub companion_id : String
  pub file_url : String
  pub asset_type : String
  pub size_bytes : ℕ
  pub duration_seconds : Option ℕ
  pub status : String
  pub events : List DomainEvent

abbrev pub voice_seconds : ℕ
voice_seconds = 30

abbrev pub voice_bytes : ℕ
voice_bytes = 5 * 1024 * 1024

abbrev pub image_bytes : ℕ
image_bytes = 2 * 1024 * 1024

-- [INV-P04], [INV-P05]
unfoldable pub create_voice_intro : String → String → String → ℕ → ℕ → Result MediaAsset
create_voice_intro asset_id companion_id file_url size_bytes duration_seconds =
    if ltb voice_seconds duration_seconds
    then err (voice_intro_duration_exceeded duration_seconds)
    else if ltb voice_bytes size_bytes
    then err (voice_intro_size_exceeded size_bytes)
    else ok (record {
      asset_id = asset_id;
      companion_id = companion_id;
      file_url = file_url;
      asset_type = "VOICE_INTRO";
      size_bytes = size_bytes;
      duration_seconds = some duration_seconds;
      status = "APPROVED";
      events =
          voice_intro_registered (record {
            companion_id = companion_id;
            asset_id = asset_id;
            file_url = file_url;
            duration_seconds = some duration_seconds;
            size_bytes = size_bytes;
          })
          ∷ [];
    })

-- BR-12
unfoldable pub create_album_image : String → String → String → ℕ → Result MediaAsset
create_album_image asset_id companion_id file_url size_bytes =
    if ltb image_bytes size_bytes
    then err (album_image_size_exceeded size_bytes)
    else ok (record {
      asset_id = asset_id;
      companion_id = companion_id;
      file_url = file_url;
      asset_type = "ALBUM";
      size_bytes = size_bytes;
      duration_seconds = none;
      status = "APPROVED";
      events =
          album_image_registered (record {
            companion_id = companion_id;
            asset_id = asset_id;
            file_url = file_url;
            duration_seconds = none;
            size_bytes = size_bytes;
          })
          ∷ [];
    })
