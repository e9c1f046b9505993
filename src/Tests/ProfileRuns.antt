-- ===== src/Tests/ProfileRuns.antt =====
-- Commands of the profile service at a concrete database.
use rent_a_girlfriend.Prelude.{pos, some, none, List, [], ◌∷◌, true, refl, arith, ne_of_==-false}
use rent_a_girlfriend.Table.Listed.{listed}
use rent_a_girlfriend.Profile.Repositories.{
  Environment, Store, MediaAssetModel, ScenarioModel, scenario_id, asset_id,
}
use rent_a_girlfriend.Profile.Commands.Limits.{IsLimited}
use rent_a_girlfriend.Profile.Commands.Sequences.{
  Command, add_image, create_offer, change_offer, run_all, run_all-IsLimited,
}

abbrev studio_env : Environment
studio_env = record {
  scenarios = listed scenario_id scenario_id (λ _. true);
  media = listed asset_id asset_id (λ _. true);
  has_profile = λ c. true;
  media_url = λ u. some u;
  encodes = λ e. true;
}

abbrev portrait : MediaAssetModel
portrait = record {
  asset_id = "m1";
  companion_id = "carol";
  file_url = "https://storage/m1.png";
  asset_type = "ALBUM";
  size_bytes = 1000;
  duration_seconds = none;
  status = "APPROVED";
}

abbrev walk : ScenarioModel
walk = record {
  scenario_id = "s1";
  companion_id = "carol";
  title = "A walk";
  description = "";
  price = 50;
  duration_minutes = 60;
  status = "ACTIVE";
}

abbrev studio : Store
studio = record { scenarios = walk ∷ []; media = portrait ∷ []; outbox = [] }

studio-IsLimited : IsLimited studio
studio-IsLimited = record {
  offers = (record { priced = omega arith; timed = refl }, tt);
  small = (
    record {
      voice = λ e. absurd (ne_of_==-false "ALBUM" "VOICE_INTRO" refl e);
      image = λ _. omega arith;
    },
    tt,
  );
  few = λ c. ground arith;
}

abbrev commands : List (Environment × Command)
commands =
    (studio_env, add_image "m2" "carol" "https://storage/m2.png" 2000)
    ∷ (studio_env, create_offer "s2" "carol" "Dinner" "" (pos 80) (pos 120))
    ∷ (studio_env, change_offer "s1" "carol" "A walk" "" (pos 0) (pos 60) "ACTIVE")
    ∷ []

run_all-IsLimited_example : IsLimited (run_all commands studio)
run_all-IsLimited_example =
    run_all-IsLimited commands studio studio-IsLimited
      ((ne_of_==-false "m1" "m2" refl, tt), (tt, (tt, tt)))
