-- ===== src/Profile/Commands/Sequences.antt =====
-- Scenarios and media over any sequence of commands.
use rent_a_girlfriend.Table.Rows.{IsFresh}
use rent_a_girlfriend.Prelude.{
  subst, ◌&&◌, ℕ, ℤ, String, ◌≡◌, refl, sym, ◌∙◌, List, [], ◌∷◌, ◌==◌, ◌&&◌, subst, eq_iff, ◌≢◌,
  ◌<◌, ◌≤◌, ◌+◌, Bool-cases, inl, inr, ap, true, false, Bool, ne_of_==-false, arith,
}
use rent_a_girlfriend.Profile.Vo.{bind_ok, Result, ok, err}
use rent_a_girlfriend.Profile.Aggregates.{MediaAsset, create_voice_intro, create_album_image}
use rent_a_girlfriend.Profile.Repositories.{
  asset_id, without, has_type, MediaAssetModel, one_if, Environment, Store, media_to_model,
}
use rent_a_girlfriend.Profile.Commands.{
  delete_all, create_scenario, update_scenario, delete_scenario, register_voice_intro,
  register_album_image, delete_media,
}
use rent_a_girlfriend.Profile.Commands.Limits.{
  delete_scenario-IsLimited, below_limit, total-without, update_scenario-IsLimited,
  saved_media-IsLimited, All-without, create_scenario-IsLimited, albums, IsLimited, IsSmall,
}

-- The commands of both services, with the ids that `uuid4` draws.
pub data Command : Type 0 where
  create_offer : String → String → String → String → ℤ → ℤ → Command
  change_offer : String → String → String → String → ℤ → ℤ → String → Command
  remove_offer : String → String → Command
  add_voice : String → String → String → ℕ → ℕ → Command
  add_image : String → String → String → ℕ → Command
  remove_media : String → String → Command

unfoldable pub run : Environment → Command → Store → Result Store
run env (create_offer k c title description price minutes) =
    create_scenario env k c title description price minutes
run env (change_offer k c title description price minutes status) =
    update_scenario env k c title description price minutes status
run env (remove_offer k c) = delete_scenario env k c
run env (add_voice k c url seconds bytes) = register_voice_intro env k c url seconds bytes
run env (add_image k c url bytes) = register_album_image env k c url bytes
run env (remove_media c k) = delete_media env c k

-- A command that raises leaves the tables as they were.
unfoldable pub keep : Store → Result Store → Store
keep s (ok s') = s'
keep s (err e) = s

unfoldable pub run_all : List (Environment × Command) → Store → Store
run_all [] s = s
run_all ((env, command) ∷ commands) s = run_all commands (keep s (run env command s))

voice_ok :
    (k c url : String) (bytes seconds : ℕ) {x : MediaAsset}
    → create_voice_intro k c url bytes seconds ≡ ok x
    → IsSmall (media_to_model x) × (x.asset_id ≡ k) × (x.asset_type ≡ "VOICE_INTRO")
unfolding create_voice_intro media_to_model
voice_ok k c url bytes seconds {x} h = (
  record {
    voice = λ _. (ground arith, (seconds, ground arith, ground arith));
    image = λ e. absurd (ne_of_==-false "VOICE_INTRO" "ALBUM" refl (sym type_is ∙ e));
  },
  ground arith,
  type_is,
)
  where
    type_is : x.asset_type ≡ "VOICE_INTRO"
    type_is = ground arith

image_ok :
    (k c url : String) (bytes : ℕ) {x : MediaAsset}
    → create_album_image k c url bytes ≡ ok x
    → IsSmall (media_to_model x)
      × (x.asset_id ≡ k)
      × (x.companion_id ≡ c)
      × (x.asset_type ≡ "ALBUM")
unfolding create_album_image media_to_model
image_ok k c url bytes {x} h = (
  record {
    voice = λ e. absurd (ne_of_==-false "ALBUM" "VOICE_INTRO" refl (sym type_is ∙ e));
    image = λ _. ground arith;
  },
  ground arith,
  ground arith,
  type_is,
)
  where
    type_is : x.asset_type ≡ "ALBUM"
    type_is = ground arith

one_if_le : (b : Bool) → one_if b ≤ 1
one_if_le true = omega arith
one_if_le false = omega arith

not_album :
    (a : String) (m : MediaAssetModel)
    → m.asset_type ≡ "VOICE_INTRO"
    → one_if (has_type a "ALBUM" m) ≡ 0
not_album a m e = next (m.companion_id == a) (m.asset_type == "ALBUM") (ap (λ t. t == "ALBUM") e)
  where
    next : (b c : Bool) → c ≡ false → one_if (b && c) ≡ 0
    next true c h = ap one_if h
    next false c h = refl

-- An image counts for its companion only.
one_more :
    (t : List MediaAssetModel) (m : MediaAssetModel)
    → ((a : String) → albums a t ≤ 4)
    → albums m.companion_id t < 4
    → (a : String) → albums a t + one_if (has_type a "ALBUM" m) ≤ 4
one_more t m few below a = elim (Bool-cases (m.companion_id == a)) [
  | inl same ↦ omega (
    arith,
    subst (λ c. albums c t < 4) ((eq_iff m.companion_id a).0 same) below,
    one_if_le (has_type a "ALBUM" m),
  )
  | inr other ↦ omega (arith, few a, ap (λ b. one_if (b && (m.asset_type == "ALBUM"))) other)
]

delete_all-IsLimited :
    (xs : List MediaAsset) (s : Store)
    → IsLimited s
    → IsLimited (record s { media = delete_all xs s.media })
unfolding delete_all
delete_all-IsLimited [] s h = record { offers = h.offers; small = h.small; few = h.few }
delete_all-IsLimited (x ∷ xs) s h =
    delete_all-IsLimited xs (record s { media = without asset_id x.asset_id s.media })
      (record {
        offers = h.offers;
        small = All-without asset_id x.asset_id IsSmall s.media h.small;
        few = λ c. omega (
          arith,
          total-without asset_id x.asset_id (λ m. one_if (has_type c "ALBUM" m)) s.media,
          h.few c,
        );
      })

delete_all-IsFresh :
    (k : String) (xs : List MediaAsset) (t : List MediaAssetModel)
    → IsFresh asset_id k t
    → IsFresh asset_id k (delete_all xs t)
unfolding delete_all
delete_all-IsFresh k [] t h = h
delete_all-IsFresh k (x ∷ xs) t h =
    delete_all-IsFresh k xs _ (All-without asset_id x.asset_id (λ m. asset_id m ≢ k) t h)

module _ (env : Environment) where
  voice-IsLimited :
      (k c url : String) (seconds bytes : ℕ) (s : Store) {s' : Store}
      → IsLimited s
      → IsFresh asset_id k s.media
      → register_voice_intro env k c url seconds bytes s ≡ ok s'
      → IsLimited s'
  unfolding register_voice_intro media_to_model
  voice-IsLimited k c url seconds bytes s h fresh e =
      let (address, _, e₁) = bind_ok _ _ e in
      let (x, created, e₂) = bind_ok _ _ e₁ in
      let (old, _, e₃) = bind_ok _ _ e₂ in
      let (s₁, saved, published) = bind_ok _ _ e₃ in
      let (small, id_is, type_is) = voice_ok k c address bytes seconds created in
      let cleared = delete_all-IsLimited old s h in
      saved_media-IsLimited env x (record s { media = delete_all old s.media }) cleared small
        (subst (λ i. IsFresh asset_id i (delete_all old s.media)) (sym id_is)
          (delete_all-IsFresh k old s.media fresh))
        (λ a. omega (arith, cleared.few a, not_album a (media_to_model x) type_is)) saved published

  image-IsLimited :
      (k c url : String) (bytes : ℕ) (s : Store) {s' : Store}
      → IsLimited s
      → IsFresh asset_id k s.media
      → register_album_image env k c url bytes s ≡ ok s'
      → IsLimited s'
  unfolding register_album_image media_to_model
  image-IsLimited k c url bytes s h fresh e =
      let (_, checked, e₁) = bind_ok _ _ e in
      let (address, _, e₂) = bind_ok _ _ e₁ in
      let (x, created, e₃) = bind_ok _ _ e₂ in
      let (s₁, saved, published) = bind_ok _ _ e₃ in
      let (small, id_is, owner_is, _) = image_ok k c address bytes created in
      saved_media-IsLimited env x s h small
        (subst (λ i. IsFresh asset_id i s.media) (sym id_is) fresh)
        (one_more s.media (media_to_model x) h.few
          (subst (λ o. albums o s.media < 4) (sym owner_is) (below_limit env c s checked)))
        saved published

  delete_media-IsLimited :
      (c k : String) (s : Store) {s' : Store}
      → IsLimited s
      → delete_media env c k s ≡ ok s'
      → IsLimited s'
  unfolding delete_media
  delete_media-IsLimited c k s {s'} h e =
      let (x, _, ended) = bind_ok _ _ e in
      let same : record s { media = without asset_id k s.media } ≡ s' = cc in
      subst IsLimited same (record {
        offers = h.offers;
        small = All-without asset_id k IsSmall s.media h.small;
        few = λ a.
            omega (
              arith,
              total-without asset_id k (λ m. one_if (has_type a "ALBUM" m)) s.media,
              h.few a,
            );
      })

-- The id that is drawn for a medium is not in use.
abbrev pub DrawsFresh : Command → Store → Type 0
DrawsFresh (create_offer k c t d p m) s = Unit
DrawsFresh (change_offer k c t d p m st) s = Unit
DrawsFresh (remove_offer k c) s = Unit
DrawsFresh (add_voice k c url seconds bytes) s = IsFresh asset_id k s.media
DrawsFresh (add_image k c url bytes) s = IsFresh asset_id k s.media
DrawsFresh (remove_media c k) s = Unit

abbrev pub AllFresh : List (Environment × Command) → Store → Type 0
AllFresh [] s = Unit
AllFresh ((env, command) ∷ commands) s =
    DrawsFresh command s × AllFresh commands (keep s (run env command s))

run-IsLimited :
    (env : Environment) (command : Command) (s : Store) {s' : Store}
    → IsLimited s
    → DrawsFresh command s
    → run env command s ≡ ok s'
    → IsLimited s'
unfolding run
run-IsLimited env (create_offer k c t d p m) s h fresh e =
    create_scenario-IsLimited env k c t d p m s h e
run-IsLimited env (change_offer k c t d p m st) s h fresh e =
    update_scenario-IsLimited env k c t d p m st s h e
run-IsLimited env (remove_offer k c) s h fresh e = delete_scenario-IsLimited env k c s h e
run-IsLimited env (add_voice k c url seconds bytes) s h fresh e =
    voice-IsLimited env k c url seconds bytes s h fresh e
run-IsLimited env (add_image k c url bytes) s h fresh e =
    image-IsLimited env k c url bytes s h fresh e
run-IsLimited env (remove_media c k) s h fresh e = delete_media-IsLimited env c k s h e

keep-IsLimited :
    (s : Store) (r : Result Store)
    → IsLimited s
    → ((s' : Store) → r ≡ ok s' → IsLimited s')
    → IsLimited (keep s r)
unfolding keep
keep-IsLimited s (ok s') h g = g s' refl
keep-IsLimited s (err e) h g = h

-- Any commands whose new media draw unused ids, on tables within the limits: every scenario has a
-- positive price and lasts 60, 120 or 180 minutes, a voice intro has at most 30 seconds and 5 MB, an
-- album image at most 2 MB, and no companion has more than four album images.
pub run_all-IsLimited :
    (commands : List (Environment × Command)) (s : Store)
    → IsLimited s
    → AllFresh commands s
    → IsLimited (run_all commands s)
unfolding run_all
run_all-IsLimited [] s h fresh = h
run_all-IsLimited ((env, command) ∷ commands) s h (fresh, later) =
    run_all-IsLimited commands (keep s (run env command s))
      (keep-IsLimited s (run env command s) h (λ s' e. run-IsLimited env command s h fresh e)) later
