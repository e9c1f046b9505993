-- ===== src/Profile/Commands/Limits.antt =====
-- The limits of the platform on scenarios and media, over any sequence of commands.
use rent_a_girlfriend.Prelude.{
  ℕ, zero, suc, ◌+◌, ◌≤◌, ◌<◌, ℤ, pos, negsuc, String, ◌≡◌, refl, sym, ap, ◌∙◌, subst, Option, none,
  some, List, [], ◌∷◌, ◌++◌, Bool, true, false, not, ◌==◌, leb, length, total, All, arith,
  if◌then◌else◌, Bool-cases, inl, inr,
}
use rent_a_girlfriend.Table.Rows.{upsert, IsFresh, All-upsert, total-upsert_new}
use rent_a_girlfriend.Profile.Vo.{
  Error, ok, err, encode_error, invalid_duration, bind_ok, money, duration, is_allowed,
}
use rent_a_girlfriend.Profile.Aggregates
use rent_a_girlfriend.Profile.Aggregates.{
  DomainEvent, Scenario, MediaAsset, create_voice_intro, create_album_image, voice_bytes,
  image_bytes, voice_seconds,
}
use rent_a_girlfriend.Profile.Repositories.{
  Environment, Store, ScenarioModel, MediaAssetModel, scenario_id, asset_id, or_raise, select,
  without, has_type, one_if, scenario_to_model, media_to_model, all_to_domain,
  find_by_companion_id_and_type, save_scenario, save_media, publish_all,
}
use rent_a_girlfriend.Profile.Commands.{
  create_scenario, update_scenario, delete_scenario, validate_album_limit, require,
}

-- [INV-P01], [INV-P02]
pub record IsOffer (m : ScenarioModel) : Type 0 where
  pub priced : 0 < m.price
  pub timed : is_allowed m.duration_minutes ≡ true

-- [INV-P04], [INV-P05] and the size of an album image.
pub record IsSmall (m : MediaAssetModel) : Type 0 where
  pub voice :
      m.asset_type ≡ "VOICE_INTRO"
      → (m.size_bytes ≤ voice_bytes)
        × ((n : ℕ) × (m.duration_seconds ≡ some n) × (n ≤ voice_seconds))
  pub image : m.asset_type ≡ "ALBUM" → m.size_bytes ≤ image_bytes

-- The album images of a companion.
abbrev pub albums : String → List MediaAssetModel → ℕ
albums c t = total (λ m. one_if (has_type c "ALBUM" m)) t

pub record IsLimited (s : Store) : Type 0 where
  pub offers : All IsOffer s.scenarios
  pub small : All IsSmall s.media
  pub few : (c : String) → albums c s.media ≤ 4

-- What the steps of a command leave alone.
pub publish_all-same :
    (env : Environment) (es : List DomainEvent) (s : Store) {s' : Store}
    → publish_all env es s ≡ ok s'
    → (s'.scenarios ≡ s.scenarios) × (s'.media ≡ s.media)
unfolding publish_all
publish_all-same env [] s h = (cc, cc)
publish_all-same env (e ∷ es) s {s'} h = next (env.encodes e) (λ r. publish_all-same env es _ r) h
  where
    next :
        (b : Bool)
        → (publish_all env es (record s { outbox = s.outbox ++ e ∷ [] }) ≡ ok s'
            → (s'.scenarios ≡ s.scenarios) × (s'.media ≡ s.media))
        → (if b
            then publish_all env es (record s { outbox = s.outbox ++ e ∷ [] })
            else err encode_error)
          ≡ ok s'
        → (s'.scenarios ≡ s.scenarios) × (s'.media ≡ s.media)
    next true again h' = again h'
    next false again h' = cc

or_raise_ok : {A : Type 0} (e : Error) (o : Option A) {a : A} → or_raise e o ≡ ok a → o ≡ some a
unfolding or_raise
or_raise_ok e none h = cc
or_raise_ok e (some a) h = cc

save_scenario_ok :
    (env : Environment) (x : Scenario) (s : Store) {s' : Store}
    → save_scenario env x s ≡ ok s'
    → s' ≡ record s { scenarios = upsert scenario_id (scenario_to_model x) s.scenarios }
unfolding save_scenario
save_scenario_ok env x s h =
    let (t, merged, e) = bind_ok _ _ h in
    let (t_is, _) = env.scenarios.merge_some _ _ t (or_raise_ok _ _ merged) in
    sym (ok_injective e) ∙ ap (λ t. record s { scenarios = t }) t_is
  where
    ok_injective : {a b : Store} → ok a ≡ ok b → a ≡ b
    ok_injective p = cc

save_media_ok :
    (env : Environment) (x : MediaAsset) (s : Store) {s' : Store}
    → save_media env x s ≡ ok s'
    → s' ≡ record s { media = upsert asset_id (media_to_model x) s.media }
unfolding save_media
save_media_ok env x s h =
    let (t, merged, e) = bind_ok _ _ h in
    let (t_is, _) = env.media.merge_some _ _ t (or_raise_ok _ _ merged) in
    sym (ok_injective e) ∙ ap (λ t. record s { media = t }) t_is
  where
    ok_injective : {a b : Store} → ok a ≡ ok b → a ≡ b
    ok_injective p = cc

money_ok : (z : ℤ) {n : ℕ} → money z ≡ ok n → 0 < n
unfolding money
money_ok (pos zero) h = cc
money_ok (pos (suc n)) h = ground arith
money_ok (negsuc n) h = cc

duration_ok : (z : ℤ) {n : ℕ} → duration z ≡ ok n → is_allowed n ≡ true
unfolding duration
duration_ok (pos m) {n} h = next (is_allowed m) refl h
  where
    next :
        (b : Bool)
        → is_allowed m ≡ b
        → (if b then ok m else err invalid_duration) ≡ ok n
        → is_allowed n ≡ true
    next true e h' = let same : m ≡ n = cc in subst (λ k. is_allowed k ≡ true) same e
    next false e h' = cc
duration_ok (negsuc m) h = cc

module _ {R : Type 0} (key : R → String) (k : String) where
  pub All-without : (P : R → Type 0) (t : List R) → All P t → All P (without key k t)
  unfolding without
  All-without P [] h = tt
  All-without P (r ∷ t) h = elim (Bool-cases (key r == k)) [
    | inl same ↦ rw same (All-without P t h.1)
    | inr other ↦ rw other (h.0, All-without P t h.1)
  ]

  pub total-without : (f : R → ℕ) (t : List R) → total f (without key k t) ≤ total f t
  unfolding without
  total-without f [] = omega arith
  total-without f (r ∷ t) = ground (arith, total-without f t)

length-select :
    {R : Type 0} (p : R → Bool) (t : List R) → length (select p t) ≡ total (λ m. one_if (p m)) t
unfolding select
length-select p [] = refl
length-select p (r ∷ t) = ground (arith, length-select p t)

length-all_to_domain :
    (env : Environment) (t : List MediaAssetModel) {xs : List MediaAsset}
    → all_to_domain env t ≡ ok xs
    → length xs ≡ length t
unfolding all_to_domain
length-all_to_domain env [] {xs} h = let same : xs ≡ [] = cc in ap length same
length-all_to_domain env (m ∷ t) {xs} h =
    let (x, read, h') = bind_ok _ _ h in
    let (ys, rest, e) = bind_ok _ _ h' in
    let same : x ∷ ys ≡ xs = cc in sym (ap length same) ∙ ap suc (length-all_to_domain env t rest)

require_ok : (b : Bool) (e : Error) {u : Unit {0}} → require b e ≡ ok u → b ≡ true
unfolding require
require_ok true e h = refl
require_ok false e h = cc

module _ (env : Environment) where
  -- A companion that passes the check has fewer than four album images.
  pub below_limit :
      (c : String) (s : Store) {u : Unit {0}}
      → validate_album_limit env c s ≡ ok u
      → albums c s.media < 4
  unfolding validate_album_limit find_by_companion_id_and_type
  below_limit c s h =
      let (xs, read, h') = bind_ok _ _ h in
      omega (
        arith,
        not_leb (length xs) (require_ok _ _ h'),
        length-all_to_domain env _ read,
        length-select (has_type c "ALBUM") s.media,
      )
    where
      not_leb : (n : ℕ) → not (leb 4 n) ≡ true → n < 4
      not_leb n e = ground arith

  saved_offer-IsLimited :
      (x : Scenario) (s : Store) {s₁ s' : Store}
      → IsLimited s
      → IsOffer (scenario_to_model x)
      → save_scenario env x s ≡ ok s₁
      → publish_all env x.events s₁ ≡ ok s'
      → IsLimited s'
  saved_offer-IsLimited x s {s₁} {s'} h offer saved published =
      let (scenarios_is, media_is) = publish_all-same env x.events s₁ published in
      let s₁_is = save_scenario_ok env x s saved in
      let same : s'.media ≡ s.media = media_is ∙ ap (λ (d : Store). d.media) s₁_is in
      record {
        offers =
            subst (All IsOffer) (sym (scenarios_is ∙ ap (λ (d : Store). d.scenarios) s₁_is))
              (All-upsert scenario_id IsOffer _ s.scenarios h.offers offer);
        small = subst (All IsSmall) (sym same) h.small;
        few = λ c. subst (λ t. albums c t ≤ 4) (sym same) (h.few c);
      }

  pub saved_media-IsLimited :
      (x : MediaAsset) (s : Store) {s₁ s' : Store}
      → IsLimited s
      → IsSmall (media_to_model x)
      → IsFresh asset_id x.asset_id s.media
      → ((c : String) → albums c s.media + one_if (has_type c "ALBUM" (media_to_model x)) ≤ 4)
      → save_media env x s ≡ ok s₁
      → publish_all env x.events s₁ ≡ ok s'
      → IsLimited s'
  unfolding media_to_model
  saved_media-IsLimited x s {s₁} {s'} h small fresh few saved published =
      let (scenarios_is, media_is) = publish_all-same env x.events s₁ published in
      let s₁_is = save_media_ok env x s saved in
      let same : s'.media ≡ upsert asset_id (media_to_model x) s.media =
        media_is ∙ ap (λ (d : Store). d.media) s₁_is in
      record {
        offers =
            subst (All IsOffer) (sym (scenarios_is ∙ ap (λ (d : Store). d.scenarios) s₁_is))
              h.offers;
        small =
            subst (All IsSmall) (sym same) (All-upsert asset_id IsSmall _ s.media h.small small);
        few = λ c.
            subst (λ t. albums c t ≤ 4) (sym same)
              (omega (
                arith,
                total-upsert_new asset_id (λ m. one_if (has_type c "ALBUM" m)) (media_to_model x)
                    s.media fresh,
                few c,
              ));
      }

  pub create_scenario-IsLimited :
      (k c title description : String) (price minutes : ℤ) (s : Store) {s' : Store}
      → IsLimited s
      → create_scenario env k c title description price minutes s ≡ ok s'
      → IsLimited s'
  unfolding create_scenario Aggregates.create_scenario scenario_to_model
  create_scenario-IsLimited k c title description price minutes s h e =
      let (_, _, e₁) = bind_ok _ _ e in
      let (_, _, e₂) = bind_ok _ _ e₁ in
      let (amount, priced, e₃) = bind_ok _ _ e₂ in
      let (n, timed, e₄) = bind_ok _ _ e₃ in
      let (s₁, saved, published) = bind_ok _ _ e₄ in
      saved_offer-IsLimited _ s h
        (record { priced = money_ok price priced; timed = duration_ok minutes timed }) saved
        published

  pub update_scenario-IsLimited :
      (k c title description : String) (price minutes : ℤ) (status : String) (s : Store)
      {s' : Store}
      → IsLimited s
      → update_scenario env k c title description price minutes status s ≡ ok s'
      → IsLimited s'
  unfolding update_scenario Aggregates.update_scenario scenario_to_model
  update_scenario-IsLimited k c title description price minutes status s h e =
      let (x, _, e₂) = bind_ok _ _ e in
      let (amount, priced, e₃) = bind_ok _ _ e₂ in
      let (n, timed, e₄) = bind_ok _ _ e₃ in
      let (s₁, saved, published) = bind_ok _ _ e₄ in
      saved_offer-IsLimited _ s h
        (record { priced = money_ok price priced; timed = duration_ok minutes timed }) saved
        published

  pub delete_scenario-IsLimited :
      (k c : String) (s : Store) {s' : Store}
      → IsLimited s
      → delete_scenario env k c s ≡ ok s'
      → IsLimited s'
  unfolding delete_scenario
  delete_scenario-IsLimited k c s h e =
      let (x, _, published) = bind_ok _ _ e in
      let (scenarios_is, media_is) = publish_all-same env _ _ published in
      record {
        offers =
            subst (All IsOffer) (sym scenarios_is)
              (All-without scenario_id k IsOffer s.scenarios h.offers);
        small = subst (All IsSmall) (sym media_is) h.small;
        few = λ a. subst (λ t. albums a t ≤ 4) (sym media_is) (h.few a);
      }
