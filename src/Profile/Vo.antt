-- ===== src/Profile/Vo.antt =====
-- services/profile-service/internal/domain/vo and domain/errors: the value objects of scenarios and
-- media, and the exceptions.
use rent_a_girlfriend.Prelude.{
  ℕ, zero, suc, ℤ, pos, negsuc, String, Bool, ◌≡◌, refl, ◌||◌, eqb, if◌then◌else◌,
}

pub data Error : Type 0 where
  profile_not_found scenario_not_found media_asset_not_found : String → Error
  scenario_limit_exceeded album_limit_exceeded : String → Error
  voice_intro_duration_exceeded voice_intro_size_exceeded album_image_size_exceeded : ℕ → Error
  -- `ValueError` of the value objects
  invalid_price invalid_duration invalid_url : Error
  database_error encode_error : Error

pub data Result (A : Type 0) : Type 0 where
  ok : A → Result A
  err : Error → Result A

infixl 5 ◌>>=◌
unfoldable pub ◌>>=◌ : {A B : Type 0} → Result A → (A → Result B) → Result B
ok a >>= f = f a
err e >>= f = err e

pub bind_ok :
    {A B : Type 0} (r : Result A) (f : A → Result B) {b : B}
    → (r >>= f) ≡ ok b
    → (a : A) × (r ≡ ok a) × (f a ≡ ok b)
unfolding ◌>>=◌
bind_ok (ok a) f h = (a, refl, h)
bind_ok (err e) f h = cc

-- `Money(amount)`, [INV-P01]
unfoldable pub money : ℤ → Result ℕ
money (pos zero) = err invalid_price
money (pos (suc n)) = ok (suc n)
money (negsuc n) = err invalid_price

-- `minutes in (60, 120, 180)`
abbrev pub is_allowed : ℕ → Bool
is_allowed n = eqb n 60 || eqb n 120 || eqb n 180

-- `Duration(minutes)`, [INV-P02]
unfoldable pub duration : ℤ → Result ℕ
duration (pos n) = if is_allowed n then ok n else err invalid_duration
duration (negsuc n) = err invalid_duration
