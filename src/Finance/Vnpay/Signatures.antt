-- ===== src/Finance/Vnpay/Signatures.antt =====
-- Which callbacks the check of the signature lets through.
use rent_a_girlfriend.Prelude.{
  String, ◌≡◌, refl, false, not, ◌&&◌, some, [], ◌∷◌, ◌++◌, ◌==◌, is_empty, All, arith,
}
use rent_a_girlfriend.Finance.Repositories.{Environment}
use rent_a_girlfriend.Finance.Vnpay.{
  Params, get, is_hash_field, without_hash, sign, signature_matches, validate_ipn_signature,
}

-- No field of the signature stands among the parameters.
abbrev pub IsUnsigned : Params → Type 0
IsUnsigned params = All (λ (p : String × String). is_hash_field p.0 ≡ false) params

without_hash-signed :
    (params : Params) (h : String)
    → IsUnsigned params
    → without_hash (params ++ ("vnp_SecureHash", h) ∷ []) ≡ params
unfolding without_hash
without_hash-signed [] h u = refl
without_hash-signed ((k, v) ∷ params) h u = rw (u.0, without_hash-signed params h u.1) refl

get-signed :
    (params : Params) (h : String)
    → IsUnsigned params
    → get "vnp_SecureHash" (params ++ ("vnp_SecureHash", h) ∷ []) ≡ some h
unfolding get
get-signed [] h u = refl
get-signed ((k, v) ∷ params) h u = ground (arith, u.0, get-signed params h u.1)

module _ (env : Environment) where
  -- A callback whose parameters are followed by their signature passes the check exactly if its hash
  -- is not empty and is, up to the case of its letters, the signature of those parameters.
  pub validate_ipn_signature-signed :
      (params : Params) (h : String)
      → IsUnsigned params
      → validate_ipn_signature env (params ++ ("vnp_SecureHash", h) ∷ [])
        ≡ (not (is_empty h) && env.lower (sign env params) == env.lower h)
  unfolding validate_ipn_signature signature_matches
  validate_ipn_signature-signed params h u =
      rw (get-signed params h u, without_hash-signed params h u) refl
