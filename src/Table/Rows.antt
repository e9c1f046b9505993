-- ===== src/Table/Rows.antt =====
-- The rows of a table: replacing or adding the row of a primary key, and what that does to sums,
-- membership and the constraints.
use rent_a_girlfriend.Prelude.{
  ℕ, ◌+◌, String, ◌≡◌, refl, sym, ap, ◌∙◌, ◌≢◌, ◌⊎◌, inl, inr, true, false, List, [], ◌∷◌, Memᴰ,
  arith, ◌==◌, eq_iff, if◌then◌else◌, total, All, All-mem, All-of_mem, ==-false_of_ne,
  ne_of_==-false, Bool-cases, subst,
}

module _ {R : Type 0} (key : R → String) where
  -- The row `r` in place of the one with its key, or behind all others.
  unfoldable pub upsert : R → List R → List R
  upsert r [] = r ∷ []
  upsert r (q ∷ t) = if key q == key r then r ∷ t else q ∷ upsert r t

  -- No row has the key `k`.
  abbrev pub IsFresh : String → List R → Type 0
  IsFresh k t = All (λ q. key q ≢ k) t

  abbrev pub IsDistinct : List R → Type 0
  IsDistinct [] = Unit
  IsDistinct (q ∷ t) = IsFresh (key q) t × IsDistinct t

  -- No row of another key has the unique column of `r`.
  abbrev pub NoClash : (R → String) → R → List R → Type 0
  NoClash unique r t = All (λ q. key q ≢ key r → unique q ≢ unique r) t

module _ {R : Type 0} (key : R → String) (f : R → ℕ) where
  pub total-upsert_new :
      (r : R) (t : List R) → IsFresh key (key r) t → total f (upsert key r t) ≡ total f t + f r
  unfolding upsert
  total-upsert_new r [] h = omega arith
  total-upsert_new r (q ∷ t) h =
      ground (arith, ==-false_of_ne (key q) (key r) h.0, total-upsert_new r t h.1)

  pub total-upsert_old :
      (r old : R) (t : List R)
      → IsDistinct key t
      → Memᴰ old t
      → key r ≡ key old
      → total f (upsert key r t) + f old ≡ total f t + f r
  unfolding upsert
  total-upsert_old r old [] d m k = elim m [ ]
  total-upsert_old r old (q ∷ t) d (Memᴰ.head e) k =
      let same : (key q == key r) ≡ true = (eq_iff (key q) (key r)).1 (ap key (sym e) ∙ sym k) in
      rw same (omega (arith, ap f e))
  total-upsert_old r old (q ∷ t) d (Memᴰ.tail m) k =
      let other : (key q == key r) ≡ false =
        ==-false_of_ne (key q) (key r) (λ e. All-mem _ t d.0 m (sym k ∙ sym e)) in
      rw other (omega (arith, total-upsert_old r old t d.1 m k))

module _ {R : Type 0} (key : R → String) where
  pub mem-upsert_self : (r : R) (t : List R) → Memᴰ r (upsert key r t)
  unfolding upsert
  mem-upsert_self r [] = Memᴰ.head refl
  mem-upsert_self r (q ∷ t) = elim (Bool-cases (key q == key r)) [
    | inl same ↦ rw same (Memᴰ.head refl)
    | inr other ↦ rw other (Memᴰ.tail (mem-upsert_self r t))
  ]

  -- Rows of other keys stay.
  pub mem-upsert_ne : (r q : R) (t : List R) → key q ≢ key r → Memᴰ q t → Memᴰ q (upsert key r t)
  unfolding upsert
  mem-upsert_ne r q [] h m = elim m [ ]
  mem-upsert_ne r q (p ∷ t) h (Memᴰ.head e) =
      let other : (key p == key r) ≡ false =
        ==-false_of_ne (key p) (key r) (λ same. h (ap key e ∙ same)) in
      rw other (Memᴰ.head e)
  mem-upsert_ne r q (p ∷ t) h (Memᴰ.tail m) = elim (Bool-cases (key p == key r)) [
    | inl same ↦ rw same (Memᴰ.tail m)
    | inr other ↦ rw other (Memᴰ.tail (mem-upsert_ne r q t h m))
  ]

  -- What is there afterwards was written or was there before.
  pub mem-upsert : (r q : R) (t : List R) → Memᴰ q (upsert key r t) → (q ≡ r) ⊎ Memᴰ q t
  unfolding upsert
  mem-upsert r q [] (Memᴰ.head e) = inl e
  mem-upsert r q [] (Memᴰ.tail m) = elim m [ ]
  mem-upsert r q (p ∷ t) m = elim (Bool-cases (key p == key r)) [
    | inl same ↦ replaced (rw same at m)
    | inr other ↦ kept (mem-upsert r q t) (rw other at m)
  ]
    where
      replaced : Memᴰ q (r ∷ t) → (q ≡ r) ⊎ Memᴰ q (p ∷ t)
      replaced (Memᴰ.head e) = inl e
      replaced (Memᴰ.tail n) = inr (Memᴰ.tail n)

      kept :
          (Memᴰ q (upsert key r t) → (q ≡ r) ⊎ Memᴰ q t)
          → Memᴰ q (p ∷ upsert key r t)
          → (q ≡ r) ⊎ Memᴰ q (p ∷ t)
      kept ih (Memᴰ.head e) = inr (Memᴰ.head e)
      kept ih (Memᴰ.tail n) = elim (ih n) [ inl e ↦ inl e | inr o ↦ inr (Memᴰ.tail o) ]

  pub All-upsert {ℓ} :
      (P : R → Type ℓ) (r : R) (t : List R) → All P t → P r → All P (upsert key r t)
  unfolding upsert
  All-upsert P r [] h p = (p, tt)
  All-upsert P r (q ∷ t) h p = elim (Bool-cases (key q == key r)) [
    | inl same ↦ rw same (p, h.1)
    | inr other ↦ rw other (h.0, All-upsert P r t h.1 p)
  ]

  -- A key names one row.
  pub mem_unique :
      (a b : R) (t : List R) → IsDistinct key t → Memᴰ a t → Memᴰ b t → key a ≡ key b → a ≡ b
  mem_unique a b [] d m n e = elim m [ ]
  mem_unique a b (q ∷ t) d (Memᴰ.head p) (Memᴰ.head o) e = p ∙ sym o
  mem_unique a b (q ∷ t) d (Memᴰ.head p) (Memᴰ.tail n) e =
      absurd (All-mem _ t d.0 n (sym e ∙ ap key p))
  mem_unique a b (q ∷ t) d (Memᴰ.tail m) (Memᴰ.head o) e = absurd (All-mem _ t d.0 m (e ∙ ap key o))
  mem_unique a b (q ∷ t) d (Memᴰ.tail m) (Memᴰ.tail n) e = mem_unique a b t d.1 m n e

  pub upsert-IsDistinct : (r : R) (t : List R) → IsDistinct key t → IsDistinct key (upsert key r t)
  unfolding upsert
  upsert-IsDistinct r [] d = (tt, tt)
  upsert-IsDistinct r (q ∷ t) d = elim (Bool-cases (key q == key r)) [
    | inl same ↦ rw same (subst (λ k. IsFresh key k t) ((eq_iff _ _).0 same) d.0, d.1)
    | inr other ↦ rw other (
      All-upsert (λ p. key p ≢ key q) r t d.0 (λ e. ne_of_==-false _ _ other (sym e)),
      upsert-IsDistinct r t d.1,
    )
  ]

  -- The unique column stays unique if the write broke no constraint.
  pub upsert-IsDistinct_unique :
      (unique : R → String) (r : R) (t : List R)
      → IsDistinct key t
      → IsDistinct unique t
      → NoClash key unique r t
      → IsDistinct unique (upsert key r t)
  unfolding upsert
  upsert-IsDistinct_unique unique r [] d u c = (tt, tt)
  upsert-IsDistinct_unique unique r (q ∷ t) d u c = elim (Bool-cases (key q == key r)) [
    | inl same ↦ rw same (
      All-of_mem _ t
          (λ p m. All-mem _ t c.1 m (λ e. All-mem _ t d.0 m (e ∙ sym ((eq_iff _ _).0 same)))),
      u.1,
    )
    | inr other ↦ rw other (
      All-upsert (λ p. unique p ≢ unique q) r t u.0 (λ e. c.0 (ne_of_==-false _ _ other) (sym e)),
      upsert-IsDistinct_unique unique r t d.1 u.1 c.1,
    )
  ]
