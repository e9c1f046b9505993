-- ===== src/Table/Listed.antt =====
-- A database that keeps the rows in order: it returns the first row that fits and refuses a write
-- that clashes or that `accepts` turns down. It shows that the laws of `Table` can hold, and runs.
use rent_a_girlfriend.Prelude.{
  String, ◌≡◌, refl, Bool, true, false, not, ◌&&◌, ◌||◌, Option, none, some, List, [], ◌∷◌, Memᴰ,
  arith, ◌==◌, eq_iff, if◌then◌else◌, Bool-cases, inl, inr,
}
use rent_a_girlfriend.Table.{Table}
use rent_a_girlfriend.Table.Rows.{upsert, NoClash}

module _ {R : Type 0} where
  unfoldable pub first_row : (R → Bool) → List R → Option R
  first_row p [] = none
  first_row p (q ∷ t) = if p q then some q else first_row p t

  pub first_row-some :
      (p : R → Bool) (t : List R) (r : R) → first_row p t ≡ some r → (p r ≡ true) × Memᴰ r t
  unfolding first_row
  first_row-some p [] r e = cc
  first_row-some p (q ∷ t) r e = elim (Bool-cases (p q)) [
    | inl yes_p ↦ here yes_p (rw yes_p at e)
    | inr no_p ↦ let (h, m) = first_row-some p t r (rw no_p at e) in (h, Memᴰ.tail m)
  ]
    where
      here : p q ≡ true → some q ≡ some r → (p r ≡ true) × Memᴰ r (q ∷ t)
      here h s = let same : r ≡ q = cc in (rw same h, Memᴰ.head same)

  pub first_row-none :
      (p : R → Bool) (t : List R) (r : R) → first_row p t ≡ none → Memᴰ r t → p r ≡ false
  unfolding first_row
  first_row-none p [] r e m = elim m [ ]
  first_row-none p (q ∷ t) r e (Memᴰ.head s) = elim (Bool-cases (p q)) [
    | inl yes_p ↦ let clash : some q ≡ none = rw yes_p at e in cc
    | inr no_p ↦ rw s no_p
  ]
  first_row-none p (q ∷ t) r e (Memᴰ.tail m) = elim (Bool-cases (p q)) [
    | inl yes_p ↦ let clash : some q ≡ none = rw yes_p at e in cc
    | inr no_p ↦ first_row-none p t r (rw no_p at e) m
  ]

module _ {R : Type 0} (key unique : R → String) where
  unfoldable pub no_clash : R → List R → Bool
  no_clash r [] = true
  no_clash r (q ∷ t) = (key q == key r || not (unique q == unique r)) && no_clash r t

  NoClash-of_test : (r : R) (t : List R) → no_clash r t ≡ true → NoClash key unique r t
  unfolding no_clash
  NoClash-of_test r [] h = tt
  NoClash-of_test r (q ∷ t) h = (
    λ k u. ground (arith, eq_iff (key q) (key r), eq_iff (unique q) (unique r)),
    NoClash-of_test r t (ground arith),
  )

  test_of_NoClash : (r : R) (t : List R) → NoClash key unique r t → no_clash r t ≡ true
  unfolding no_clash
  test_of_NoClash r [] h = refl
  test_of_NoClash r (q ∷ t) h =
      ground
        (arith, eq_iff (key q) (key r), eq_iff (unique q) (unique r), test_of_NoClash r t h.1, h.0)

  module _ (accepts : R → Bool) where
    unfoldable pub merge_row : R → List R → Option (List R)
    unfolding no_clash upsert
    merge_row r t = if accepts r && no_clash r t then some (upsert key r t) else none

    pub merge_row-some :
        (r : R) (t t' : List R)
        → merge_row r t ≡ some t'
        → (t' ≡ upsert key r t) × NoClash key unique r t
    unfolding merge_row
    merge_row-some r t t' e = (ground arith, NoClash-of_test r t (ground arith))

    pub merge_row-accepts :
        (r : R) (t : List R)
        → accepts r ≡ true
        → NoClash key unique r t
        → merge_row r t ≡ some (upsert key r t)
    unfolding merge_row
    merge_row-accepts r t a h = ground (arith, test_of_NoClash r t h)

    abbrev pub listed : Table key unique
    listed = record {
      first = first_row;
      merge = merge_row;
      accepts = accepts;
      first_some = first_row-some;
      first_none = first_row-none;
      merge_some = merge_row-some;
      merge_accepts = merge_row-accepts;
    }
