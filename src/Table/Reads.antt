-- ===== src/Table/Reads.antt =====
-- What a read of a table finds.
use rent_a_girlfriend.Prelude.{
  String, ◌≡◌, sym, ◌∙◌, none, some, List, Memᴰ, ◌==◌, eq_iff, inl, inr, All-mem, All-of_mem,
  Option-cases, ne_of_==-false,
}
use rent_a_girlfriend.Table.{Table}
use rent_a_girlfriend.Table.Rows.{IsFresh, IsDistinct, mem_unique}

module _ {R : Type 0} {key unique : R → String} (T : Table key unique) (col : R → String) where
  -- Looking a row up by the value of a column without duplicates finds that row.
  pub first_of_mem :
      (r : R) (t : List R) (u : String)
      → IsDistinct col t
      → Memᴰ r t
      → col r ≡ u
      → T.first (λ q. col q == u) t ≡ some r
  first_of_mem r t u d m e = elim (Option-cases (T.first (λ q. col q == u) t)) [
    | inl missing ↦ absurd (ne_of_==-false (col r) u (T.first_none _ t r missing m) e)
    | inr (q, found) ↦
        let (p, n) = T.first_some _ t q found in
        rw found (rw (mem_unique col q r t d n m ((eq_iff (col q) u).0 p ∙ sym e)))
  ]

  pub first_of_IsFresh :
      (t : List R) (u : String) → IsFresh col u t → T.first (λ q. col q == u) t ≡ none
  first_of_IsFresh t u h = elim (Option-cases (T.first (λ q. col q == u) t)) [
    | inl missing ↦ missing
    | inr (q, found) ↦
        let (p, n) = T.first_some _ t q found in absurd (All-mem _ t h n ((eq_iff (col q) u).0 p))
  ]

  -- A lookup that finds nothing shows that the value is free.
  pub IsFresh-of_first :
      (t : List R) (u : String) → T.first (λ q. col q == u) t ≡ none → IsFresh col u t
  IsFresh-of_first t u missing =
      All-of_mem _ t (λ q m. ne_of_==-false (col q) u (T.first_none _ t q missing m))

  -- A row that was found is in the table, with the value asked for.
  pub mem_of_first :
      (t : List R) (u : String) (r : R)
      → T.first (λ q. col q == u) t ≡ some r
      → Memᴰ r t × (col r ≡ u)
  mem_of_first t u r found = let (p, n) = T.first_some _ t r found in (n, (eq_iff (col r) u).0 p)
