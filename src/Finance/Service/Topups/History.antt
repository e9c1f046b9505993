-- ===== src/Finance/Service/Topups/History.antt =====
-- The page of the history that `get_transaction_history` asks for.
use rent_a_girlfriend.Prelude.{
  refl, ◌≤◌, ◌<◌, ltb, Bool-cases, inl, inr, ◌-◌, ◌*◌, ◌-ℤ◌, ℕ, ℤ, ap, negsuc, pos, pos_part, ltb_ℤ,
  if◌then◌else◌, ◌≡◌, arith, *ℤ-pos,
}
use rent_a_girlfriend.Finance.Service.Topups.{history_window}

-- The pages are numbered from 1, and a page below is the first.
first_page :
    (page : ℤ) → (if ltb_ℤ page (pos 1) then pos 1 else page) -ℤ pos 1 ≡ pos (pos_part page - 1)
unfolding ◌-ℤ◌
first_page (pos n) = ground arith
first_page (negsuc n) = ground arith

-- How many rows are read where `page_size` rows are asked for.
pub data PageLimit : ℤ → ℕ → Type 0 where
  as_asked : (n : ℕ) → 1 ≤ n → n ≤ 100 → PageLimit (pos n) n
  not_positive : (size : ℤ) → pos_part size ≡ 0 → PageLimit size 10
  above_limit : (n : ℕ) → 100 < n → PageLimit (pos n) 100

abbrev limited : ℤ → ℤ
limited page_size =
    let size = if ltb_ℤ page_size (pos 1) then pos 10 else page_size in
    if ltb_ℤ (pos 100) size then pos 100 else size

limited-PageLimit : (size : ℤ) → (n : ℕ) × (limited size ≡ pos n) × PageLimit size n
limited-PageLimit (negsuc m) = (10, ground arith, not_positive (negsuc m) refl)
limited-PageLimit (pos m) = elim (Bool-cases (ltb m 1)) [
  | inl low ↦ (10, ground (arith, low), not_positive (pos m) (ground (arith, low)))
  | inr high ↦ elim (Bool-cases (ltb 100 m)) [
    | inl over ↦ (100, ground (arith, high, over), above_limit m (ground (arith, over)))
    | inr under ↦
        (m, ground (arith, high, under), as_asked m (ground (arith, high)) (ground (arith, under)))
  ]
]

window_of :
    (page page_size : ℤ) (n : ℕ)
    → limited page_size ≡ pos n
    → history_window page page_size ≡ (pos n, pos ((pos_part page - 1) * n))
unfolding history_window
window_of page page_size n e =
    rw (e, first_page page) (ap (λ o. (pos n, o)) (*ℤ-pos (pos_part page - 1) n))

-- Whatever page and size are asked for, the history is read from an offset that is not negative: as
-- many rows are skipped as there are on the pages before the page, which is the first if a page below
-- 1 is asked for. A page has as many rows as asked for if these are between 1 and 100, 100 if more
-- are asked for, and 10 if none or a negative number is.
pub history_window-bounds :
    (page page_size : ℤ)
    → (n : ℕ) × PageLimit page_size n
      × (history_window page page_size ≡ (pos n, pos ((pos_part page - 1) * n)))
history_window-bounds page page_size =
    let (n, e, l) = limited-PageLimit page_size in (n, l, window_of page page_size n e)
