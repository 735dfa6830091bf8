-- ===== src/Storage/Retention/Victims.antt =====
-- Which rows the retention query selects.
use oppa.Common.{
  ℕ, ◌≤◌, ◌≡◌, refl, min, Bool, true, false, not, ◌&&◌, Option, List, [], ◌∷◌, map, arith, length,
  take, filter, length-take,
}
use oppa.Common.Text.{Text, text_eq_refl, text_eq_iff}
use oppa.Common.Counting.{
  count, count_mono, count_ext, count_zero_of_false, count_split, count_or, count-filter_le,
  count-filter_drop, length-filter, count-take,
}
use oppa.Common.Sorting.{order_by, count-order_by, length-order_by}
use oppa.Storage.Schema.{JobRow, has_id, row_is_terminal}
use oppa.Storage.Retention.{is_evictable, updated_first, is_among, victims}

abbrev among_rows : List JobRow → List Text
among_rows rows = map (λ (row : JobRow). row.job_id) rows

-- The selected rows, before the projection to their identifiers.
abbrev pub selected : Option Text → ℕ → List JobRow → List JobRow
selected protected excess jobs =
    take excess (order_by updated_first (filter (is_evictable protected) jobs))

-- The selection holds no row more often than the table does.
count-selected :
    (t : JobRow → Bool) (protected : Option Text) (excess : ℕ) (jobs : List JobRow)
    → count t (selected protected excess jobs) ≤ count t jobs
count-selected t protected excess jobs = omega (
  arith,
  count-take t excess (order_by updated_first (filter (is_evictable protected) jobs)),
  count-order_by updated_first t (filter (is_evictable protected) jobs),
  count-filter_le t (is_evictable protected) jobs,
)

-- No selected row passes a test that evictable rows fail.
selected_avoids :
    (t : JobRow → Bool) (protected : Option Text) (excess : ℕ) (jobs : List JobRow)
    → ((row : JobRow) → t row ≡ true → is_evictable protected row ≡ false)
    → count t (selected protected excess jobs) ≡ 0
selected_avoids t protected excess jobs h = omega (
  arith,
  count-take t excess (order_by updated_first (filter (is_evictable protected) jobs)),
  count-order_by updated_first t (filter (is_evictable protected) jobs),
  count-filter_drop t (is_evictable protected) jobs h,
)

length-selected :
    (protected : Option Text) (excess : ℕ) (jobs : List JobRow)
    → length (selected protected excess jobs) ≡ min excess (count (is_evictable protected) jobs)
length-selected protected excess jobs = omega (
  arith,
  length-take excess (order_by updated_first (filter (is_evictable protected) jobs)),
  length-order_by updated_first (filter (is_evictable protected) jobs),
  length-filter (is_evictable protected) jobs,
)

is_among_cons :
    (i : Text) (ids : List Text) (id : Text) → is_among ids id ≡ true → is_among (i ∷ ids) id ≡ true
is_among_cons i ids id h = ground arith

-- Each row is among the identifiers of its own list.
count_among_self :
    (rows : List JobRow) → length rows ≤ count (λ row. is_among (among_rows rows) row.job_id) rows
count_among_self [] = omega arith
count_among_self (x ∷ xs) = ground (
  arith,
  text_eq_refl x.job_id,
  count_among_self xs,
  count_mono (λ row. is_among (among_rows xs) row.job_id)
      (λ row. is_among (among_rows (x ∷ xs)) row.job_id) xs
      (λ row. is_among_cons x.job_id (among_rows xs) row.job_id),
)

-- Without a row of that identifier the identifier is not among theirs.
among-none :
    (id : Text) (rows : List JobRow)
    → count (has_id id) rows ≡ 0
    → is_among (among_rows rows) id ≡ false
among-none id [] h = refl
among-none id (x ∷ xs) h =
    ground (arith, among-none id xs, text_eq_iff id x.job_id, text_eq_iff x.job_id id)

-- A column without repeats has at most one row for each listed identifier.
count_among-le :
    (ids : List Text) (jobs : List JobRow)
    → ((id : Text) → count (has_id id) jobs ≤ 1)
    → count (λ row. is_among ids row.job_id) jobs ≤ length ids
count_among-le [] jobs u =
    omega (arith, count_zero_of_false (λ row. is_among [] row.job_id) jobs (λ _. refl))
count_among-le (i ∷ ids) jobs u = omega (
  arith,
  u i,
  count_or (has_id i) (λ row. is_among ids row.job_id) jobs,
  count_among-le ids jobs u,
)

length-among_rows : (rows : List JobRow) → length (among_rows rows) ≡ length rows
length-among_rows [] = refl
length-among_rows (x ∷ xs) = omega (arith, length-among_rows xs)

-- At least as many finished rows are named as the query selects.
pub victims_cover :
    (protected : Option Text) (excess : ℕ) (jobs : List JobRow)
    → min excess (count (is_evictable protected) jobs)
      ≤ count
          (λ row. row_is_terminal row && is_among (victims protected excess jobs) row.job_id)
          jobs
unfolding victims
victims_cover protected excess jobs =
    let rows = selected protected excess jobs in
    let named : JobRow → Bool = λ row. is_among (among_rows rows) row.job_id in
    omega (
      arith,
      length-selected protected excess jobs,
      count_among_self rows,
      count_split named row_is_terminal rows,
      count_ext (λ row. named row && row_is_terminal row) (λ row. row_is_terminal row && named row)
          rows (λ row. ground arith),
      count_mono (λ row. named row && not (row_is_terminal row)) (λ row. not (row_is_terminal row))
          rows (λ row. ground arith),
      selected_avoids (λ row. not (row_is_terminal row)) protected excess jobs
          (λ row. ground arith),
      count-selected (λ row. row_is_terminal row && named row) protected excess jobs,
    )

-- And no more rows than it selects, where identifiers do not repeat.
pub victims-le :
    (protected : Option Text) (excess : ℕ) (jobs : List JobRow)
    → ((id : Text) → count (has_id id) jobs ≤ 1)
    → count (λ row. is_among (victims protected excess jobs) row.job_id) jobs ≤ excess
unfolding victims
victims-le protected excess jobs u =
    let rows = selected protected excess jobs in
    omega (
      arith,
      count_among-le (among_rows rows) jobs u,
      length-among_rows rows,
      length-selected protected excess jobs,
    )

-- A row that is not finished is not named, where identifiers do not repeat.
pub victims_spare :
    (protected : Option Text) (excess : ℕ) (jobs : List JobRow) (id : Text)
    → ((row : JobRow) → has_id id row ≡ true → is_evictable protected row ≡ false)
    → is_among (victims protected excess jobs) id ≡ false
unfolding victims
victims_spare protected excess jobs id h =
    among-none id (selected protected excess jobs)
      (selected_avoids (has_id id) protected excess jobs h)
