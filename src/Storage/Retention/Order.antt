-- ===== src/Storage/Retention/Order.antt =====
-- Eviction takes the oldest finished rows.
use oppa.Common.{
  ℕ, zero, suc, ◌≤◌, ◌≡◌, refl, sym, true, false, Option, List, [], ◌∷◌, arith, take, drop, filter,
  map, inl, inr, Bool-cases,
}
use oppa.Common.Text.{Text, text_eq, text_eq→eq, text_eq_refl, text_le_total, text_le_trans}
use oppa.Common.Counting.{count}
use oppa.Common.Everywhere.{
  In, In-take, In-take_or_drop, In-drop, In-filter, In-filter_inv, In-unique, All-In,
}
use oppa.Common.Sorting.{order_by, IsOrdered, order_by-IsOrdered, In-order_by, In-order_by_inv}
use oppa.Storage.Schema.{JobRow, has_id}
use oppa.Storage.Retention.{is_evictable, updated_first, is_among, victims}

updated_first_total : (a b : JobRow) → updated_first a b ≡ false → updated_first b a ≡ true
updated_first_total a b h = ground (arith, text_le_total a.job_id b.job_id)

updated_first_trans :
    (a b c : JobRow)
    → updated_first a b ≡ true
    → updated_first b c ≡ true
    → updated_first a c ≡ true
updated_first_trans a b c h k = ground (arith, text_le_trans a.job_id b.job_id c.job_id)

-- What comes early in an ordered list is before what comes late.
early_before_late :
    (n : ℕ) (rows : List JobRow) (a b : JobRow)
    → IsOrdered updated_first rows
    → In a (take n rows)
    → In b (drop n rows)
    → updated_first a b ≡ true
early_before_late zero rows a b o i j = absurd i
early_before_late (suc n) (x ∷ xs) a b o (inl e) j =
    let later : In b xs = In-drop n b xs j in
    rw e (All-In (λ r. updated_first x r ≡ true) b xs o.0 later)
early_before_late (suc n) (x ∷ xs) a b o (inr i) j = early_before_late n xs a b o.1 i j
early_before_late (suc n) [] a b o i j = absurd i

-- A named identifier is that of a selected row.
named_row :
    (id : Text) (rows : List JobRow)
    → is_among (map (λ (row : JobRow). row.job_id) rows) id ≡ true
    → (row : JobRow) × In row rows × (row.job_id ≡ id)
named_row id [] h = cc
named_row id (x ∷ xs) h = elim (Bool-cases (text_eq id x.job_id)) [
  | inl same ↦ (x, inl refl, sym (text_eq→eq id x.job_id same))
  | inr differs ↦ let (row, i, e) = named_row id xs (ground arith) in (row, inr i, e)
]

named_of_In :
    (row : JobRow) (rows : List JobRow)
    → In row rows
    → is_among (map (λ (r : JobRow). r.job_id) rows) row.job_id ≡ true
named_of_In row [] i = absurd i
named_of_In row (x ∷ xs) (inl e) = rw (← e) (ground (arith, text_eq_refl row.job_id))
named_of_In row (x ∷ xs) (inr i) = ground (arith, named_of_In row xs i)

-- Where identifiers do not repeat, each evicted row was updated before each evictable row that
-- stays, or at the same time with the smaller identifier.
pub victims_oldest :
    (protected : Option Text) (excess : ℕ) (jobs : List JobRow) (gone kept : JobRow)
    → ((id : Text) → count (has_id id) jobs ≤ 1)
    → In gone jobs
    → In kept jobs
    → is_evictable protected kept ≡ true
    → is_among (victims protected excess jobs) gone.job_id ≡ true
    → is_among (victims protected excess jobs) kept.job_id ≡ false
    → updated_first gone kept ≡ true
unfolding victims
victims_oldest protected excess jobs gone kept u i j evictable named spared =
    let rows = order_by updated_first (filter (is_evictable protected) jobs) in
    let ordered =
      order_by-IsOrdered updated_first updated_first_total updated_first_trans
        (filter (is_evictable protected) jobs) in
    let (other, early, same) = named_row gone.job_id (take excess rows) named in
    let there : In other jobs = In-filter_inv (is_evictable protected) other jobs (
      In-order_by_inv updated_first other (filter (is_evictable protected) jobs)
        (In-take excess other rows early)) in
    let e : other ≡ gone =
      In-unique (has_id gone.job_id) other gone jobs there i (rw same (text_eq_refl gone.job_id))
        (text_eq_refl gone.job_id) (u gone.job_id) in
    let late : In kept rows =
      In-order_by updated_first kept (filter (is_evictable protected) jobs)
        (In-filter (is_evictable protected) kept jobs j evictable) in
    elim (In-take_or_drop excess kept rows late) [
      | inl taken ↦ cc (named_of_In kept (take excess rows) taken, spared)
      | inr dropped ↦ rw (← e) (early_before_late excess rows other kept ordered early dropped)
    ]
