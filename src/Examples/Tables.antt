-- ===== src/Examples/Tables.antt =====
-- Runs of the repository from an empty database, and the retention of finished jobs.
use oppa.Common.{◌≡◌, ◌≤◌, refl, true, some, none, List, [], ◌∷◌, arith, inl, inr}
use oppa.Common.Text.{Text, text}
use oppa.Common.Counting.{count}
use oppa.Common.Sorting.{order_by}
use oppa.Storage.Schema.{row_is_terminal, has_id}
use oppa.Storage.Retention.{victims, enforce_terminal_retention, updated_first}
use oppa.Storage.Retention.Order.{victims_oldest}
use oppa.Storage.Retention.Bounds.{retention_bound}
use oppa.Storage.Operations.{
  Operation, receive, claim, submit_reported, perform_all, empty_database,
}
use oppa.Storage.Invariant.{IsConsistent}
use oppa.Storage.Consistency.Running.{runs-IsConsistent}
use oppa.Examples.{
  text_codec, limits, any_time, job_1, receipt_1, report_1, printed_0, printed_1, tables,
}

abbrev day : List (Operation Text)
day =
    receive job_1
    ∷ claim (some 6) (text "job_1")
    ∷ submit_reported (some 7) (text "job_1") receipt_1 report_1
    ∷ []

runs-IsConsistent_example : IsConsistent limits (perform_all limits any_time day empty_database)
runs-IsConsistent_example = runs-IsConsistent limits any_time (omega arith) day

unique_ids : (id : Text) → count (has_id id) (printed_0 ∷ printed_1 ∷ []) ≤ 1
unique_ids id = ground arith

victims_oldest_example : updated_first printed_0 printed_1 ≡ true
unfolding victims order_by
victims_oldest_example =
    victims_oldest none 1 (printed_0 ∷ printed_1 ∷ []) printed_0 printed_1 unique_ids (inl refl)
      (inr (inl refl)) refl refl refl

retention_bound_example :
    count row_is_terminal
      (enforce_terminal_retention 1 none (tables (printed_0 ∷ printed_1 ∷ []) [])).1.jobs
    ≤ 1
retention_bound_example =
    retention_bound 1 none (tables (printed_0 ∷ printed_1 ∷ []) []) unique_ids (omega arith)
