-- ===== src/Agent/Lifecycle/Snapshots.antt =====
-- What a host sees: the watch channel holds the snapshot, and its errors are sanitized.
use oppa.Common.{ℕ, ◌≡◌, ◌≤◌, refl, List, [], ◌∷◌, ◌==◌, length, All, Bool-cases, inl, inr}
use oppa.Common.Text.{Text}
use oppa.Agent.Sanitize.{max_active_errors}
use oppa.Agent.Sanitize.Controls.{IsShown, sanitize_active_errors_bounds}
use oppa.Agent.Lifecycle.Paths.{requested, requested_lem}
use oppa.Agent.Lifecycle.{
  AgentState, AgentSnapshot, AgentEvent, AgentHandle, can_transition, new, set_pending_jobs,
  set_active_errors, publish_job_event,
}

-- Watchers see the snapshot, and its errors are few, short and printable.
pub record IsPublished (handle : AgentHandle) : Type 0 where
  pub watched_snapshot : handle.watched ≡ handle.snapshot
  pub few_errors : length handle.snapshot.active_errors ≤ max_active_errors
  pub shown_errors : All IsShown handle.snapshot.active_errors

pub data HandleCall : Type 0 where
  request : AgentState → HandleCall
  count_pending : ℕ → HandleCall
  report_errors : List Text → HandleCall
  publish : AgentEvent → HandleCall

abbrev pub call : HandleCall → AgentHandle → AgentHandle
call (request next) handle = requested handle next
call (count_pending n) handle = set_pending_jobs handle n
call (report_errors errors) handle = set_active_errors handle errors
call (publish event) handle = publish_job_event handle event

pub call_all : List HandleCall → AgentHandle → AgentHandle
call_all [] handle = handle
call_all (c ∷ cs) handle = call_all cs (call c handle)

call-IsPublished :
    (c : HandleCall) (handle : AgentHandle) → IsPublished handle → IsPublished (call c handle)
unfolding set_pending_jobs set_active_errors publish_job_event
call-IsPublished (request next) handle p =
    elim (Bool-cases (can_transition handle.snapshot.state next)) [
      | inl accepted ↦
          rw (requested_lem handle next, accepted)
            (record {
              watched_snapshot = refl;
              few_errors = p.few_errors;
              shown_errors = p.shown_errors;
            })
      | inr refused ↦ rw (requested_lem handle next, refused) p
    ]
call-IsPublished (count_pending n) handle p =
    elim (Bool-cases (handle.snapshot.pending_jobs == n)) [
      | inl same ↦ rw same p
      | inr other ↦ rw other (record {
        watched_snapshot = refl;
        few_errors = p.few_errors;
        shown_errors = p.shown_errors;
      })
    ]
call-IsPublished (report_errors errors) handle p = record {
  watched_snapshot = refl;
  few_errors = (sanitize_active_errors_bounds errors).0;
  shown_errors = (sanitize_active_errors_bounds errors).1;
}
call-IsPublished (publish event) handle p = record {
  watched_snapshot = p.watched_snapshot;
  few_errors = p.few_errors;
  shown_errors = p.shown_errors;
}

call_all-IsPublished :
    (calls : List HandleCall) (handle : AgentHandle)
    → IsPublished handle
    → IsPublished (call_all calls handle)
unfolding call_all
call_all-IsPublished [] handle p = p
call_all-IsPublished (c ∷ cs) handle p =
    call_all-IsPublished cs (call c handle) (call-IsPublished c handle p)

-- After any calls on a new handle the watch channel holds the snapshot, and the snapshot's errors
-- are at most 32, each at most 1000 bytes, not empty and without control characters.
pub calls-IsPublished :
    (initial : AgentSnapshot) (calls : List HandleCall) → IsPublished (call_all calls (new initial))
unfolding new
calls-IsPublished initial calls = call_all-IsPublished calls (new initial) (record {
  watched_snapshot = refl;
  few_errors = (sanitize_active_errors_bounds initial.active_errors).0;
  shown_errors = (sanitize_active_errors_bounds initial.active_errors).1;
})
