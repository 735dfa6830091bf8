-- ===== src/Agent/Lifecycle.antt =====
-- crates/oppa-agent/src/lib.rs: the agent's lifecycle states, its snapshot and its event channels.
-- A method takes the write lock for its whole body, so calls happen one after another.
pub mod Paths
pub mod Snapshots
use oppa.Common.{
  ℕ, Bool, true, false, ◌||◌, List, [], ◌∷◌, ◌++◌, Result, ok, err, ◌==◌, if◌then◌else◌,
}
use oppa.Common.Text.{Text}
use oppa.Core.{JobState}
use oppa.Agent.Sanitize.{sanitize_active_errors}

pub data AgentState : Type 0 where
  unconfigured pairing disconnected connecting connected degraded shutting_down : AgentState

abbrev pub agent_state_eq : AgentState → AgentState → Bool
agent_state_eq unconfigured unconfigured = true
agent_state_eq pairing pairing = true
agent_state_eq disconnected disconnected = true
agent_state_eq connecting connecting = true
agent_state_eq connected connected = true
agent_state_eq degraded degraded = true
agent_state_eq shutting_down shutting_down = true
agent_state_eq _ _ = false

pub record AgentSnapshot : Type 0 where
  pub state : AgentState
  pub pending_jobs : ℕ
  pub active_errors : List Text

-- `AgentSnapshot::default`
abbrev pub default_snapshot : AgentSnapshot
default_snapshot = record { state = unconfigured; pending_jobs = 0; active_errors = [] }

pub data AgentEvent : Type 0 where
  pending_jobs_changed : (pending_jobs : ℕ) → AgentEvent
  job_received : (job_id : Text) → AgentEvent
  duplicate_job : (job_id : Text) (state : JobState) → AgentEvent
  duplicate_idempotency : (job_id existing_job_id : Text) (state : JobState) → AgentEvent
  job_submitting : (job_id : Text) → AgentEvent
  job_submitted : (job_id : Text) → AgentEvent
  job_failed : (job_id code : Text) (retryable : Bool) → AgentEvent
  cancellation_requested : (job_id : Text) → AgentEvent
  job_cancelled : (job_id : Text) → AgentEvent
  recovery_completed : (recovered_submissions pending_jobs : ℕ) → AgentEvent

pub data AgentError : Type 0 where
  invalid_transition : (from to : AgentState) → AgentError

-- `AgentHandle`: the snapshot, the value in the watch channel, and all that was sent to the
-- broadcast channel, newest first.
pub record AgentHandle : Type 0 where
  pub snapshot : AgentSnapshot
  pub watched : AgentSnapshot
  pub job_events : List AgentEvent

-- The `matches!` of `can_transition`.
abbrev pub is_edge : AgentState → AgentState → Bool
is_edge unconfigured pairing = true
is_edge pairing unconfigured = true
is_edge pairing disconnected = true
is_edge disconnected connecting = true
is_edge connecting connected = true
is_edge degraded connected = true
is_edge connecting disconnected = true
is_edge connected disconnected = true
is_edge degraded disconnected = true
is_edge disconnected unconfigured = true
is_edge connecting unconfigured = true
is_edge connected unconfigured = true
is_edge degraded unconfigured = true
is_edge connected degraded = true
is_edge _ _ = false

unfoldable pub can_transition : AgentState → AgentState → Bool
can_transition from to =
    agent_state_eq from to || agent_state_eq to shutting_down || is_edge from to

-- `AgentHandle::new`
unfoldable pub new : AgentSnapshot → AgentHandle
new initial =
    let sanitized = record initial {
      active_errors = sanitize_active_errors initial.active_errors;
    } in
    record { snapshot = sanitized; watched = sanitized; job_events = [] }

unfoldable pub transition : AgentHandle → AgentState → Result AgentError AgentHandle
unfolding can_transition
transition handle next =
    if can_transition handle.snapshot.state next
    then (let moved = record handle.snapshot { state = next } in
        ok (record handle { snapshot = moved; watched = moved }))
    else err (invalid_transition handle.snapshot.state next)

unfoldable pub set_pending_jobs : AgentHandle → ℕ → AgentHandle
set_pending_jobs handle pending_jobs =
    let moved = record handle.snapshot { pending_jobs = pending_jobs } in
    if handle.snapshot.pending_jobs == pending_jobs then handle else record {
      snapshot = moved;
      watched = moved;
      job_events = pending_jobs_changed pending_jobs ∷ handle.job_events;
    }

unfoldable pub set_active_errors : AgentHandle → List Text → AgentHandle
set_active_errors handle active_errors =
    let moved = record handle.snapshot { active_errors = sanitize_active_errors active_errors } in
    record handle { snapshot = moved; watched = moved }

unfoldable pub publish_job_event : AgentHandle → AgentEvent → AgentHandle
publish_job_event handle event = record handle { job_events = event ∷ handle.job_events }
