-- ===== src/Examples/Sessions.antt =====
-- The agent's states, its diagnostics, and the negotiation of a session.
use oppa.Common.{
  ◌+◌, ◌≡◌, ◌≤◌, ◌<◌, ◌⊎◌, refl, true, false, none, ◌&&◌, List, [], ◌∷◌, ◌++◌, arith, inl, length,
  All,
}
use oppa.Common.Everywhere.{In}
use oppa.Common.Text.{Text, text, byte_len}
use oppa.Agent.Sanitize.{truncate_utf8, sanitize_active_errors, sanitize_message, max_active_errors}
use oppa.Agent.Sanitize.Bounds.{truncate_utf8_bounds}
use oppa.Agent.Sanitize.Controls.{IsShown, sanitize_active_errors_bounds, sanitize_message-IsShown}
use oppa.Agent.Lifecycle.{
  pairing, disconnected, connecting, connected, shutting_down, AgentState, AgentHandle,
  default_snapshot, new, can_transition, transition,
}
use oppa.Agent.Lifecycle.Paths.{
  requested, request_all, connected_needs_pairing, shutting_down_absorbs,
}
use oppa.Agent.Lifecycle.Snapshots.{
  IsPublished, request, report_errors, call_all, calls-IsPublished,
}
use oppa.Protocol.Negotiation
use oppa.Protocol.Negotiation.{
  v1, v2, legacy_retry_interval_ms, u64_max, select_protocol_version, on_closed_before_hello,
  on_accepted, kept, is_current, contains,
}
use oppa.Protocol.Negotiation.Offers.{
  close_times, one_fallback, fallback_remembered, extended_forgets, select_protocol_version_best,
  select_protocol_version-none,
}

abbrev fresh : AgentHandle
fresh = record { snapshot = default_snapshot; watched = default_snapshot; job_events = [] }

abbrev steps : List AgentState
steps = pairing ∷ connected ∷ disconnected ∷ connecting ∷ connected ∷ []

connected_needs_pairing_example : In pairing steps × In disconnected steps × In connecting steps
unfolding request_all requested transition can_transition
connected_needs_pairing_example = connected_needs_pairing steps fresh refl (inl refl)

shutting_down_absorbs_example :
    (request_all (shutting_down ∷ pairing ∷ []) fresh).snapshot.state ≡ shutting_down
shutting_down_absorbs_example = shutting_down_absorbs fresh (pairing ∷ [])

calls-IsPublished_example :
    IsPublished
      (call_all (request pairing ∷ report_errors (text "offline" ∷ []) ∷ []) (new default_snapshot))
calls-IsPublished_example =
    calls-IsPublished default_snapshot (request pairing ∷ report_errors (text "offline" ∷ []) ∷ [])

truncate_utf8_bounds_example :
    (byte_len (truncate_utf8 (text "héllo") 2) ≤ 2)
    × (rest : Text) × (text "héllo" ≡ truncate_utf8 (text "héllo") 2 ++ rest)
    × ((rest ≡ []) ⊎ (2 < byte_len (truncate_utf8 (text "héllo") 2) + 4))
truncate_utf8_bounds_example = truncate_utf8_bounds (text "héllo") 2

sanitize_active_errors_bounds_example :
    (length (sanitize_active_errors (text " offline\n" ∷ [] ∷ [])) ≤ max_active_errors)
    × All IsShown (sanitize_active_errors (text " offline\n" ∷ [] ∷ []))
sanitize_active_errors_bounds_example = sanitize_active_errors_bounds (text " offline\n" ∷ [] ∷ [])

sanitize_message-IsShown_example : IsShown (sanitize_message (text "\n"))
sanitize_message-IsShown_example = sanitize_message-IsShown (text "\n")

select_protocol_version_best_example :
    (contains (v1 ∷ []) v1 ≡ true)
    × (contains (v2 ∷ v1 ∷ []) v1 ≡ true)
    × ((v1 ≡ v2) ⊎ ((contains (v1 ∷ []) v2 && contains (v2 ∷ v1 ∷ []) v2) ≡ false))
unfolding select_protocol_version
select_protocol_version_best_example = select_protocol_version_best (v1 ∷ []) (v2 ∷ v1 ∷ []) v1 refl

select_protocol_version-none_example : (contains (v2 ∷ []) v2 && contains (v1 ∷ []) v2) ≡ false
unfolding select_protocol_version
select_protocol_version-none_example = select_protocol_version-none (v2 ∷ []) (v1 ∷ []) v2 refl

one_fallback_example :
    ((close_times 2 (Negotiation.new none 10)).1 ≡ 1)
    × ((close_times 2 (Negotiation.new none 10)).0.offered ≡ v1 ∷ [])
one_fallback_example = one_fallback none 10 1

fallback_remembered_example :
    (Negotiation.new
      (kept none (on_accepted (close_times 1 (Negotiation.new none 10)).0 v1 10))
      11).offered
    ≡ v1 ∷ []
fallback_remembered_example = fallback_remembered none 10 11 refl (omega arith)

extended_forgets_example :
    kept none (on_accepted (close_times 1 (Negotiation.new none 10)).0 v2 10) ≡ none
extended_forgets_example = extended_forgets none 10 1
