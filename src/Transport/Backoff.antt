-- ===== src/Transport/Backoff.antt =====
-- crates/oppa-transport/src/lib.rs: reconnecting with a bounded number of attempts. The delays are
-- computed on floating-point numbers from random samples, so the computed delay of an attempt is an
-- argument.
use oppa.Common.{
  ℕ, ◌+◌, ◌-◌, ◌^◌, Bool, true, false, Option, none, some, List, [], ◌∷◌, Result, ok, err, leb, min,
  if◌then◌else◌,
}
use oppa.Transport.{
  TransportError, cancelled, is_retryable, TransportConfig, backing_off, disconnected,
}
use oppa.Transport.Session.{
  Dial, Gateway, WebSocketTransport, Awaited, waiting, ready, set_state, connect,
}

-- The policy's attempt limit and the counter.
pub record ReconnectBackoff : Type 0 where
  pub maximum_attempts : Option ℕ
  pub attempts : ℕ

abbrev pub u32_max : ℕ
u32_max = 2 ^ 32 - 1

abbrev pub is_exhausted : Option ℕ → ℕ → Bool
is_exhausted none attempts = false
is_exhausted (some maximum) attempts = leb maximum attempts

abbrev pub reset : ReconnectBackoff → ReconnectBackoff
reset backoff = record backoff { attempts = 0 }

abbrev pub attempted : ℕ → Result TransportError ℕ → Result TransportError (Option (ℕ × ℕ))
attempted attempt (ok delay) = ok (some (attempt, delay))
attempted attempt (err e) = err e

-- `next_delay`, with `delay_for` of the policy
unfoldable pub next_delay :
    (ℕ → Result TransportError ℕ)
    → ReconnectBackoff
    → Result TransportError (Option (ℕ × ℕ)) × ReconnectBackoff
next_delay delay_for backoff =
    let attempt = min (backoff.attempts + 1) u32_max in
    if is_exhausted backoff.maximum_attempts backoff.attempts
    then (ok none, backoff)
    else (attempted attempt (delay_for attempt), record backoff { attempts = attempt })

-- What the answer of `next_delay` means after a retryable error: an error to return, or a delay.
abbrev pub verdict :
    TransportError → Result TransportError (Option (ℕ × ℕ)) → Result TransportError (ℕ × ℕ)
verdict last_error (err e) = err e
verdict last_error (ok none) = err last_error
verdict last_error (ok (some attempt_and_delay)) = ok attempt_and_delay

-- After a failed dial: an error to return, or the wait before the next dial.
unfoldable pub after_failure :
    (ℕ → Result TransportError ℕ)
    → TransportError
    → ReconnectBackoff
    → Result TransportError (ℕ × ℕ) × ReconnectBackoff
after_failure delay_for last_error backoff =
    let (answer, counted) = next_delay delay_for backoff in
    if is_retryable last_error
    then (verdict last_error answer, counted)
    else (err last_error, backoff)

module _ {Message ServerMessage : Type 0} (gateway : Gateway Message ServerMessage)
    (config : TransportConfig) (delay_for : ℕ → Result TransportError ℕ) where
  -- `connect_with_backoff` on the dials' outcomes and whether the wait after each was cancelled.
  unfoldable pub connect_with_backoff :
      List (Dial × Bool)
      → WebSocketTransport Message
      → ReconnectBackoff
      → Awaited (Unit {0}) × (WebSocketTransport Message × ReconnectBackoff)
  unfolding after_failure
  connect_with_backoff [] t backoff = (waiting, (t, backoff))
  connect_with_backoff ((dial, stop) ∷ later) t backoff =
      let (answer, t') = connect gateway config dial t in
      elim answer [
        | ok _ ↦ (ready (ok tt), (t', reset backoff))
        | err e ↦
            let (next, counted) = after_failure delay_for e backoff in
            elim next [
              | err last ↦ (ready (err last), (t', counted))
              | ok (attempt, delay) ↦
                  let resting = set_state (backing_off attempt delay) t' in
                  elim stop [
                    | true ↦ (ready (err cancelled), (set_state disconnected resting, counted))
                    | false ↦ connect_with_backoff later resting counted
                  ]
            ]
      ]
