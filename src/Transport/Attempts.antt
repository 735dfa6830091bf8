-- ===== src/Transport/Attempts.antt =====
-- Reconnecting ends within the policy's attempts.
use oppa.Common.{
  ℕ, ◌+◌, ◌≡◌, ◌≤◌, ◌<◌, refl, Bool, true, false, some, List, [], ◌∷◌, Result, ok, arith, leb,
  length, Bool-cases, Result-cases, inl, inr,
}
use oppa.Transport.{TransportError, TransportConfig, is_retryable, backing_off}
use oppa.Transport.Session.{
  Dial, Gateway, WebSocketTransport, Awaited, waiting, ready, set_state, connect,
}
use oppa.Transport.Backoff.{
  ReconnectBackoff, u32_max, next_delay, after_failure, connect_with_backoff,
}

abbrev pub is_waiting {ℓ} : {A : Type ℓ} → Awaited A → Bool
is_waiting waiting = true
is_waiting (ready _) = false

-- A wait for another dial has counted one attempt more, and the limit was not reached.
counted_attempt :
    (delay_for : ℕ → Result TransportError ℕ) (n : ℕ) (e : TransportError) (b : ReconnectBackoff)
    (wait : ℕ × ℕ)
    → b.maximum_attempts ≡ some n
    → n ≤ u32_max
    → (after_failure delay_for e b).0 ≡ ok wait
    → ((after_failure delay_for e b).1.attempts ≡ b.attempts + 1)
      × (b.attempts < n)
      × ((after_failure delay_for e b).1.maximum_attempts ≡ some n)
unfolding after_failure next_delay
counted_attempt delay_for n e b wait limit fits h = elim (Bool-cases (is_retryable e)) [
  | inr final ↦ absurd (ground (arith, h, final))
  | inl again ↦ elim (Bool-cases (leb n b.attempts)) [
    | inl spent ↦ absurd (ground (arith, h, again, limit, spent))
    | inr left ↦ (
      ground (arith, again, limit, left, fits),
      ground (arith, left),
      ground (arith, again, limit, left),
    )
  ]
]

module _ {Message ServerMessage : Type 0} (gateway : Gateway Message ServerMessage)
    (config : TransportConfig) (delay_for : ℕ → Result TransportError ℕ) where
  -- A policy of at most n attempts settles within the dials that are left of n + 1: it connects,
  -- is cancelled, or gives an error, whatever the network answers.
  pub connect_with_backoff_settles :
      (n : ℕ) (script : List (Dial × Bool)) (t : WebSocketTransport Message) (b : ReconnectBackoff)
      → b.maximum_attempts ≡ some n
      → n ≤ u32_max
      → b.attempts ≤ n
      → n < b.attempts + length script
      → is_waiting (connect_with_backoff gateway config delay_for script t b).0 ≡ false
  unfolding connect_with_backoff
  connect_with_backoff_settles n [] t b limit fits below enough = absurd (omega arith)
  connect_with_backoff_settles n ((dial, stop) ∷ later) t b limit fits below enough =
      elim (Result-cases (connect gateway config dial t).0) [
        | inl (_, done) ↦ rw (connect_with_backoff, done) refl
        | inr (e, failed) ↦ elim (Result-cases (after_failure delay_for e b).0) [
          | inr (last, over) ↦ rw (connect_with_backoff, failed, over) refl
          | inl (wait, next) ↦
              let (one_more, left, same) = counted_attempt delay_for n e b wait limit fits next in
              elim (Bool-cases stop) [
                | inl stopped ↦ rw (connect_with_backoff, failed, next, stopped) refl
                | inr further ↦
                    rw (connect_with_backoff, failed, next, further)
                      (connect_with_backoff_settles n later
                        (set_state (backing_off wait.0 wait.1) (connect gateway config dial t).1)
                        (after_failure delay_for e b).1 same fits (omega (arith, one_more))
                        (omega (arith, one_more)))
              ]
        ]
      ]
