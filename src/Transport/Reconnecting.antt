-- ===== src/Transport/Reconnecting.antt =====
-- crates/oppa-transport/src/lib.rs: the states that connect_with_backoff goes through.
use oppa.Common.{
  ℕ, ◌≡◌, refl, Bool, true, false, List, [], ◌∷◌, Result, ok, err, arith, is_some, Bool-cases,
  Result-cases, inl, inr,
}
use oppa.Transport.{
  TransportError, TransportConfig, ConnectionState, backing_off, disconnected, is_connected,
  is_retryable, already_connected, invalid_configuration, connecting,
}
use oppa.Transport.Session.{
  Dial, timed_out, refused, opened, Gateway, WebSocketTransport, set_state, dialed, connect,
}
use oppa.Transport.Backoff.{ReconnectBackoff, after_failure, connect_with_backoff}
use oppa.Transport.Order.{IsSession, connect-IsSession}

after_failure-retries :
    (delay_for : ℕ → Result TransportError ℕ) (e : TransportError) (b : ReconnectBackoff)
    (wait : ℕ × ℕ)
    → (after_failure delay_for e b).0 ≡ ok wait
    → is_retryable e ≡ true
unfolding after_failure
after_failure-retries delay_for e b wait h = elim (Bool-cases (is_retryable e)) [
  | inl again ↦ again
  | inr final ↦ absurd (ground (arith, h, final))
]

module _ {Message ServerMessage : Type 0} (gateway : Gateway Message ServerMessage)
    (config : TransportConfig) where
  dialed-absent :
      (dial : Dial) (t : WebSocketTransport Message) (e : TransportError)
      → is_some t.socket ≡ false
      → (dialed config dial (set_state connecting t)).0 ≡ err e
      → is_some (dialed config dial (set_state connecting t)).1.socket ≡ false
  unfolding dialed
  dialed-absent timed_out t e absent h = absent
  dialed-absent refused t e absent h = absent
  dialed-absent opened t e absent h = cc

  -- A dial that may be tried again has left no socket.
  connect-absent :
      (dial : Dial) (t : WebSocketTransport Message) (e : TransportError)
      → (connect gateway config dial t).0 ≡ err e
      → is_retryable e ≡ true
      → is_some (connect gateway config dial t).1.socket ≡ false
  unfolding connect is_retryable
  connect-absent dial t e h again = elim (Bool-cases (is_some t.socket)) [
    | inl present ↦
        let same : e ≡ already_connected = ground (arith, h, present) in
        absurd (ground (arith, again, same))
    | inr absent ↦ elim (Bool-cases (gateway.into_client_request config.endpoint)) [
      | inr bad ↦
          let same : e ≡ invalid_configuration = ground (arith, h, absent, bad) in
          absurd (ground (arith, again, same))
      | inl fine ↦
          rw (absent, fine) (dialed-absent dial t e absent (rw (connect, absent, fine) at h))
    ]
  ]

  -- What a dial keeps, and a change to a state without a socket, reconnecting keeps.
  pub connect_with_backoff-keeps :
      (P : WebSocketTransport Message → Type 0)
      → ((dial : Dial) (t : WebSocketTransport Message) → P t → P (connect gateway config dial t).1)
      → ((state : ConnectionState) (t : WebSocketTransport Message)
          → is_connected state ≡ false
          → is_some t.socket ≡ false
          → P t
          → P (set_state state t))
      → (delay_for : ℕ → Result TransportError ℕ) (script : List (Dial × Bool))
        (t : WebSocketTransport Message) (b : ReconnectBackoff)
      → P t
      → P (connect_with_backoff gateway config delay_for script t b).1.0
  unfolding connect_with_backoff
  connect_with_backoff-keeps P dialing resting delay_for [] t b p = p
  connect_with_backoff-keeps P dialing resting delay_for ((dial, stop) ∷ later) t b p =
      let t' = (connect gateway config dial t).1 in
      let p' : P t' = dialing dial t p in
      elim (Result-cases (connect gateway config dial t).0) [
        | inl (_, done) ↦ rw (connect_with_backoff, done) p'
        | inr (e, failed) ↦ elim (Result-cases (after_failure delay_for e b).0) [
          | inr (last, over) ↦ rw (connect_with_backoff, failed, over) p'
          | inl (wait, next) ↦
              let absent : is_some t'.socket ≡ false =
                connect-absent dial t e failed (after_failure-retries delay_for e b wait next) in
              let waits : P (set_state (backing_off wait.0 wait.1) t') =
                resting (backing_off wait.0 wait.1) t' refl absent p' in
              elim (Bool-cases stop) [
                | inl stopped ↦
                    rw (connect_with_backoff, failed, next, stopped)
                      (resting disconnected (set_state (backing_off wait.0 wait.1) t') refl absent
                        waits)
                | inr further ↦
                    rw (connect_with_backoff, failed, next, further)
                      (connect_with_backoff-keeps P dialing resting delay_for later
                        (set_state (backing_off wait.0 wait.1) t') (after_failure delay_for e b).1
                        waits)
              ]
        ]
      ]

  pub resting-IsSession :
      (state : ConnectionState) (t : WebSocketTransport Message)
      → is_connected state ≡ false
      → is_some t.socket ≡ false
      → IsSession gateway config t
      → IsSession gateway config (set_state state t)
  resting-IsSession state t off absent s = record {
    state_fits = rw (off, absent) refl;
    watched = refl;
    flags = s.flags;
    bounded = s.bounded;
    no_hello_waits = s.no_hello_waits;
  }

  pub connect_with_backoff-IsSession :
      (delay_for : ℕ → Result TransportError ℕ) (script : List (Dial × Bool))
      (t : WebSocketTransport Message) (b : ReconnectBackoff)
      → IsSession gateway config t
      → IsSession gateway config (connect_with_backoff gateway config delay_for script t b).1.0
  connect_with_backoff-IsSession =
      connect_with_backoff-keeps (IsSession gateway config)
        (λ dial t s. connect-IsSession gateway config dial t s) resting-IsSession
