-- ===== src/Transport/Arrivals.antt =====
-- What arrives on the socket keeps a session in order.
use oppa.Common.{
  ◌≡◌, refl, Bool, true, false, not, ◌||◌, List, [], ◌∷◌, Result, ok, err, arith, Option, none,
  some, Bool-cases, Option-cases, Result-cases, is_some, sym, ◌∙◌, inl, inr,
}
use oppa.Common.Text.{Text}
use oppa.Transport.{TransportError, TransportConfig, is_connected}
use oppa.Transport.Session.{
  Frame, Arrival, GatewayAuthenticationServerMessage, Gateway, WebSocketTransport, Awaited, waiting,
  ready, pong, idle, ended, failed, binary, pong_frame, raw_frame, text_frame, ping, close_frame,
  send_frame,
}
use oppa.Transport.Receive.{
  next_text, receive_text_frame, authenticated_by, authenticate, authentication_arrived,
  receive_authentication, may_receive, decoded, receive,
}
use oppa.Transport.Order.{flags_fit, IsSession, send_frame-eq-ok, disconnect-IsSession}
use oppa.Transport.Calls.{next_text-IsSession}

module _ {Message ServerMessage : Type 0} (gateway : Gateway Message ServerMessage)
    (config : TransportConfig) where
  abbrev Session : WebSocketTransport Message → Type 0
  Session t = IsSession gateway config t

  text-IsSession :
      (arrivals : List Arrival) (t : WebSocketTransport Message)
      → Session t
      → Session (receive_text_frame gateway config arrivals t).1
  unfolding receive_text_frame
  text-IsSession arrivals t s = elim (Option-cases t.socket) [
    | inl absent ↦ rw (receive_text_frame, absent) s
    | inr (frames, present) ↦
        rw (receive_text_frame, present) (next_text-IsSession gateway config arrivals t s)
  ]

  decoded-IsSession :
      (r : Awaited Text × WebSocketTransport Message) → Session r.1 → Session (decoded gateway r).1
  decoded-IsSession (waiting, t) s = s
  decoded-IsSession (ready (err e), t) s = s
  decoded-IsSession (ready (ok encoded), t) s =
      elim (Option-cases (gateway.decode_server encoded)) [
        | inl wrong ↦
            rw (decoded, wrong) (disconnect-IsSession gateway config t s.bounded s.no_hello_waits)
        | inr (message, right) ↦ rw (decoded, right) s
      ]

  pub receive-IsSession :
      (arrivals : List Arrival) (t : WebSocketTransport Message)
      → Session t
      → Session (receive gateway config arrivals t).1
  unfolding receive
  receive-IsSession arrivals t s = elim (Result-cases (may_receive gateway t)) [
    | inr (e, refused) ↦ rw (receive, refused) s
    | inl (_, may) ↦
        rw (receive, may)
          (decoded-IsSession (receive_text_frame gateway config arrivals t)
            (text-IsSession arrivals t s))
  ]

  -- A text leaves the connection and the flags as they were.
  next_text-eq-ok :
      (arrivals : List Arrival) (t : WebSocketTransport Message) (encoded : Text)
      → (next_text gateway config arrivals t).0 ≡ ready (ok encoded)
      → ((next_text gateway config arrivals t).1.state ≡ t.state)
        × ((next_text gateway config arrivals t).1.hello_sent ≡ t.hello_sent)
  unfolding next_text
  next_text-eq-ok [] t encoded h = cc
  next_text-eq-ok (idle ∷ later) t encoded h = cc
  next_text-eq-ok (ended ∷ later) t encoded h = cc
  next_text-eq-ok (failed ∷ later) t encoded h = cc
  next_text-eq-ok (text_frame payload ∷ later) t encoded h = (refl, refl)
  next_text-eq-ok (binary ∷ later) t encoded h = cc
  next_text-eq-ok (ping payload ∷ later) t encoded h =
      elim (Result-cases (send_frame gateway (pong payload) t)) [
        | inr (e, broke) ↦ absurd (ground (arith, h, broke))
        | inl (answered, went) ↦
            let (frames, present, e) = send_frame-eq-ok gateway (pong payload) t answered went in
            let (x, y) = next_text-eq-ok later answered encoded (rw (next_text, went) at h) in
            rw (next_text, went) (x ∙ rw e refl, y ∙ rw e refl)
      ]
  next_text-eq-ok (pong_frame ∷ later) t encoded h = next_text-eq-ok later t encoded h
  next_text-eq-ok (close_frame reason ∷ later) t encoded h = cc
  next_text-eq-ok (raw_frame ∷ later) t encoded h = next_text-eq-ok later t encoded h

  accepted_flags :
      (socket : Option (List (Frame Message))) (authenticated acceptance : Bool)
      → is_some socket ≡ true
      → flags_fit gateway socket authenticated false ≡ true
      → flags_fit gateway socket (authenticated || acceptance) false ≡ true
  accepted_flags none a b h k = cc
  accepted_flags (some frames) true b h k = k
  accepted_flags (some frames) false true h k = k
  accepted_flags (some frames) false false h k = k

  accepting-IsSession :
      (acceptance : Bool) (t : WebSocketTransport Message)
      → t.hello_sent ≡ false
      → is_connected t.state ≡ true
      → Session t
      → Session (record t { authenticated = t.authenticated || acceptance })
  accepting-IsSession acceptance t before live s = record {
    state_fits = s.state_fits;
    watched = s.watched;
    flags = rw before (
        accepted_flags t.socket t.authenticated acceptance (sym s.state_fits ∙ live)
          (rw before at s.flags));
    bounded = s.bounded;
    no_hello_waits = s.no_hello_waits;
  }

  authenticate-IsSession :
      (r : Result TransportError (GatewayAuthenticationServerMessage × Bool))
      (t : WebSocketTransport Message)
      → is_connected t.state ≡ true
      → t.hello_sent ≡ false
      → Session t
      → Session (authenticate gateway r t).1
  authenticate-IsSession (err e) t live before s = s
  authenticate-IsSession (ok (message, acceptance)) t live before s =
      accepting-IsSession acceptance t before live s

  arrived-IsSession :
      (r : Awaited Text × WebSocketTransport Message)
      → ((encoded : Text)
          → r.0 ≡ ready (ok encoded)
          → (is_connected r.1.state ≡ true) × (r.1.hello_sent ≡ false))
      → Session r.1
      → Session (authentication_arrived gateway r).1
  arrived-IsSession (waiting, t) h s = s
  arrived-IsSession (ready (err e), t) h s = s
  arrived-IsSession (ready (ok encoded), t) h s =
      let (live, before) = h encoded refl in
      authenticate-IsSession (authenticated_by gateway encoded) t live before s

  text-eq-ok :
      (arrivals : List Arrival) (t : WebSocketTransport Message) (encoded : Text)
      → (receive_text_frame gateway config arrivals t).0 ≡ ready (ok encoded)
      → ((receive_text_frame gateway config arrivals t).1.state ≡ t.state)
        × ((receive_text_frame gateway config arrivals t).1.hello_sent ≡ t.hello_sent)
  unfolding receive_text_frame
  text-eq-ok arrivals t encoded h = elim (Option-cases t.socket) [
    | inl absent ↦ rw (receive_text_frame, absent) (refl, refl)
    | inr (frames, present) ↦
        rw (receive_text_frame, present)
          (next_text-eq-ok arrivals t encoded (rw (receive_text_frame, present) at h))
  ]

  pub receive_authentication-IsSession :
      (arrivals : List Arrival) (t : WebSocketTransport Message)
      → Session t
      → Session (receive_authentication gateway config arrivals t).1
  unfolding receive_authentication
  receive_authentication-IsSession arrivals t s =
      elim (Bool-cases (not (is_connected t.state) || t.authenticated || t.hello_sent)) [
        | inl early ↦ rw (receive_authentication, early) s
        | inr expected ↦
            rw (receive_authentication, expected)
              (arrived-IsSession (receive_text_frame gateway config arrivals t)
                (λ encoded h.
                  let (same_state, same_hello) = text-eq-ok arrivals t encoded h in
                  (
                    rw same_state (ground (arith, expected)),
                    rw same_hello (ground (arith, expected)),
                  ))
                (text-IsSession arrivals t s))
      ]
