-- ===== src/Transport/Admission.antt =====
-- crates/oppa-transport/src/lib.rs: what the authenticated flag says of the messages that were
-- received.
use oppa.Common.{
  ◌≡◌, refl, Bool, true, false, not, ◌||◌, List, [], ◌∷◌, Result, ok, err, none, arith, is_some,
  Bool-cases, Option-cases, Result-cases, inl, inr,
}
use oppa.Common.Text.{Text}
use oppa.Transport.{TransportError, TransportConfig, connecting}
use oppa.Transport.Session.{
  Frame, pong, Arrival, idle, ended, failed, binary, pong_frame, raw_frame, text_frame, ping,
  close_frame, Dial, timed_out, refused, opened, Gateway, WebSocketTransport, Awaited, waiting,
  ready, set_state, disconnect, dialed, connect, send_frame, send_encoded, flush, flush_buffer,
  drop_on_error, may_send, deliver, send,
}
use oppa.Transport.Receive.{next_text, receive_text_frame, may_receive, decoded, receive}
use oppa.Transport.Order.{flags_fit, IsSession, send_frame-eq-ok, send_encoded-eq-ok}

module _ {Message ServerMessage : Type 0} (gateway : Gateway Message ServerMessage)
    (config : TransportConfig) where
  -- An authenticated transport has heard the acceptance.
  abbrev pub IsAdmitted : Bool → WebSocketTransport Message → Type 0
  IsAdmitted heard t = (not t.authenticated || heard) ≡ true

  pub absent_unauthenticated :
      (t : WebSocketTransport Message)
      → IsSession gateway config t
      → is_some t.socket ≡ false
      → t.authenticated ≡ false
  absent_unauthenticated t s absent = elim (Option-cases t.socket) [
    | inl none_open ↦
        let fits : flags_fit gateway none t.authenticated t.hello_sent ≡ true =
          rw none_open at s.flags in
        ground (arith, fits)
    | inr (frames, present) ↦ absurd (ground (arith, absent, present))
  ]

  module _ (heard : Bool) where
    disconnect-IsAdmitted : (t : WebSocketTransport Message) → IsAdmitted heard (disconnect t)
    unfolding disconnect
    disconnect-IsAdmitted t = refl

    dialed-IsAdmitted :
        (dial : Dial) (t : WebSocketTransport Message)
        → t.authenticated ≡ false
        → IsAdmitted heard (dialed config dial (set_state connecting t)).1
    unfolding dialed
    dialed-IsAdmitted timed_out t h = rw h refl
    dialed-IsAdmitted refused t h = rw h refl
    dialed-IsAdmitted opened t h = refl

    pub connect-IsAdmitted :
        (dial : Dial) (t : WebSocketTransport Message)
        → IsSession gateway config t
        → IsAdmitted heard t
        → IsAdmitted heard (connect gateway config dial t).1
    unfolding connect
    connect-IsAdmitted dial t s a = elim (Bool-cases (is_some t.socket)) [
      | inl present ↦ rw present a
      | inr absent ↦ elim (Bool-cases (gateway.into_client_request config.endpoint)) [
        | inr bad ↦ rw (absent, bad) a
        | inl fine ↦
            rw (absent, fine) (dialed-IsAdmitted dial t (absent_unauthenticated t s absent))
      ]
    ]

    pub send_frame-IsAdmitted :
        (frame : Frame Message) (t sent : WebSocketTransport Message)
        → IsAdmitted heard t
        → send_frame gateway frame t ≡ ok sent
        → IsAdmitted heard sent
    send_frame-IsAdmitted frame t sent a h =
        let (frames, present, e) = send_frame-eq-ok gateway frame t sent h in rw e a

    flush-IsAdmitted :
        (buffered : List Message) (t : WebSocketTransport Message)
        → IsAdmitted heard t
        → IsAdmitted heard (flush gateway buffered t).1
    unfolding flush
    flush-IsAdmitted [] t a = a
    flush-IsAdmitted (m ∷ rest) t a = elim (Result-cases (send_encoded gateway m t)) [
      | inr (e, broke) ↦ rw (flush, broke) a
      | inl (sent, went) ↦
          let (frames, present, e) = send_encoded-eq-ok gateway m t sent went in
          let still : IsAdmitted heard sent = rw e a in
          rw (flush, went) (flush-IsAdmitted rest sent still)
    ]

    deliver-IsAdmitted :
        (m : Message) (t : WebSocketTransport Message)
        → IsAdmitted heard t
        → IsAdmitted heard (deliver gateway m t).1
    unfolding deliver flush_buffer
    deliver-IsAdmitted m t a = elim (Result-cases (send_encoded gateway m t)) [
      | inr (e, broke) ↦ rw (deliver, broke) a
      | inl (sent, went) ↦
          let (frames, present, e) = send_encoded-eq-ok gateway m t sent went in
          let still : IsAdmitted heard sent = rw e a in
          elim (Bool-cases (gateway.is_hello m)) [
            | inl first ↦
                rw (deliver, went, first)
                  (flush-IsAdmitted sent.outbound (record sent { hello_sent = true }) still)
            | inr later ↦ rw (deliver, went, later) still
          ]
    ]

    dropped-IsAdmitted :
        (r : Result TransportError (Unit {0}) × WebSocketTransport Message)
        → IsAdmitted heard r.1
        → IsAdmitted heard (drop_on_error gateway r).1
    dropped-IsAdmitted (ok _, t) a = a
    dropped-IsAdmitted (err e, t) a = disconnect-IsAdmitted t

    pub send-IsAdmitted :
        (m : Message) (t : WebSocketTransport Message)
        → IsAdmitted heard t
        → IsAdmitted heard (send gateway m t).1
    unfolding send
    send-IsAdmitted m t a = elim (Result-cases (may_send gateway m t)) [
      | inr (e, refused_to) ↦ rw (send, refused_to) a
      | inl (_, may) ↦
          rw (send, may) (dropped-IsAdmitted (deliver gateway m t) (deliver-IsAdmitted m t a))
    ]

    next_text-IsAdmitted :
        (arrivals : List Arrival) (t : WebSocketTransport Message)
        → IsAdmitted heard t
        → IsAdmitted heard (next_text gateway config arrivals t).1
    unfolding next_text disconnect
    next_text-IsAdmitted [] t a = a
    next_text-IsAdmitted (idle ∷ later) t a = refl
    next_text-IsAdmitted (ended ∷ later) t a = refl
    next_text-IsAdmitted (failed ∷ later) t a = refl
    next_text-IsAdmitted (text_frame payload ∷ later) t a = a
    next_text-IsAdmitted (binary ∷ later) t a = refl
    next_text-IsAdmitted (ping payload ∷ later) t a =
        elim (Result-cases (send_frame gateway (pong payload) t)) [
          | inr (e, broke) ↦ rw (next_text, broke) refl
          | inl (answered, went) ↦
              rw (next_text, went)
                (next_text-IsAdmitted later answered
                  (send_frame-IsAdmitted (pong payload) t answered a went))
        ]
    next_text-IsAdmitted (pong_frame ∷ later) t a = next_text-IsAdmitted later t a
    next_text-IsAdmitted (close_frame reason ∷ later) t a = refl
    next_text-IsAdmitted (raw_frame ∷ later) t a = next_text-IsAdmitted later t a

    pub text-IsAdmitted :
        (arrivals : List Arrival) (t : WebSocketTransport Message)
        → IsAdmitted heard t
        → IsAdmitted heard (receive_text_frame gateway config arrivals t).1
    unfolding receive_text_frame
    text-IsAdmitted arrivals t a = elim (Option-cases t.socket) [
      | inl absent ↦ rw (receive_text_frame, absent) a
      | inr (frames, present) ↦ rw (receive_text_frame, present) (next_text-IsAdmitted arrivals t a)
    ]

    decoded-IsAdmitted :
        (r : Awaited Text × WebSocketTransport Message)
        → IsAdmitted heard r.1
        → IsAdmitted heard (decoded gateway r).1
    decoded-IsAdmitted (waiting, t) a = a
    decoded-IsAdmitted (ready (err e), t) a = a
    decoded-IsAdmitted (ready (ok encoded), t) a =
        elim (Option-cases (gateway.decode_server encoded)) [
          | inl wrong ↦ rw (decoded, wrong) (disconnect-IsAdmitted t)
          | inr (message, right) ↦ rw (decoded, right) a
        ]

    pub receive-IsAdmitted :
        (arrivals : List Arrival) (t : WebSocketTransport Message)
        → IsAdmitted heard t
        → IsAdmitted heard (receive gateway config arrivals t).1
    unfolding receive
    receive-IsAdmitted arrivals t a = elim (Result-cases (may_receive gateway t)) [
      | inr (e, refused_to) ↦ rw (receive, refused_to) a
      | inl (_, may) ↦
          rw (receive, may)
            (decoded-IsAdmitted (receive_text_frame gateway config arrivals t)
              (text-IsAdmitted arrivals t a))
    ]
