-- ===== src/Transport/Calls.antt =====
-- Every call of the transport keeps a session in order, and the buffer leaves it in order.
use oppa.Common.{
  ◌≤◌, ◌≡◌, refl, Bool, true, false, not, some, List, [], ◌∷◌, Result, ok, err, arith, length,
  Bool-cases, Result-cases, sym, ap, inl, inr,
}
use oppa.Common.Counting.{count}
use oppa.Transport.{TransportError, TransportConfig}
use oppa.Transport.Session.{
  Frame, authentication, application, pong, Arrival, idle, ended, failed, binary, pong_frame,
  raw_frame, text_frame, ping, close_frame, Gateway, WebSocketTransport, send_frame, send_encoded,
  flush, flush_buffer, drop_on_error, may_send, deliver, send,
}
use oppa.Transport.Receive.{next_text}
use oppa.Transport.Order.{
  messages, flags_fit, IsSession, disconnect-IsSession, send_frame-eq-ok, send_encoded-eq-ok,
  flags-push,
}

module _ {Message ServerMessage : Type 0} (gateway : Gateway Message ServerMessage)
    (config : TransportConfig) where
  abbrev Session : WebSocketTransport Message → Type 0
  Session t = IsSession gateway config t

  pushed-IsSession :
      (m : Message) (t sent : WebSocketTransport Message) (old rest : List Message)
      → Session (record t { outbound = old })
      → t.authenticated ≡ true
      → gateway.is_hello m ≡ not t.hello_sent
      → length rest ≤ config.outbound_buffer_capacity
      → count gateway.is_hello rest ≡ 0
      → send_encoded gateway m t ≡ ok sent
      → Session (record sent { hello_sent = true; outbound = rest })
  pushed-IsSession m t sent old rest s a k b n h =
      let (frames, present, e) = send_encoded-eq-ok gateway m t sent h in
      let fits : flags_fit gateway (some frames) t.authenticated t.hello_sent ≡ true =
        rw (← present) s.flags in
      rw e (record {
        state_fits = ground (arith, s.state_fits, present);
        watched = s.watched;
        flags = flags-push gateway frames t.authenticated t.hello_sent m fits a k;
        bounded = b;
        no_hello_waits = n;
      })

  went_on :
      (m : Message) (t sent : WebSocketTransport Message)
      → t.hello_sent ≡ true
      → t.authenticated ≡ true
      → send_encoded gateway m t ≡ ok sent
      → (sent.hello_sent ≡ true)
        × (sent.authenticated ≡ true)
        × (record sent { hello_sent = true } ≡ sent)
  went_on m t sent live a h =
      let (frames, present, e) = send_encoded-eq-ok gateway m t sent h in
      rw e (
        live,
        a,
        ap (λ (b : Bool). record t { socket = some (application m ∷ frames); hello_sent = b })
            (sym live),
      )

  flush-IsSession :
      (rest : List Message) (t : WebSocketTransport Message)
      → Session (record t { outbound = rest })
      → t.hello_sent ≡ true
      → t.authenticated ≡ true
      → Session (flush gateway rest t).1
  unfolding flush
  flush-IsSession [] t s live a = s
  flush-IsSession (m ∷ rest) t s live a = elim (Result-cases (send_encoded gateway m t)) [
    | inr (e, failed_to) ↦ rw (flush, failed_to) s
    | inl (sent, went) ↦
        let plain : gateway.is_hello m ≡ false = ground (arith, s.no_hello_waits) in
        let (kept_live, kept_authenticated, same) = went_on m t sent live a went in
        rw (flush, went)
          (flush-IsSession rest sent
            (rw (← same) (
              pushed-IsSession m t sent (m ∷ rest) rest s a (rw live plain)
                (omega (arith, s.bounded)) (ground (arith, s.no_hello_waits)) went))
            kept_live kept_authenticated)
  ]

  deliver-IsSession :
      (m : Message) (t : WebSocketTransport Message)
      → Session t
      → t.authenticated ≡ true
      → gateway.is_hello m ≡ not t.hello_sent
      → Session (deliver gateway m t).1
  unfolding deliver flush_buffer
  deliver-IsSession m t s a k = elim (Result-cases (send_encoded gateway m t)) [
    | inr (e, failed_to) ↦ rw (deliver, failed_to) s
    | inl (sent, went) ↦
        let (frames, present, e) = send_encoded-eq-ok gateway m t sent went in
        let pushed =
          pushed-IsSession m t sent t.outbound t.outbound s a k s.bounded s.no_hello_waits went in
        let waiting_same : sent.outbound ≡ t.outbound = rw e refl in
        let still : sent.authenticated ≡ true = rw e a in
        elim (Bool-cases (gateway.is_hello m)) [
          | inl first ↦
              rw (deliver, went, first)
                (flush-IsSession sent.outbound (record sent { hello_sent = true })
                  (rw waiting_same pushed) refl still)
          | inr later ↦
              let (_, _, same) = went_on m t sent (ground (arith, k, later)) a went in
              rw (deliver, went, later) (rw (← same) (rw (← waiting_same) at pushed))
        ]
  ]

  dropped-IsSession :
      (r : Result TransportError (Unit {0}) × WebSocketTransport Message)
      → Session r.1
      → Session (drop_on_error gateway r).1
  dropped-IsSession (ok _, t) s = s
  dropped-IsSession (err e, t) s = disconnect-IsSession gateway config t s.bounded s.no_hello_waits

  may_send-eq-ok :
      (m : Message) (t : WebSocketTransport Message)
      → may_send gateway m t ≡ ok tt
      → (t.authenticated ≡ true) × (gateway.is_hello m ≡ not t.hello_sent)
  unfolding may_send
  may_send-eq-ok m t h = (ground (arith, h), ground (arith, h))

  pub send-IsSession :
      (m : Message) (t : WebSocketTransport Message) → Session t → Session (send gateway m t).1
  unfolding send
  send-IsSession m t s = elim (Result-cases (may_send gateway m t)) [
    | inr (e, refused_to) ↦ rw (send, refused_to) s
    | inl (_, may) ↦
        let (a, k) = may_send-eq-ok m t may in
        rw (send, may) (dropped-IsSession (deliver gateway m t) (deliver-IsSession m t s a k))
  ]

  -- A frame that is no application message keeps the session.
  pub send_frame-IsSession :
      (frame : Frame Message) (t sent : WebSocketTransport Message)
      → (messages gateway (frame ∷ []) ≡ [])
      → Session t
      → send_frame gateway frame t ≡ ok sent
      → Session sent
  send_frame-IsSession frame t sent aside s h =
      let (frames, present, e) = send_frame-eq-ok gateway frame t sent h in
      rw e (record {
        state_fits = ground (arith, s.state_fits, present);
        watched = s.watched;
        flags = same_flags frame frames t.authenticated t.hello_sent aside (rw (← present) s.flags);
        bounded = s.bounded;
        no_hello_waits = s.no_hello_waits;
      })
    where
      same_flags :
          (f : Frame Message) (frames : List (Frame Message)) (a h : Bool)
          → messages gateway (f ∷ []) ≡ []
          → flags_fit gateway (some frames) a h ≡ true
          → flags_fit gateway (some (f ∷ frames)) a h ≡ true
      same_flags (authentication _) frames a h e k = k
      same_flags (pong _) frames a h e k = k
      same_flags (application m) frames a h e k = cc

  pub next_text-IsSession :
      (arrivals : List Arrival) (t : WebSocketTransport Message)
      → Session t
      → Session (next_text gateway config arrivals t).1
  unfolding next_text
  next_text-IsSession [] t s = s
  next_text-IsSession (idle ∷ later) t s =
      disconnect-IsSession gateway config t s.bounded s.no_hello_waits
  next_text-IsSession (ended ∷ later) t s =
      disconnect-IsSession gateway config t s.bounded s.no_hello_waits
  next_text-IsSession (failed ∷ later) t s =
      disconnect-IsSession gateway config t s.bounded s.no_hello_waits
  next_text-IsSession (text_frame payload ∷ later) t s = s
  next_text-IsSession (binary ∷ later) t s =
      disconnect-IsSession gateway config t s.bounded s.no_hello_waits
  next_text-IsSession (ping payload ∷ later) t s =
      elim (Result-cases (send_frame gateway (pong payload) t)) [
        | inr (e, broke) ↦
            rw (next_text, broke) (disconnect-IsSession gateway config t s.bounded s.no_hello_waits)
        | inl (answered, went) ↦
            rw (next_text, went)
              (next_text-IsSession later answered
                (send_frame-IsSession (pong payload) t answered refl s went))
      ]
  next_text-IsSession (pong_frame ∷ later) t s = next_text-IsSession later t s
  next_text-IsSession (close_frame reason ∷ later) t s =
      disconnect-IsSession gateway config t s.bounded s.no_hello_waits
  next_text-IsSession (raw_frame ∷ later) t s = next_text-IsSession later t s
