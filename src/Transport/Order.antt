-- ===== src/Transport/Order.antt =====
-- What every call keeps: a session begins with its hello, and the buffer is bounded.
use oppa.Common.{
  ◌≤◌, ◌≡◌, refl, Bool, true, false, not, ◌&&◌, Option, none, some, List, [], ◌∷◌, ◌++◌, ok, ok_or,
  >>=-eq-ok, arith, length, is_some, Bool-cases, Option-cases, length-append, sym, inl, inr,
}
use oppa.Common.Counting.{count, count-append}
use oppa.Transport.{TransportConfig, is_connected, connecting, closing, protocol, protocol_encoding}
use oppa.Transport.Session.{
  Frame, authentication, application, pong, Dial, timed_out, refused, opened, Farewell, Gateway,
  WebSocketTransport, set_state, disconnect, dialed, close, connect, send_frame, send_encoded,
  buffer,
}

module _ {Message ServerMessage : Type 0} (gateway : Gateway Message ServerMessage) where
  -- The application messages sent on a socket, newest first.
  abbrev pub messages : List (Frame Message) → List Message
  messages [] = []
  messages (authentication _ ∷ frames) = messages frames
  messages (application message ∷ frames) = message ∷ messages frames
  messages (pong _ ∷ frames) = messages frames

  -- Oldest is a hello, and no other is.
  abbrev pub begins_with_hello : List Message → Bool
  begins_with_hello [] = false
  begins_with_hello (m ∷ []) = gateway.is_hello m
  begins_with_hello (m ∷ n ∷ rest) = not (gateway.is_hello m) && begins_with_hello (n ∷ rest)

  abbrev pub is_nothing : List Message → Bool
  is_nothing [] = true
  is_nothing (_ ∷ _) = false

  -- The flags against what was sent on the socket.
  abbrev pub flags_fit : Option (List (Frame Message)) → Bool → Bool → Bool
  flags_fit none authenticated hello_sent = not authenticated && not hello_sent
  flags_fit (some frames) true true = begins_with_hello (messages frames)
  flags_fit (some frames) false true = false
  flags_fit (some frames) authenticated false = is_nothing (messages frames)

  pub record IsSession (config : TransportConfig) (t : WebSocketTransport Message) : Type 0 where
    pub state_fits : is_connected t.state ≡ is_some t.socket
    pub watched : t.published ≡ t.state
    pub flags : flags_fit t.socket t.authenticated t.hello_sent ≡ true
    pub bounded : length t.outbound ≤ config.outbound_buffer_capacity
    pub no_hello_waits : count gateway.is_hello t.outbound ≡ 0

  pub disconnect-IsSession :
      (config : TransportConfig) (t : WebSocketTransport Message)
      → length t.outbound ≤ config.outbound_buffer_capacity
      → count gateway.is_hello t.outbound ≡ 0
      → IsSession config (disconnect t)
  unfolding disconnect
  disconnect-IsSession config t b n = record {
    state_fits = refl;
    watched = refl;
    flags = refl;
    bounded = b;
    no_hello_waits = n;
  }

  dialed-IsSession :
      (config : TransportConfig) (dial : Dial) (t : WebSocketTransport Message)
      → is_some t.socket ≡ false
      → IsSession config t
      → IsSession config (dialed config dial (set_state connecting t)).1
  unfolding dialed
  dialed-IsSession config timed_out t e s = record {
    state_fits = sym e;
    watched = refl;
    flags = s.flags;
    bounded = s.bounded;
    no_hello_waits = s.no_hello_waits;
  }
  dialed-IsSession config refused t e s = record {
    state_fits = sym e;
    watched = refl;
    flags = s.flags;
    bounded = s.bounded;
    no_hello_waits = s.no_hello_waits;
  }
  dialed-IsSession config opened t e s = record {
    state_fits = refl;
    watched = refl;
    flags = refl;
    bounded = s.bounded;
    no_hello_waits = s.no_hello_waits;
  }

  pub connect-IsSession :
      (config : TransportConfig) (dial : Dial) (t : WebSocketTransport Message)
      → IsSession config t
      → IsSession config (connect gateway config dial t).1
  unfolding connect
  connect-IsSession config dial t s = elim (Bool-cases (is_some t.socket)) [
    | inl present ↦ rw present s
    | inr absent ↦ elim (Bool-cases (gateway.into_client_request config.endpoint)) [
      | inr bad ↦ rw (absent, bad) s
      | inl fine ↦ rw (absent, fine) (dialed-IsSession config dial t absent s)
    ]
  ]

  pub close-IsSession :
      (config : TransportConfig) (answer : Farewell) (t : WebSocketTransport Message)
      → IsSession config t
      → IsSession config (close config answer t).1
  unfolding close
  close-IsSession config answer t s = elim (Option-cases t.socket) [
    | inl absent ↦ rw absent (disconnect-IsSession config t s.bounded s.no_hello_waits)
    | inr (frames, present) ↦
        rw present (disconnect-IsSession config (set_state closing t) s.bounded s.no_hello_waits)
  ]

  pub buffer-IsSession :
      (config : TransportConfig) (m : Message) (t t' : WebSocketTransport Message)
      → IsSession config t
      → buffer gateway config m t ≡ ok t'
      → IsSession config t'
  unfolding buffer
  buffer-IsSession config m t t' s h =
      let (_, _, h1) = >>=-eq-ok (ok_or (gateway.encode_agent_message m) protocol) _ h in
      let e : t' ≡ record t { outbound = t.outbound ++ m ∷ [] } = ground (arith, h1) in
      rw e (record {
        state_fits = s.state_fits;
        watched = s.watched;
        flags = s.flags;
        bounded = ground (arith, h1, length-append t.outbound (m ∷ []));
        no_hello_waits =
            ground (arith, h1, count-append gateway.is_hello t.outbound (m ∷ []), s.no_hello_waits);
      })

  -- A frame that went out stands on the socket, and nothing else has changed.
  pub send_frame-eq-ok :
      (frame : Frame Message) (t sent : WebSocketTransport Message)
      → send_frame gateway frame t ≡ ok sent
      → (frames : List (Frame Message)) × (t.socket ≡ some frames)
        × (sent ≡ record t { socket = some (frame ∷ frames) })
  unfolding send_frame
  send_frame-eq-ok frame t sent h = elim (Option-cases t.socket) [
    | inl absent ↦ absurd (ground (arith, h, absent))
    | inr (frames, present) ↦ (frames, present, ground (arith, h, present))
  ]

  pub send_encoded-eq-ok :
      (m : Message) (t sent : WebSocketTransport Message)
      → send_encoded gateway m t ≡ ok sent
      → (frames : List (Frame Message)) × (t.socket ≡ some frames)
        × (sent ≡ record t { socket = some (application m ∷ frames) })
  unfolding send_encoded
  send_encoded-eq-ok m t sent h =
      let (bytes, _, h1) = >>=-eq-ok (ok_or (gateway.encode_agent_message m) protocol) _ h in
      let (_, _, h2) = >>=-eq-ok (ok_or (gateway.from_utf8 bytes) protocol_encoding) _ h1 in
      send_frame-eq-ok (application m) t sent h2

  begins-push :
      (ms : List Message) (m : Message)
      → begins_with_hello ms ≡ true
      → gateway.is_hello m ≡ false
      → begins_with_hello (m ∷ ms) ≡ true
  begins-push [] m h k = cc
  begins-push (n ∷ rest) m h k = ground (arith, h, k)

  begins-first :
      (ms : List Message) (m : Message)
      → is_nothing ms ≡ true
      → gateway.is_hello m ≡ true
      → begins_with_hello (m ∷ ms) ≡ true
  begins-first [] m h k = k
  begins-first (n ∷ rest) m h k = cc

  -- A message that the guards let through keeps the order of the session.
  pub flags-push :
      (frames : List (Frame Message)) (authenticated hello_sent : Bool) (m : Message)
      → flags_fit (some frames) authenticated hello_sent ≡ true
      → authenticated ≡ true
      → gateway.is_hello m ≡ not hello_sent
      → flags_fit (some (application m ∷ frames)) authenticated true ≡ true
  flags-push frames true true m f a k = begins-push (messages frames) m f k
  flags-push frames true false m f a k = begins-first (messages frames) m f k
  flags-push frames false hello_sent m f a k = cc

  pub live_authenticated :
      (frames : List (Frame Message)) (authenticated : Bool)
      → flags_fit (some frames) authenticated true ≡ true
      → authenticated ≡ true
  live_authenticated frames true f = refl
  live_authenticated frames false f = f
