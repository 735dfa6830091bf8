-- ===== src/Transport/Runs.antt =====
-- Runs of a transport: any calls in any order, with any answers of the network.
use oppa.Common.{
  ◌≡◌, refl, Bool, false, not, ◌&&◌, ◌++◌, is_some, Option-cases, inl, inr, ◌||◌, List, [], ◌∷◌,
  Result, ok, err, ensure, ok_or, >>=-eq-ok, arith, leb,
}
use oppa.Common.Text.{Text, text, text_eq, byte_len}
use oppa.Transport.{
  TransportError, TransportConfig, not_connected, protocol, unexpected_authentication_message,
  protocol_encoding, is_connected,
}
use oppa.Transport.Session.{
  authentication, GatewayAuthenticationResponse, Gateway, WebSocketTransport,
  max_auth_message_bytes, disconnected_transport, close, buffer, send_frame, disconnect,
}
use oppa.Transport.Receive.{send_authentication_response}
use oppa.Transport.Reconnecting.{
  connect_with_backoff-keeps, resting-IsSession, connect_with_backoff-IsSession,
}
use oppa.Transport.Admission.{
  IsAdmitted, absent_unauthenticated, connect-IsAdmitted, send_frame-IsAdmitted, send-IsAdmitted,
  receive-IsAdmitted,
}
use oppa.Transport.Accepting.{receive_authentication-IsAdmitted}
use oppa.Transport.Order.{IsSession, connect-IsSession, close-IsSession, buffer-IsSession}
use oppa.Transport.Calls.{send-IsSession, send_frame-IsSession}
use oppa.Transport.Arrivals.{receive-IsSession, receive_authentication-IsSession}
use oppa.Transport.Script.{
  Call, dial, leave, enqueue, respond, await_authentication, transmit, await_message, reconnect,
  or_same, act, act_all, heard_after, heard_all,
}

module _ {Message ServerMessage : Type 0} (gateway : Gateway Message ServerMessage)
    (config : TransportConfig) where
  abbrev Session : WebSocketTransport Message → Type 0
  Session t = IsSession gateway config t

  or_same-IsSession :
      (t : WebSocketTransport Message) (r : Result TransportError (WebSocketTransport Message))
      → Session t
      → ((t' : WebSocketTransport Message) → r ≡ ok t' → Session t')
      → Session (or_same gateway config t r)
  or_same-IsSession t (ok t') s h = h t' refl
  or_same-IsSession t (err _) s h = s

  respond-sends :
      (response : GatewayAuthenticationResponse) (t t' : WebSocketTransport Message)
      → send_authentication_response gateway response t ≡ ok t'
      → (encoded : Text) × (send_frame gateway (authentication encoded) t ≡ ok t')
  unfolding send_authentication_response
  respond-sends response t t' h =
      let (_, _, h1) = >>=-eq-ok (ensure (is_connected t.state) not_connected) _ h in
      let (_, _, h2) =
        >>=-eq-ok
          (ensure
            (not (
              t.authenticated
              || t.hello_sent
              || not (text_eq response.message_type (text "auth.response"))))
            unexpected_authentication_message)
          _ h1 in
      let (_, _, h3) =
        >>=-eq-ok (ensure (gateway.response_is_valid response) unexpected_authentication_message) _
          h2 in
      let (encoded, _, h4) =
        >>=-eq-ok (ok_or (gateway.encode_response response) protocol_encoding) _ h3 in
      let (_, _, h5) =
        >>=-eq-ok
          (ensure (leb (byte_len encoded) max_auth_message_bytes) unexpected_authentication_message)
          _ h4 in
      (encoded, h5)

  act-IsSession :
      (c : Call Message) (t : WebSocketTransport Message)
      → Session t
      → Session (act gateway config c t)
  unfolding act
  act-IsSession (dial answer) t s = connect-IsSession gateway config answer t s
  act-IsSession (leave answer) t s = close-IsSession gateway config answer t s
  act-IsSession (enqueue message) t s =
      or_same-IsSession t (buffer gateway config message t) s
        (λ t' h. buffer-IsSession gateway config message t t' s h)
  act-IsSession (respond response) t s =
      or_same-IsSession t (send_authentication_response gateway response t) s (λ t' h.
        let (encoded, h') = respond-sends response t t' h in
        send_frame-IsSession gateway config (authentication encoded) t t' refl s h')
  act-IsSession (await_authentication arrivals) t s =
      receive_authentication-IsSession gateway config arrivals t s
  act-IsSession (transmit message) t s = send-IsSession gateway config message t s
  act-IsSession (await_message arrivals) t s = receive-IsSession gateway config arrivals t s
  act-IsSession (reconnect delay_for script backoff) t s =
      connect_with_backoff-IsSession gateway config delay_for script t backoff s

  abbrev Admitted : Bool → WebSocketTransport Message → Type 0
  Admitted heard t = IsAdmitted gateway config heard t

  or_same-IsAdmitted :
      (heard : Bool) (t : WebSocketTransport Message)
      (r : Result TransportError (WebSocketTransport Message))
      → Admitted heard t
      → ((t' : WebSocketTransport Message) → r ≡ ok t' → Admitted heard t')
      → Admitted heard (or_same gateway config t r)
  or_same-IsAdmitted heard t (ok t') a h = h t' refl
  or_same-IsAdmitted heard t (err _) a h = a

  buffer-IsAdmitted :
      (heard : Bool) (m : Message) (t t' : WebSocketTransport Message)
      → Admitted heard t
      → buffer gateway config m t ≡ ok t'
      → Admitted heard t'
  unfolding buffer
  buffer-IsAdmitted heard m t t' a h =
      let (_, _, h1) = >>=-eq-ok (ok_or (gateway.encode_agent_message m) protocol) _ h in
      let e : t' ≡ record t { outbound = t.outbound ++ m ∷ [] } = ground (arith, h1) in rw e a

  -- A dial on no socket finds no acceptance to go on with.
  anew :
      (heard : Bool) (t : WebSocketTransport Message)
      → Session t
      → Admitted heard t
      → Admitted (heard && is_some t.socket) t
  anew heard t s a = ground (arith, a, absent_unauthenticated gateway config t s)

  act-IsAdmitted :
      (c : Call Message) (t : WebSocketTransport Message) (heard : Bool)
      → Session t
      → Admitted heard t
      → Admitted (heard_after gateway config c t heard) (act gateway config c t)
  unfolding act close disconnect
  act-IsAdmitted (dial answer) t heard s a =
      connect-IsAdmitted gateway config (heard && is_some t.socket) answer t s (anew heard t s a)
  act-IsAdmitted (leave answer) t heard s a = elim (Option-cases t.socket) [
    | inl absent ↦ rw absent refl
    | inr (frames, present) ↦ rw present refl
  ]
  act-IsAdmitted (enqueue message) t heard s a =
      or_same-IsAdmitted heard t (buffer gateway config message t) a
        (λ t' h. buffer-IsAdmitted heard message t t' a h)
  act-IsAdmitted (respond response) t heard s a =
      or_same-IsAdmitted heard t (send_authentication_response gateway response t) a (λ t' h.
        let (encoded, h') = respond-sends response t t' h in
        send_frame-IsAdmitted gateway config heard (authentication encoded) t t' a h')
  act-IsAdmitted (await_authentication arrivals) t heard s a =
      receive_authentication-IsAdmitted gateway config heard arrivals t a
  act-IsAdmitted (transmit message) t heard s a = send-IsAdmitted gateway config heard message t a
  act-IsAdmitted (await_message arrivals) t heard s a =
      receive-IsAdmitted gateway config heard arrivals t a
  act-IsAdmitted (reconnect delay_for script backoff) t heard s a =
      let still = heard && is_some t.socket in
      (connect_with_backoff-keeps gateway config (λ u. Session u × Admitted still u)
        (λ d u (su, au). (
          connect-IsSession gateway config d u su,
          connect-IsAdmitted gateway config still d u su au,
        ))
        (λ state u off absent (su, au).
          (resting-IsSession gateway config state u off absent su, au))
        delay_for script t backoff (s, anew heard t s a)).1

  all-hold :
      (calls : List (Call Message)) (t : WebSocketTransport Message) (heard : Bool)
      → Session t
      → Admitted heard t
      → Session (act_all gateway config calls t)
        × Admitted (heard_all gateway config calls t heard) (act_all gateway config calls t)
  unfolding act_all heard_all
  all-hold [] t heard s a = (s, a)
  all-hold (c ∷ cs) t heard s a =
      all-hold cs (act gateway config c t) (heard_after gateway config c t heard)
        (act-IsSession c t s) (act-IsAdmitted c t heard s a)

  -- After any calls on a new transport, reconnecting included, whatever the network answers: the
  -- transport is connected exactly while it has a socket, the watch channel holds its state, it is
  -- authenticated only if receive_authentication answered the gateway's acceptance since the socket
  -- was opened, the hello was sent only while it was authenticated, the first application message on
  -- the socket is a hello and no other is, none was sent where the hello was not, the buffer is
  -- within its capacity, and no hello waits in it.
  pub calls-IsSession :
      (calls : List (Call Message))
      → IsSession gateway config (act_all gateway config calls disconnected_transport)
        × IsAdmitted gateway config
            (heard_all gateway config calls disconnected_transport false)
            (act_all gateway config calls disconnected_transport)
  calls-IsSession calls =
      all-hold calls disconnected_transport false
        (record {
          state_fits = refl;
          watched = refl;
          flags = refl;
          bounded = omega arith;
          no_hello_waits = refl;
        })
        refl
