-- ===== src/Transport/Receive.antt =====
-- crates/oppa-transport/src/lib.rs: the receiving side of WebSocketTransport, and the
-- authentication that comes before the hello.
use oppa.Common.{
  Bool, true, false, not, ◌||◌, Option, none, some, List, [], ◌∷◌, Result, ok, err, ensure, ok_or,
  ◌>>=◌, ◌>>◌, leb, take, if◌then◌else◌,
}
use oppa.Common.Text.{Text, text, text_eq, byte_len}
use oppa.Transport.{
  TransportError, not_connected, idle_timeout, web_socket, authentication_rejected,
  authentication_required, unexpected_authentication_message, closed, unexpected_frame, protocol,
  protocol_encoding, hello_required, TransportConfig, is_connected,
}
use oppa.Transport.Session.{
  authentication, pong, Arrival, idle, ended, failed, binary, pong_frame, raw_frame, text_frame,
  ping, close_frame, GatewayAuthenticationResponse, GatewayAuthenticationServerMessage, challenge,
  accepted, rejected, max_auth_message_bytes, Gateway, WebSocketTransport, Awaited, waiting, ready,
  disconnect, send_frame,
}

-- `frame.reason.chars().take(500)`
abbrev pub shortened : Option Text → Option Text
shortened none = none
shortened (some reason) = some (take 500 reason)

-- The `match &message`: whether the message is the acceptance.
unfoldable pub judged : GatewayAuthenticationServerMessage → Result TransportError Bool
judged (challenge message_type) = do
  ensure (text_eq message_type (text "auth.challenge")) unexpected_authentication_message
  ok false
judged (accepted message_type) = do
  ensure (text_eq message_type (text "auth.accepted")) unexpected_authentication_message
  ok true
judged (rejected message_type code) = do
  ensure (text_eq message_type (text "auth.rejected")) unexpected_authentication_message
  err (authentication_rejected code)

module _ {Message ServerMessage : Type 0} (gateway : Gateway Message ServerMessage) where
  abbrev pub lost :
      {A : Type 0}
      → TransportError
      → WebSocketTransport Message
      → Awaited A × WebSocketTransport Message
  lost e t = (ready (err e), disconnect t)

  -- The loop on the frames of an open socket.
  unfoldable pub next_text :
      TransportConfig
      → List Arrival
      → WebSocketTransport Message
      → Awaited Text × WebSocketTransport Message
  next_text config [] t = (waiting, t)
  next_text config (idle ∷ later) t = lost (idle_timeout config.idle_timeout) t
  next_text config (ended ∷ later) t = lost (closed none) t
  next_text config (failed ∷ later) t = lost web_socket t
  next_text config (text_frame payload ∷ later) t = (ready (ok payload), t)
  next_text config (binary ∷ later) t = lost (unexpected_frame (text "binary")) t
  next_text config (ping payload ∷ later) t = elim (send_frame gateway (pong payload) t) [
    | err e ↦ lost e t
    | ok answered ↦ next_text config later answered
  ]
  next_text config (pong_frame ∷ later) t = next_text config later t
  next_text config (close_frame reason ∷ later) t = lost (closed (shortened reason)) t
  next_text config (raw_frame ∷ later) t = next_text config later t

  unfoldable pub receive_text_frame :
      TransportConfig
      → List Arrival
      → WebSocketTransport Message
      → Awaited Text × WebSocketTransport Message
  unfolding next_text
  receive_text_frame config arrivals t = elim t.socket [
    | none ↦ (ready (err not_connected), t)
    | some frames ↦ next_text config arrivals t
  ]

  unfoldable pub send_authentication_response :
      GatewayAuthenticationResponse
      → WebSocketTransport Message
      → Result TransportError (WebSocketTransport Message)
  send_authentication_response response t = do
    ensure (is_connected t.state) not_connected
    ensure
        (not (
          t.authenticated
          || t.hello_sent
          || not (text_eq response.message_type (text "auth.response"))))
        unexpected_authentication_message
    ensure (gateway.response_is_valid response) unexpected_authentication_message
    encoded ← ok_or (gateway.encode_response response) protocol_encoding
    ensure (leb (byte_len encoded) max_auth_message_bytes) unexpected_authentication_message
    send_frame gateway (authentication encoded) t

  unfoldable pub authenticated_by :
      Text → Result TransportError (GatewayAuthenticationServerMessage × Bool)
  unfolding judged
  authenticated_by encoded = do
    ensure (leb (byte_len encoded) max_auth_message_bytes) unexpected_authentication_message
    message ← ok_or (gateway.decode_authentication encoded) unexpected_authentication_message
    acceptance ← judged message
    ok (message, acceptance)

  abbrev pub authenticate :
      Result TransportError (GatewayAuthenticationServerMessage × Bool)
      → WebSocketTransport Message
      → Awaited GatewayAuthenticationServerMessage × WebSocketTransport Message
  authenticate (err e) t = (ready (err e), t)
  authenticate (ok (message, acceptance)) t =
      (ready (ok message), record t { authenticated = t.authenticated || acceptance })

  abbrev pub authentication_arrived :
      Awaited Text × WebSocketTransport Message
      → Awaited GatewayAuthenticationServerMessage × WebSocketTransport Message
  authentication_arrived (waiting, t) = (waiting, t)
  authentication_arrived (ready (err e), t) = (ready (err e), t)
  authentication_arrived (ready (ok encoded), t) = authenticate (authenticated_by encoded) t

  unfoldable pub receive_authentication :
      TransportConfig
      → List Arrival
      → WebSocketTransport Message
      → Awaited GatewayAuthenticationServerMessage × WebSocketTransport Message
  unfolding receive_text_frame authenticated_by
  receive_authentication config arrivals t =
      if not (is_connected t.state) || t.authenticated || t.hello_sent
      then (ready (err unexpected_authentication_message), t)
      else authentication_arrived (receive_text_frame config arrivals t)

  unfoldable pub may_receive : WebSocketTransport Message → Result TransportError (Unit {0})
  may_receive t = do
    ensure (is_connected t.state) not_connected
    ensure t.authenticated authentication_required
    ensure t.hello_sent hello_required

  abbrev pub decoded :
      Awaited Text × WebSocketTransport Message → Awaited ServerMessage × WebSocketTransport Message
  decoded (waiting, t) = (waiting, t)
  decoded (ready (err e), t) = (ready (err e), t)
  decoded (ready (ok encoded), t) = elim (gateway.decode_server encoded) [
    | none ↦ lost protocol t
    | some message ↦ (ready (ok message), t)
  ]

  unfoldable pub receive :
      TransportConfig
      → List Arrival
      → WebSocketTransport Message
      → Awaited ServerMessage × WebSocketTransport Message
  unfolding receive_text_frame may_receive
  receive config arrivals t = elim (may_receive t) [
    | err e ↦ (ready (err e), t)
    | ok _ ↦ decoded (receive_text_frame config arrivals t)
  ]
