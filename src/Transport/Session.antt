-- ===== src/Transport/Session.antt =====
-- crates/oppa-transport/src/lib.rs: WebSocketTransport.
-- A socket stands as the frames that were sent on it, newest first; whether the next send succeeds
-- is asked of the WebSocket library. What an await returned is an argument: the outcome of a dial,
-- of a close, and the arrivals that a receive waited for, one after another.
use oppa.Common.{
  ℕ, Bool, true, false, not, ◌&&◌, Option, none, some, List, [], ◌∷◌, ◌++◌, Result, ok, err, ensure,
  ok_or, ◌>>=◌, ◌>>◌, is_some, ltb, length, if◌then◌else◌,
}
use oppa.Common.Text.{Text}
use oppa.Transport.{
  TransportError, Url, invalid_configuration, connecting, closing, validate, already_connected,
  not_connected, connect_timeout, close_timeout, web_socket, authentication_required, protocol,
  protocol_encoding, outbound_buffer_full, hello_required, hello_already_sent,
  hello_cannot_be_buffered, TransportConfig, ConnectionState, disconnected, connected, is_connected,
}

pub data Frame (Message : Type 0) : Type 0 where
  authentication : (encoded : Text) → Frame Message
  application : (message : Message) → Frame Message
  pong : (payload : Text) → Frame Message

-- What `connect_async_with_config`, `socket.next` and `socket.close` gave under their timeouts.
pub data Dial : Type 0 where
  timed_out refused opened : Dial

pub data Arrival : Type 0 where
  idle ended failed binary pong_frame raw_frame : Arrival
  text_frame ping : (payload : Text) → Arrival
  close_frame : (reason : Option Text) → Arrival

pub data Farewell : Type 0 where
  unanswered broken done : Farewell

-- `body` stands for the fields that only the codec reads; so do the server's messages leave them out.
pub record GatewayAuthenticationResponse : Type 0 where
  pub message_type : Text
  pub body : Text

pub data GatewayAuthenticationServerMessage : Type 0 where
  challenge accepted : (message_type : Text) → GatewayAuthenticationServerMessage
  rejected : (message_type code : Text) → GatewayAuthenticationServerMessage

abbrev pub max_auth_message_bytes : ℕ
max_auth_message_bytes = 16384

-- The message codec and the validation of oppa-protocol, and the library's answer to a send after the
-- frames sent.
pub record Gateway (Message ServerMessage : Type 0) : Type 0 where
  pub is_hello : Message → Bool
  pub encode_agent_message : Message → Option (List ℕ)
  pub from_utf8 : List ℕ → Option Text
  pub encode_response : GatewayAuthenticationResponse → Option Text
  pub response_is_valid : GatewayAuthenticationResponse → Bool
  pub decode_authentication : Text → Option GatewayAuthenticationServerMessage
  pub decode_server : Text → Option ServerMessage
  pub into_client_request : Url → Bool
  pub accepts : List (Frame Message) → Frame Message → Bool

pub record WebSocketTransport (Message : Type 0) : Type 0 where
  pub socket : Option (List (Frame Message))
  pub state : ConnectionState
  pub published : ConnectionState
  pub outbound : List Message
  pub authenticated : Bool
  pub hello_sent : Bool

-- The outcome of a receive: still waiting after the arrivals, or an answer.
pub data Awaited {ℓ} (A : Type ℓ) : Type ℓ where
  waiting : Awaited A
  ready : Result TransportError A → Awaited A

-- The `match result` at the end of `close`.
unfoldable pub farewell : TransportConfig → Farewell → Result TransportError (Unit {0})
farewell config unanswered = err (close_timeout config.connect_timeout)
farewell config broken = err web_socket
farewell config done = ok tt

module _ {Message : Type 0} where
  abbrev pub set_state : ConnectionState → WebSocketTransport Message → WebSocketTransport Message
  set_state state t = record t { state = state; published = state }

  unfoldable pub disconnect : WebSocketTransport Message → WebSocketTransport Message
  disconnect t =
      set_state disconnected (record t { socket = none; authenticated = false; hello_sent = false })

  abbrev pub disconnected_transport : WebSocketTransport Message
  disconnected_transport = record {
    socket = none;
    state = disconnected;
    published = disconnected;
    outbound = [];
    authenticated = false;
    hello_sent = false;
  }

  -- `WebSocketTransport::new`
  unfoldable pub new : TransportConfig → Result TransportError (WebSocketTransport Message)
  new config = do validate config; ok disconnected_transport

  unfoldable pub dialed :
      TransportConfig
      → Dial
      → WebSocketTransport Message
      → Result TransportError (Unit {0}) × WebSocketTransport Message
  dialed config timed_out t =
      (err (connect_timeout config.connect_timeout), set_state disconnected t)
  dialed config refused t = (err web_socket, set_state disconnected t)
  dialed config opened t = (
    ok tt,
    set_state connected (record t { socket = some []; authenticated = false; hello_sent = false }),
  )

  -- The intermediate `Closing` is not seen by a later call: the method has the transport throughout.
  unfoldable pub close :
      TransportConfig
      → Farewell
      → WebSocketTransport Message
      → Result TransportError (Unit {0}) × WebSocketTransport Message
  unfolding disconnect
  close config answer t = elim t.socket [
    | none ↦ (ok tt, disconnect t)
    | some frames ↦ (farewell config answer, disconnect (set_state closing t))
  ]

module _ {Message ServerMessage : Type 0} (gateway : Gateway Message ServerMessage) where
  unfoldable pub connect :
      TransportConfig
      → Dial
      → WebSocketTransport Message
      → Result TransportError (Unit {0}) × WebSocketTransport Message
  unfolding dialed
  connect config dial t =
      if is_some t.socket
      then (err already_connected, t)
      else if not (gateway.into_client_request config.endpoint)
      then (err invalid_configuration, t)
      else dialed config dial (set_state connecting t)

  -- `socket.send` on the open socket.
  unfoldable pub send_frame :
      Frame Message
      → WebSocketTransport Message
      → Result TransportError (WebSocketTransport Message)
  send_frame frame t = elim t.socket [
    | none ↦ err not_connected
    | some frames ↦
        if gateway.accepts frames frame
        then ok (record t { socket = some (frame ∷ frames) })
        else err web_socket
  ]

  unfoldable pub send_encoded :
      Message → WebSocketTransport Message → Result TransportError (WebSocketTransport Message)
  unfolding send_frame
  send_encoded message t = do
    bytes ← ok_or (gateway.encode_agent_message message) protocol
    encoded ← ok_or (gateway.from_utf8 bytes) protocol_encoding
    send_frame (application message) t

  unfoldable pub buffer :
      TransportConfig
      → Message
      → WebSocketTransport Message
      → Result TransportError (WebSocketTransport Message)
  buffer config message t = do
    bytes ← ok_or (gateway.encode_agent_message message) protocol
    ensure (not (gateway.is_hello message)) hello_cannot_be_buffered
    ensure (ltb (length t.outbound) config.outbound_buffer_capacity)
        (outbound_buffer_full config.outbound_buffer_capacity)
    ok (record t { outbound = t.outbound ++ message ∷ [] })

  -- `while let Some(message) = self.outbound.front()`: the messages that wait, and the transport
  -- whose buffer is what was not sent.
  unfoldable pub flush :
      List Message
      → WebSocketTransport Message
      → Result TransportError (Unit {0}) × WebSocketTransport Message
  flush [] t = (ok tt, record t { outbound = [] })
  flush (message ∷ rest) t = elim (send_encoded message t) [
    | err e ↦ (err e, record t { outbound = message ∷ rest })
    | ok sent ↦ flush rest sent
  ]

  unfoldable pub flush_buffer :
      WebSocketTransport Message → Result TransportError (Unit {0}) × WebSocketTransport Message
  unfolding flush
  flush_buffer t = flush t.outbound t

  abbrev pub drop_on_error :
      Result TransportError (Unit {0}) × WebSocketTransport Message
      → Result TransportError (Unit {0}) × WebSocketTransport Message
  drop_on_error (ok _, t) = (ok tt, t)
  drop_on_error (err e, t) = (err e, disconnect t)

  -- The guards of `send`, in the order of the code.
  unfoldable pub may_send : Message → WebSocketTransport Message → Result TransportError (Unit {0})
  may_send message t = do
    ensure (is_connected t.state) not_connected
    ensure t.authenticated authentication_required
    ensure (not (not t.hello_sent && not (gateway.is_hello message))) hello_required
    ensure (not (t.hello_sent && gateway.is_hello message)) hello_already_sent

  unfoldable pub deliver :
      Message
      → WebSocketTransport Message
      → Result TransportError (Unit {0}) × WebSocketTransport Message
  unfolding flush_buffer
  deliver message t = elim (send_encoded message t) [
    | err e ↦ (err e, t)
    | ok sent ↦
        if gateway.is_hello message
        then flush_buffer (record sent { hello_sent = true })
        else (ok tt, sent)
  ]

  unfoldable pub send :
      Message
      → WebSocketTransport Message
      → Result TransportError (Unit {0}) × WebSocketTransport Message
  unfolding may_send
  send message t = elim (may_send message t) [
    | err e ↦ (err e, t)
    | ok _ ↦ drop_on_error (deliver message t)
  ]
