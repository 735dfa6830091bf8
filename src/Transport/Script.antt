-- ===== src/Transport/Script.antt =====
-- crates/oppa-transport/src/lib.rs: the calls of a transport as values, with the answers of the
-- network, and what their runs leave.
use oppa.Common.{ℕ, Bool, false, ◌&&◌, is_some, ◌||◌, List, [], ◌∷◌, Result, ok, err}
use oppa.Transport.{TransportError, TransportConfig}
use oppa.Transport.Session.{
  Dial, Arrival, Farewell, GatewayAuthenticationResponse, Gateway, WebSocketTransport, close,
  connect, buffer, send,
}
use oppa.Transport.Receive.{send_authentication_response, receive_authentication, receive}
use oppa.Transport.Backoff.{ReconnectBackoff, connect_with_backoff}
use oppa.Transport.Accepting.{is_acceptance}

pub data Call (Message : Type 0) : Type 0 where
  dial : Dial → Call Message
  leave : Farewell → Call Message
  enqueue : Message → Call Message
  respond : GatewayAuthenticationResponse → Call Message
  await_authentication : List Arrival → Call Message
  transmit : Message → Call Message
  await_message : List Arrival → Call Message
  reconnect : (ℕ → Result TransportError ℕ) → List (Dial × Bool) → ReconnectBackoff → Call Message

module _ {Message ServerMessage : Type 0} (gateway : Gateway Message ServerMessage)
    (config : TransportConfig) where
  abbrev pub or_same :
      WebSocketTransport Message
      → Result TransportError (WebSocketTransport Message)
      → WebSocketTransport Message
  or_same t (ok t') = t'
  or_same t (err _) = t

  unfoldable pub act : Call Message → WebSocketTransport Message → WebSocketTransport Message
  act (dial answer) t = (connect gateway config answer t).1
  act (leave answer) t = (close config answer t).1
  act (enqueue message) t = or_same t (buffer gateway config message t)
  act (respond response) t = or_same t (send_authentication_response gateway response t)
  act (await_authentication arrivals) t = (receive_authentication gateway config arrivals t).1
  act (transmit message) t = (send gateway message t).1
  act (await_message arrivals) t = (receive gateway config arrivals t).1
  act (reconnect delay_for script backoff) t =
      (connect_with_backoff gateway config delay_for script t backoff).1.0

  unfoldable pub act_all :
      List (Call Message) → WebSocketTransport Message → WebSocketTransport Message
  unfolding act
  act_all [] t = t
  act_all (c ∷ cs) t = act_all cs (act c t)

  -- Whether the acceptance was answered by receive_authentication since the socket was opened: a dial
  -- without a socket and a close begin anew.
  abbrev pub heard_after : Call Message → WebSocketTransport Message → Bool → Bool
  heard_after (await_authentication arrivals) t heard =
      heard || is_acceptance (receive_authentication gateway config arrivals t).0
  heard_after (dial _) t heard = heard && is_some t.socket
  heard_after (reconnect _ _ _) t heard = heard && is_some t.socket
  heard_after (leave _) t heard = false
  heard_after _ t heard = heard

  unfoldable pub heard_all : List (Call Message) → WebSocketTransport Message → Bool → Bool
  unfolding act
  heard_all [] t heard = heard
  heard_all (c ∷ cs) t heard = heard_all cs (act c t) (heard_after c t heard)
