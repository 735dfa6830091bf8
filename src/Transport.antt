-- ===== src/Transport.antt =====
-- crates/oppa-transport/src/lib.rs: the states, errors and data of a gateway connection. A duration
-- is its number of nanoseconds, and an error's message is left out.
pub mod Session
pub mod Receive
pub mod Backoff
pub mod Order
pub mod Calls
pub mod Arrivals
pub mod Reconnecting
pub mod Admission
pub mod Accepting
pub mod Script
pub mod Runs
pub mod Flushing
pub mod Attempts
use oppa.Common.{
  ℕ, Bool, true, false, not, ◌&&◌, ◌||◌, Option, none, some, List, [], ◌∷◌, Result, ok, ensure,
  ◌>>◌, ◌==◌, is_some, any,
}
use oppa.Common.Text.{Text, text, text_eq, is_empty}

pub data TransportError : Type 0 where
  invalid_configuration already_connected not_connected : TransportError
  connect_timeout idle_timeout close_timeout : (duration : ℕ) → TransportError
  web_socket : TransportError
  authentication_rejected : (code : Text) → TransportError
  authentication_required unexpected_authentication_message : TransportError
  closed : (reason : Option Text) → TransportError
  unexpected_frame : (family : Text) → TransportError
  protocol protocol_encoding : TransportError
  outbound_buffer_full : (capacity : ℕ) → TransportError
  hello_required hello_already_sent hello_cannot_be_buffered cancelled : TransportError

unfoldable pub is_retryable : TransportError → Bool
is_retryable (connect_timeout _) = true
is_retryable (idle_timeout _) = true
is_retryable (close_timeout _) = true
is_retryable web_socket = true
is_retryable (closed _) = true
is_retryable _ = false

-- `url::Url`, as far as it is read
pub record Url : Type 0 where
  pub scheme : Text
  pub host_str : Option Text
  pub username : Text
  pub password : Option Text
  pub fragment : Option Text

pub record TransportConfig : Type 0 where
  pub endpoint : Url
  pub connect_timeout : ℕ
  pub idle_timeout : ℕ
  pub outbound_buffer_capacity : ℕ

abbrev pub is_loopback : Option Text → Bool
is_loopback none = false
is_loopback (some host) =
    any (λ name. text_eq host name) (text "localhost" ∷ text "127.0.0.1" ∷ text "::1" ∷ [])

-- `TransportConfig::validate`
unfoldable pub validate : TransportConfig → Result TransportError (Unit {0})
validate config = do
  ensure
      (text_eq config.endpoint.scheme (text "wss")
        || text_eq config.endpoint.scheme (text "ws") && is_loopback config.endpoint.host_str)
      invalid_configuration
  ensure
      (not (
        not (is_empty config.endpoint.username)
        || is_some config.endpoint.password
        || is_some config.endpoint.fragment))
      invalid_configuration
  ensure
      (not (
        config.connect_timeout == 0
        || config.idle_timeout == 0
        || config.outbound_buffer_capacity == 0))
      invalid_configuration

pub data ConnectionState : Type 0 where
  disconnected connecting connected closing : ConnectionState
  backing_off : (attempt : ℕ) (delay : ℕ) → ConnectionState

abbrev pub is_connected : ConnectionState → Bool
is_connected connected = true
is_connected _ = false
