-- ===== src/Examples/Gateways.antt =====
-- Runs of the transport with a gateway that accepts the agent.
use oppa.Common.{ℕ, ◌≡◌, refl, Bool, true, false, none, some, List, [], ◌∷◌, ok, arith, Result}
use oppa.Common.Text.{Text, text, text_eq}
use oppa.Transport.{TransportConfig, TransportError, connected}
use oppa.Transport.Session.{
  Dial, opened, refused, text_frame, Gateway, WebSocketTransport, accepted, disconnected_transport,
  flush_buffer, may_send, send_encoded, send_frame, flush, deliver, send,
}
use oppa.Transport.Order.{IsSession}
use oppa.Transport.Admission.{IsAdmitted}
use oppa.Transport.Script.{
  Call, dial, enqueue, await_authentication, transmit, reconnect, act_all, heard_all,
}
use oppa.Transport.Runs.{calls-IsSession}
use oppa.Transport.Flushing.{IsFlushed, IsGreeted, flush_buffer-IsFlushed, send-IsGreeted}
use oppa.Transport.Backoff.{connect_with_backoff}
use oppa.Transport.Attempts.{is_waiting, connect_with_backoff_settles}

abbrev gateway : Gateway Text Text
gateway = record {
  is_hello = λ m. text_eq m (text "hello");
  encode_agent_message = some;
  from_utf8 = some;
  encode_response = λ response. some response.body;
  response_is_valid = λ response. true;
  decode_authentication = λ t. some (accepted (text "auth.accepted"));
  decode_server = some;
  into_client_request = λ url. true;
  accepts = λ frames frame. true;
}

abbrev config : TransportConfig
config = record {
  endpoint = record {
    scheme = text "wss";
    host_str = some (text "example.org");
    username = [];
    password = none;
    fragment = none;
  };
  connect_timeout = 10;
  idle_timeout = 60;
  outbound_buffer_capacity = 4;
}

abbrev outage : List (Dial × Bool)
outage = (refused, false) ∷ (refused, false) ∷ (refused, false) ∷ []

abbrev one_second : ℕ → Result TransportError ℕ
one_second attempt = ok 1000000000

abbrev greeting : List (Call Text)
greeting =
    enqueue (text "inventory")
    ∷ reconnect one_second outage (record { maximum_attempts = some 2; attempts = 0 })
    ∷ dial opened
    ∷ await_authentication (text_frame [] ∷ [])
    ∷ transmit (text "hello")
    ∷ []

calls-IsSession_example :
    IsSession gateway config (act_all gateway config greeting disconnected_transport)
    × IsAdmitted gateway config
        (heard_all gateway config greeting disconnected_transport false)
        (act_all gateway config greeting disconnected_transport)
calls-IsSession_example = calls-IsSession gateway config greeting

abbrev open_transport : WebSocketTransport Text
open_transport = record {
  socket = some [];
  state = connected;
  published = connected;
  outbound = text "inventory" ∷ text "status" ∷ [];
  authenticated = true;
  hello_sent = true;
}

flush_buffer-IsFlushed_example :
    IsFlushed gateway
      (text "inventory" ∷ text "status" ∷ [])
      []
      (flush_buffer gateway open_transport).0
      (flush_buffer gateway open_transport).1
flush_buffer-IsFlushed_example = flush_buffer-IsFlushed gateway open_transport [] refl

abbrev admitted_transport : WebSocketTransport Text
admitted_transport = record open_transport { hello_sent = false }

send-IsGreeted_example :
    IsGreeted gateway
      (text "hello")
      (text "inventory" ∷ text "status" ∷ [])
      []
      (send gateway (text "hello") admitted_transport).1
unfolding send deliver flush_buffer flush send_encoded send_frame may_send
send-IsGreeted_example = send-IsGreeted gateway (text "hello") admitted_transport [] refl refl refl

connect_with_backoff_settles_example :
    is_waiting
      (connect_with_backoff gateway config one_second outage disconnected_transport
        (record { maximum_attempts = some 2; attempts = 0 })).0
    ≡ false
connect_with_backoff_settles_example =
    connect_with_backoff_settles gateway config one_second 2 outage disconnected_transport
      (record { maximum_attempts = some 2; attempts = 0 }) refl (omega arith) (omega arith)
      (omega arith)
