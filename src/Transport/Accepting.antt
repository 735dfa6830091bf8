-- ===== src/Transport/Accepting.antt =====
-- crates/oppa-transport/src/lib.rs: the acceptance among what receive_authentication answers.
use oppa.Common.{
  ◌≡◌, Bool, true, false, not, ◌||◌, List, ok, err, arith, Bool-cases, Result-cases, ok_or, ensure,
  leb, >>=-eq-ok, inl, inr,
}
use oppa.Common.Text.{Text, text, text_eq, byte_len}
use oppa.Transport.{TransportConfig, unexpected_authentication_message, is_connected}
use oppa.Transport.Session.{
  Arrival, GatewayAuthenticationServerMessage, challenge, accepted, rejected,
  max_auth_message_bytes, Gateway, WebSocketTransport, Awaited, waiting, ready,
}
use oppa.Transport.Receive.{
  judged, receive_text_frame, authenticated_by, authenticate, authentication_arrived,
  receive_authentication,
}
use oppa.Transport.Admission.{IsAdmitted, text-IsAdmitted}

-- The acceptance of the gateway, among the answers of receive_authentication.
abbrev pub is_acceptance : Awaited GatewayAuthenticationServerMessage → Bool
is_acceptance (ready (ok (accepted message_type))) = text_eq message_type (text "auth.accepted")
is_acceptance _ = false

judged-is_acceptance :
    (message : GatewayAuthenticationServerMessage)
    → judged message ≡ ok true
    → is_acceptance (ready (ok message)) ≡ true
unfolding judged
judged-is_acceptance (challenge message_type) h = absurd (ground (arith, h))
judged-is_acceptance (accepted message_type) h = ground (arith, h)
judged-is_acceptance (rejected message_type code) h = absurd (ground (arith, h))

module _ {Message ServerMessage : Type 0} (gateway : Gateway Message ServerMessage)
    (config : TransportConfig) (heard : Bool) where
  judged_message :
      (encoded : Text) (message : GatewayAuthenticationServerMessage) (acceptance : Bool)
      → authenticated_by gateway encoded ≡ ok (message, acceptance)
      → judged message ≡ ok acceptance
  unfolding authenticated_by
  judged_message encoded message acceptance h =
      let (_, _, h1) =
        >>=-eq-ok
          (ensure (leb (byte_len encoded) max_auth_message_bytes) unexpected_authentication_message)
          _ h in
      let (decoded_message, _, h2) =
        >>=-eq-ok (ok_or (gateway.decode_authentication encoded) unexpected_authentication_message)
          _ h1 in
      let (judgement, judging, h3) = >>=-eq-ok (judged decoded_message) _ h2 in cc (judging, h3)

  abbrev Admitted : Bool → WebSocketTransport Message → Type 0
  Admitted b t = IsAdmitted gateway config b t

  weaker : (b : Bool) (t : WebSocketTransport Message) → Admitted heard t → Admitted (heard || b) t
  weaker b t a = ground (arith, a)

  authenticate-IsAdmitted :
      (encoded : Text) (t : WebSocketTransport Message)
      → Admitted heard t
      → let r = authenticate gateway (authenticated_by gateway encoded) t in
        Admitted (heard || is_acceptance r.0) r.1
  authenticate-IsAdmitted encoded t a = elim (Result-cases (authenticated_by gateway encoded)) [
    | inr (e, refused) ↦ rw refused (weaker false t a)
    | inl ((message, true), admitted) ↦
        rw (admitted, judged-is_acceptance message (judged_message encoded message true admitted))
          (ground arith)
    | inl ((message, false), admitted) ↦ rw admitted (ground (arith, a))
  ]

  arrived-IsAdmitted :
      (r : Awaited Text × WebSocketTransport Message)
      → Admitted heard r.1
      → let answer = authentication_arrived gateway r in
        Admitted (heard || is_acceptance answer.0) answer.1
  arrived-IsAdmitted (waiting, t) a = weaker false t a
  arrived-IsAdmitted (ready (err e), t) a = weaker false t a
  arrived-IsAdmitted (ready (ok encoded), t) a = authenticate-IsAdmitted encoded t a

  pub receive_authentication-IsAdmitted :
      (arrivals : List Arrival) (t : WebSocketTransport Message)
      → Admitted heard t
      → let answer = receive_authentication gateway config arrivals t in
        Admitted (heard || is_acceptance answer.0) answer.1
  unfolding receive_authentication
  receive_authentication-IsAdmitted arrivals t a =
      elim (Bool-cases (not (is_connected t.state) || t.authenticated || t.hello_sent)) [
        | inl early ↦ rw (receive_authentication, early) (weaker false t a)
        | inr expected ↦
            rw (receive_authentication, expected)
              (arrived-IsAdmitted (receive_text_frame gateway config arrivals t)
                (text-IsAdmitted gateway config heard arrivals t a))
      ]
