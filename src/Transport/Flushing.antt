-- ===== src/Transport/Flushing.antt =====
-- What the buffer sends, in which order, and what it keeps when a send fails.
use oppa.Common.{
  true, sym, ◌∙◌, ◌≡◌, ◌⊎◌, refl, some, List, [], ◌∷◌, ◌++◌, Result, ok, err, arith, ap,
  Result-cases, inl, inr,
}
use mathlib.Core.List.{append-nil}
use oppa.Transport.{TransportError}
use oppa.Transport.Session.{
  Frame, application, Gateway, WebSocketTransport, send_encoded, flush, flush_buffer, may_send,
  deliver, drop_on_error, send,
}
use oppa.Transport.Order.{messages, send_encoded-eq-ok}

module _ {Message ServerMessage : Type 0} (gateway : Gateway Message ServerMessage) where
  -- Newest first, after the messages that were there.
  abbrev pub sent_after : List Message → List Message → List Message
  sent_after [] before = before
  sent_after (m ∷ ms) before = sent_after ms (m ∷ before)

  -- A flush has sent the front of the buffer and kept the rest.
  pub record IsFlushed (buffered : List Message) (before : List (Frame Message))
      (result : Result TransportError (Unit {0})) (after : WebSocketTransport Message)
      : Type 0 where
    pub sent : List Message
    pub kept : buffered ≡ sent ++ after.outbound
    pub frames : List (Frame Message)
    pub there : after.socket ≡ some frames
    pub in_order : messages gateway frames ≡ sent_after sent (messages gateway before)
    pub all_or_failed :
        ((result ≡ ok tt) × (after.outbound ≡ []))
        ⊎ ((e : TransportError) × (m : Message) × (rest : List Message) × (result ≡ err e)
            × (after.outbound ≡ m ∷ rest))

  flush-IsFlushed :
      (buffered : List Message) (t : WebSocketTransport Message) (before : List (Frame Message))
      → t.socket ≡ some before
      → IsFlushed buffered before (flush gateway buffered t).0 (flush gateway buffered t).1
  unfolding flush
  flush-IsFlushed [] t before there = record {
    sent = [];
    kept = refl;
    frames = before;
    there = there;
    in_order = refl;
    all_or_failed = inl (refl, refl);
  }
  flush-IsFlushed (m ∷ rest) t before there = elim (Result-cases (send_encoded gateway m t)) [
    | inr (e, failed) ↦
        rw (flush, failed)
          (record {
            sent = [];
            kept = refl;
            frames = before;
            there = there;
            in_order = refl;
            all_or_failed = inr (e, m, rest, refl, refl);
          })
    | inl (sent, went) ↦
        let (frames, present, e) = send_encoded-eq-ok gateway m t sent went in
        let same : frames ≡ before = ground (arith, present, there) in
        let further =
          flush-IsFlushed rest sent (application m ∷ frames)
            (ap (λ (u : WebSocketTransport Message). u.socket) e) in
        rw (flush, went)
          (record {
            sent = m ∷ further.sent;
            kept = ap (◌∷◌ m) further.kept;
            frames = further.frames;
            there = further.there;
            in_order = rw (← same) further.in_order;
            all_or_failed = further.all_or_failed;
          })
  ]

  -- A flush sends the buffered messages oldest first and keeps exactly those that it did not send:
  -- none when it succeeds, and the one that failed with all after it otherwise.
  pub flush_buffer-IsFlushed :
      (t : WebSocketTransport Message) (before : List (Frame Message))
      → t.socket ≡ some before
      → IsFlushed t.outbound before (flush_buffer gateway t).0 (flush_buffer gateway t).1
  unfolding flush_buffer
  flush_buffer-IsFlushed t before there = flush-IsFlushed t.outbound t before there

  not_dropped :
      (r : Result TransportError (Unit {0}) × WebSocketTransport Message)
      → (drop_on_error gateway r).0 ≡ ok tt
      → (r.0 ≡ ok tt) × ((drop_on_error gateway r).1 ≡ r.1)
  not_dropped (ok _, t) h = (refl, refl)
  not_dropped (err e, t) h = cc

  -- What `deliver` has left after a hello.
  abbrev pub IsGreeted :
      Message → List Message → List (Frame Message) → WebSocketTransport Message → Type 0
  IsGreeted m buffered before after =
      (frames : List (Frame Message)) × (after.socket ≡ some frames)
      × (messages gateway frames ≡ sent_after buffered (m ∷ messages gateway before))
      × (after.outbound ≡ [])

  deliver-IsGreeted :
      (m : Message) (t : WebSocketTransport Message) (before : List (Frame Message))
      → t.socket ≡ some before
      → gateway.is_hello m ≡ true
      → (deliver gateway m t).0 ≡ ok tt
      → IsGreeted m t.outbound before (deliver gateway m t).1
  unfolding deliver flush_buffer
  deliver-IsGreeted m t before there first done = elim (Result-cases (send_encoded gateway m t)) [
    | inr (e, failed) ↦ absurd (cc (rw (deliver, failed) at done))
    | inl (sent, went) ↦
        let (frames, present, e) = send_encoded-eq-ok gateway m t sent went in
        let same : frames ≡ before = ground (arith, present, there) in
        let greeted : WebSocketTransport Message = record sent { hello_sent = true } in
        let f =
          flush-IsFlushed sent.outbound greeted (application m ∷ frames)
            (ap (λ (u : WebSocketTransport Message). u.socket) e) in
        let buffered : sent.outbound ≡ t.outbound =
          ap (λ (u : WebSocketTransport Message). u.outbound) e in
        elim f.all_or_failed [
          | inr (x, n, rest, broke, _) ↦
              absurd (ground (arith, rw (deliver, went, first) at done, broke))
          | inl (_, emptied) ↦
              let all_sent : f.sent ≡ t.outbound =
                sym (append-nil f.sent)
                ∙ ap (λ ms. f.sent ++ ms) (sym emptied)
                ∙ sym f.kept
                ∙ buffered in
              rw (deliver, went, first)
                (f.frames, f.there, f.in_order ∙ cc (all_sent, same), emptied)
        ]
  ]

  -- After a successful send of a hello, the hello is followed on the socket by the whole buffer,
  -- oldest first, and nothing stays in the buffer.
  pub send-IsGreeted :
      (m : Message) (t : WebSocketTransport Message) (before : List (Frame Message))
      → t.socket ≡ some before
      → gateway.is_hello m ≡ true
      → (send gateway m t).0 ≡ ok tt
      → IsGreeted m t.outbound before (send gateway m t).1
  unfolding send
  send-IsGreeted m t before there first done = elim (Result-cases (may_send gateway m t)) [
    | inr (e, refused) ↦ absurd (cc (rw (send, refused) at done))
    | inl (_, may) ↦
        let (delivered, kept) = not_dropped (deliver gateway m t) (rw (send, may) at done) in
        rw (send, may) (rw kept (deliver-IsGreeted m t before there first delivered))
  ]
