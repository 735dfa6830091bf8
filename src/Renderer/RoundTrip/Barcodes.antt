-- ===== src/Renderer/RoundTrip/Barcodes.antt =====
-- crates/oppa-renderer/src/escpos.rs: reading back a barcode.
use oppa.Common.{
  ℕ, suc, ◌+◌, ◌≡◌, refl, ap, ◌∙◌, Bool, true, false, not, ◌||◌, List, [], ◌∷◌, ◌++◌, ok, ensure,
  arith, all, length, ltb, ◌==◌, if◌then◌else◌, >>=-eq-ok,
}
use oppa.Common.Text.{Text, byte_len}
use oppa.Common.Utf8.{encode_utf8, as_bytes, is_ascii, from_utf8-ascii, as_bytes-ascii}
use oppa.Renderer.{
  invalid_barcode, ReceiptWidth, BarcodeFormat, code128, code39, ean13, upca, barcode,
}
use oppa.Renderer.Encoding.{gs, is_digit, is_code39, barcode_command}
use oppa.Renderer.Interpreter.{Parser, push, diagnose}
use oppa.Renderer.Interpreter.Commands.{parse_barcode, push_barcode, barcode_of, after_step, run}
use oppa.Renderer.RoundTrip.Reading.{standing, past, more, Reads, commands}
use oppa.Renderer.RoundTrip.Payloads.{take_payload-append}

pub encode_utf8-ascii :
    (c : ℕ) (rest : List ℕ)
    → is_ascii (encode_utf8 c ++ rest) ≡ true
    → (ltb c 0x80 ≡ true) × (is_ascii rest ≡ true)
unfolding encode_utf8
encode_utf8-ascii c rest h = ground arith

pub ascii_of_bytes : (s : Text) → is_ascii (as_bytes s) ≡ true → is_ascii s ≡ true
unfolding as_bytes
ascii_of_bytes [] h = refl
ascii_of_bytes (c ∷ s) h =
    let (low, rest) = encode_utf8-ascii c (as_bytes s) h in rw (low, ascii_of_bytes s rest) refl

pub digits-ascii : (bytes : List ℕ) → all is_digit bytes ≡ true → is_ascii bytes ≡ true
digits-ascii [] h = refl
digits-ascii (b ∷ bytes) h = ground (arith, digits-ascii bytes)

pub code39-ascii : (bytes : List ℕ) → all is_code39 bytes ≡ true → is_ascii bytes ≡ true
code39-ascii [] h = refl
code39-ascii (b ∷ bytes) h = ground (arith, code39-ascii bytes)

abbrev pub read_barcode : BarcodeFormat → Text → Parser → Parser
read_barcode format value q =
    diagnose (λ d. record d { barcodes = d.barcodes + 1 })
      (push (barcode format value q.barcode_height_dots q.barcode_hri) q)

pub push_barcode-ascii :
    (at : ℕ) (format : BarcodeFormat) (value : Text) (q : Parser)
    → is_ascii value ≡ true
    → push_barcode at format (as_bytes value) q ≡ ok (read_barcode format value q)
unfolding push_barcode
push_barcode-ascii at format value q ascii =
    rw (as_bytes-ascii value ascii, from_utf8-ascii value ascii) refl

-- What the encoder accepts as a barcode, the interpreter reads back.
pub barcode_command-reads :
    (at command : ℕ) (format : BarcodeFormat) (value : Text) (payload : List ℕ) (q : Parser)
    → barcode_command format value ≡ ok (command, payload)
    → barcode_of at command payload q ≡ ok (read_barcode format value q)
unfolding barcode_command
barcode_command-reads at command code128 value payload q h =
    let (_, accepted, h1) =
      >>=-eq-ok (ensure (not (not (is_ascii value) || ltb 253 (byte_len value))) invalid_barcode) _
        h in
    let e : payload ≡ b'{' ∷ b'B' ∷ as_bytes value = ground (arith, h1) in
    let c : command ≡ 73 = ground (arith, h1) in
    rw (c, e) (push_barcode-ascii at code128 value q (ground (arith, accepted)))
barcode_command-reads at command code39 value payload q h =
    let (_, accepted, h1) =
      >>=-eq-ok (ensure (all is_code39 (as_bytes value)) invalid_barcode) _ h in
    let e : payload ≡ as_bytes value = ground (arith, h1) in
    let c : command ≡ 69 = ground (arith, h1) in
    rw (c, e)
      (push_barcode-ascii at code39 value q
        (ascii_of_bytes value (code39-ascii (as_bytes value) (ground (arith, accepted)))))
barcode_command-reads at command ean13 value payload q h =
    let (_, accepted, h1) =
      >>=-eq-ok
        (ensure
          (not (
            not (byte_len value == 12 || byte_len value == 13)
            || not (all is_digit (as_bytes value))))
          invalid_barcode)
        _ h in
    let e : payload ≡ as_bytes value = ground (arith, h1) in
    let c : command ≡ 67 = ground (arith, h1) in
    rw (c, e)
      (push_barcode-ascii at ean13 value q
        (ascii_of_bytes value (digits-ascii (as_bytes value) (ground (arith, accepted)))))
barcode_command-reads at command upca value payload q h =
    let (_, accepted, h1) =
      >>=-eq-ok
        (ensure
          (not (
            not (byte_len value == 11 || byte_len value == 12)
            || not (all is_digit (as_bytes value))))
          invalid_barcode)
        _ h in
    let e : payload ≡ as_bytes value = ground (arith, h1) in
    let c : command ≡ 65 = ground (arith, h1) in
    rw (c, e)
      (push_barcode-ascii at upca value q
        (ascii_of_bytes value (digits-ascii (as_bytes value) (ground (arith, accepted)))))

pub parse_barcode-reads :
    (at command : ℕ) (format : BarcodeFormat) (value : Text) (payload tail : List ℕ) (q : Parser)
    → barcode_command format value ≡ ok (command, payload)
    → parse_barcode at (record q { rest = command ∷ length payload ∷ (payload ++ tail) })
      ≡ ok (
          read_barcode format value
            (record q { rest = tail; offset = past 2 q.offset + length payload }))
unfolding parse_barcode
parse_barcode-reads at command format value payload tail q h =
    rw
      (take_payload-append (length payload) at payload tail (record q { offset = past 2 q.offset })
        refl)
      (barcode_command-reads at command format value payload
        (record q { rest = tail; offset = past 2 q.offset + length payload }) h)

module _ (width : ReceiptWidth) (p : Parser) where
  pub text_mode-reads :
      (human_readable : Bool) (tail : List ℕ) (fuel : ℕ)
      → run (suc fuel) (standing width p (gs ∷ b'H' ∷ (if human_readable then 2 else 0) ∷ tail))
        ≡ run fuel (
            standing width
              (record p {
                offset = past 3 p.offset;
                barcode_hri = human_readable;
                diagnostics = commands 1 p.diagnostics;
              })
              tail)
  unfolding run
  text_mode-reads true tail fuel = refl
  text_mode-reads false tail fuel = refl

  pub barcode-Reads :
      (format : BarcodeFormat) (value : Text) (height command : ℕ) (human_readable : Bool)
      (payload : List ℕ)
      → barcode_command format value ≡ ok (command, payload)
      → Reads width
          (barcode format value height human_readable)
          (gs
            ∷ b'H'
            ∷ (if human_readable then 2 else 0)
            ∷ gs
            ∷ b'h'
            ∷ height
            ∷ gs
            ∷ b'k'
            ∷ command
            ∷ length payload
            ∷ payload)
          p
  unfolding run
  barcode-Reads format value height command human_readable payload h =
      let header : Parser = record p {
        offset = past 8 p.offset;
        barcode_height_dots = height;
        barcode_hri = human_readable;
        diagnostics = commands 3 p.diagnostics;
      } in
      record {
        rounds = 3;
        few = omega arith;
        after =
            read_barcode format value
              (record header { offset = past 2 header.offset + length payload });
        pushed = refl;
        reads = λ tail fuel.
            text_mode-reads human_readable
              (gs ∷ b'h' ∷ height ∷ gs ∷ b'k' ∷ command ∷ length payload ∷ (payload ++ tail))
              (more 2 fuel)
            ∙ ap (after_step (run fuel)) (
                parse_barcode-reads (past 6 p.offset) command format value payload tail
                  (standing width header []) h);
      }
