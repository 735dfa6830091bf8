-- ===== src/Renderer/RoundTrip/QrCodes.antt =====
-- crates/oppa-renderer/src/escpos.rs: reading back a QR code.
use oppa.Common.{
  ℕ, suc, ◌+◌, ◌*◌, ◌<◌, ◌≤◌, ◌≡◌, refl, ap, ◌∙◌, true, not, ◌||◌, some, none, List, [], ◌∷◌, ◌++◌,
  ok, arith, length, ltb, ◌==◌,
}
use oppa.Common.Text.{Text}
use oppa.Common.Utf8.{is_ascii, from_utf8-ascii, as_bytes-ascii, byte_len-ascii}
use oppa.Renderer.{ReceiptWidth, qr}
use mathlib.Core.List.{append_assoc}
use oppa.Renderer.Encoding.{gs, render_qr}
use oppa.Renderer.Interpreter.{Parser}
use oppa.Renderer.Interpreter.Commands.{store_qr, qr_length, qr_payload_command, after_step, run}
use oppa.Renderer.RoundTrip.Reading.{standing, past, more, Reads, commands}
use oppa.Renderer.RoundTrip.Payloads.{take_payload-append, low_byte, high_byte, two_bytes}

pub qr_length-reads :
    (at low high : ℕ) (payload tail : List ℕ) (q : Parser)
    → low + 256 * high ≡ length payload
    → 0 < length payload
    → length payload ≤ 4099
    → qr_length at (record q { rest = low ∷ high ∷ (payload ++ tail) })
      ≡ qr_payload_command at payload
          (record q { rest = tail; offset = past 2 q.offset + length payload })
unfolding qr_length
qr_length-reads at low high payload tail q e some_bytes short =
    let fits : not (length payload == 0 || ltb (4096 + 3) (length payload)) ≡ true = ground arith in
    rw
      (
        e,
        fits,
        take_payload-append (length payload) at payload tail (record q { offset = past 2 q.offset })
            refl,
      )
      refl

-- One round at a QR command.
pub qr_command-reads :
    (width : ReceiptWidth) (p : Parser) (low high : ℕ) (payload tail : List ℕ) (fuel : ℕ)
    → low + 256 * high ≡ length payload
    → 0 < length payload
    → length payload ≤ 4099
    → run (suc fuel) (standing width p (gs ∷ b'(' ∷ b'k' ∷ low ∷ high ∷ (payload ++ tail)))
      ≡ after_step (run fuel) (
          qr_payload_command p.offset payload (
            standing width
              (record p {
                offset = past 5 p.offset + length payload;
                diagnostics = commands 1 p.diagnostics;
              })
              tail))
unfolding run
qr_command-reads width p low high payload tail fuel e some_bytes short =
    ap (after_step (run fuel)) (
      qr_length-reads p.offset low high payload tail
        (standing width
          (record p { offset = past 3 p.offset; diagnostics = commands 1 p.diagnostics }) [])
        e some_bytes short)

pub store_qr-ascii :
    (at : ℕ) (value : List ℕ) (q : Parser)
    → is_ascii value ≡ true
    → store_qr at value q ≡ ok (record q { qr_payload = some value })
unfolding store_qr
store_qr-ascii at value q ascii = rw (from_utf8-ascii value ascii) refl

pub qr-bytes :
    (value tail : List ℕ)
    → is_ascii value ≡ true
    → render_qr value ++ tail
      ≡ gs
        ∷ b'('
        ∷ b'k'
        ∷ 4
        ∷ 0
        ∷ 49
        ∷ 65
        ∷ 50
        ∷ 0
        ∷ gs
        ∷ b'('
        ∷ b'k'
        ∷ 3
        ∷ 0
        ∷ 49
        ∷ 67
        ∷ 6
        ∷ gs
        ∷ b'('
        ∷ b'k'
        ∷ 3
        ∷ 0
        ∷ 49
        ∷ 69
        ∷ 49
        ∷ gs
        ∷ b'('
        ∷ b'k'
        ∷ low_byte (length value + 3)
        ∷ high_byte (length value + 3)
        ∷ 49
        ∷ 80
        ∷ 48
        ∷ (value ++ gs ∷ b'(' ∷ b'k' ∷ 3 ∷ 0 ∷ 49 ∷ 81 ∷ 48 ∷ tail)
unfolding render_qr
qr-bytes value tail ascii =
    rw (as_bytes-ascii value ascii, byte_len-ascii value ascii, append_assoc) refl

module _ (width : ReceiptWidth) (p : Parser) where
  abbrev pub after_command : ℕ → Parser → Parser
  after_command size q = record q {
    offset = past 5 q.offset + size;
    diagnostics = commands 1 q.diagnostics;
  }

  abbrev pub modelled : Parser
  modelled = after_command 3 (after_command 3 (after_command 4 p))

  pub qr-Reads :
      (value : Text)
      → is_ascii value ≡ true
      → length value ≤ 4096
      → Reads width (qr value) (render_qr value) p
  unfolding run render_qr
  qr-Reads value ascii short =
      let stored : Parser = record (after_command (length (49 ∷ 80 ∷ 48 ∷ value)) modelled) {
        qr_payload = some value;
      } in
      record {
        rounds = 5;
        few = omega arith;
        after = record (after_command 3 stored) {
          elements = p.elements ++ qr value ∷ [];
          qr_payload = none;
          diagnostics = record (commands 5 p.diagnostics) { qr_codes = p.diagnostics.qr_codes + 1 };
        };
        pushed = refl;
        reads = λ tail fuel.
            let print = gs ∷ b'(' ∷ b'k' ∷ 3 ∷ 0 ∷ 49 ∷ 81 ∷ 48 ∷ tail in
            let store =
              gs
              ∷ b'('
              ∷ b'k'
              ∷ low_byte (length value + 3)
              ∷ high_byte (length value + 3)
              ∷ 49
              ∷ 80
              ∷ 48
              ∷ (value ++ print) in
            let level = gs ∷ b'(' ∷ b'k' ∷ 3 ∷ 0 ∷ 49 ∷ 69 ∷ 49 ∷ store in
            let module_size = gs ∷ b'(' ∷ b'k' ∷ 3 ∷ 0 ∷ 49 ∷ 67 ∷ 6 ∷ level in
            ap (λ (bytes : List ℕ). run (more 5 fuel) (standing width p bytes))
              (qr-bytes value tail ascii)
            ∙ qr_command-reads width p 4 0 (49 ∷ 65 ∷ 50 ∷ 0 ∷ []) module_size (more 4 fuel) refl
                (omega arith) (omega arith)
            ∙ qr_command-reads width (after_command 4 p) 3 0 (49 ∷ 67 ∷ 6 ∷ []) level (more 3 fuel)
                refl (omega arith) (omega arith)
            ∙ qr_command-reads width (after_command 3 (after_command 4 p)) 3 0 (49 ∷ 69 ∷ 49 ∷ [])
                store (more 2 fuel) refl (omega arith) (omega arith)
            ∙ qr_command-reads width modelled (low_byte (length value + 3))
                (high_byte (length value + 3)) (49 ∷ 80 ∷ 48 ∷ value) print (more 1 fuel)
                (two_bytes (length value + 3) (omega arith) ∙ omega arith) (omega arith)
                (omega arith)
            ∙ ap (after_step (run (more 1 fuel))) (
                store_qr-ascii modelled.offset value
                  (standing width (after_command (length (49 ∷ 80 ∷ 48 ∷ value)) modelled) print)
                  ascii)
            ∙ qr_command-reads width stored 3 0 (49 ∷ 81 ∷ 48 ∷ []) tail fuel refl (omega arith)
                (omega arith);
      }
