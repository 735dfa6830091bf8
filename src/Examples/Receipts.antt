-- ===== src/Examples/Receipts.antt =====
-- Receipts as bytes.
use oppa.Common.{
  ℕ, length, List, [], ◌∷◌, ◌++◌, map, some, ok, true, false, ◌≡◌, refl, Result, arith,
}
use oppa.Common.Text.{text}
use oppa.Renderer.{
  RendererError, mm58, left, ReceiptElement, text as text_element, divider, feed, cut, qr,
}
use oppa.Renderer.Wrapping.{Unicode}
use oppa.Renderer.Encoding.{render_layout}
use oppa.Renderer.Interpreter.{EscPosInterpretation}
use oppa.Renderer.Interpreter.Commands.{interpret}
use oppa.Renderer.Interpreter.Running.{IsAccounted, interpret-IsAccounted}
use oppa.Renderer.RoundTrip.Layouts.{interpret-render_layout}

-- ESC @, a line, a cut.
abbrev bytes_1 : List ℕ
bytes_1 = 0x1B ∷ b'@' ∷ (text "hi" ++ 10 ∷ 0x1D ∷ b'V' ∷ 0 ∷ [])

abbrev interpretation_1 : EscPosInterpretation
interpretation_1 = record {
  width = mm58;
  elements = text_element (text "hi") left false ∷ cut ∷ [];
  diagnostics = record {
    interpreted_commands = 2;
    text_lines = 1;
    images = 0;
    qr_codes = 0;
    barcodes = 0;
    feed_lines = 0;
    cut_requested = true;
    unsupported_commands = [];
  };
}

interpreted_1 : interpret mm58 bytes_1 ≡ some (ok interpretation_1)
unfolding interpret oppa.Common.Utf8.from_utf8
interpreted_1 = refl

interpret-IsAccounted_example :
    (r : Result RendererError EscPosInterpretation) × (interpret mm58 bytes_1 ≡ some r)
    × IsAccounted 8 r
interpret-IsAccounted_example = interpret-IsAccounted mm58 bytes_1

abbrev narrow : Unicode
narrow = record { width = length; graphemes = map (λ c. c ∷ []) }

abbrev layout_1 : List ReceiptElement
layout_1 = divider ∷ feed 2 ∷ qr (text "A1") ∷ cut ∷ []

abbrev encoded_1 : List ℕ
encoded_1 =
    0x1B
    ∷ b'@'
    ∷ (text "--------------------------------"
        ++ 10 ∷ 0x1B ∷ b'd' ∷ 2 ∷ 0x1D ∷ b'(' ∷ b'k' ∷ 4 ∷ 0 ∷ 49 ∷ 65 ∷ 50 ∷ 0 ∷ 0x1D ∷ b'(' ∷ b'k'
          ∷ 3 ∷ 0 ∷ 49 ∷ 67 ∷ 6 ∷ 0x1D ∷ b'(' ∷ b'k' ∷ 3 ∷ 0 ∷ 49 ∷ 69 ∷ 49 ∷ 0x1D ∷ b'(' ∷ b'k' ∷ 5
          ∷ 0 ∷ 49 ∷ 80 ∷ 48 ∷ b'A' ∷ b'1' ∷ 0x1D ∷ b'(' ∷ b'k' ∷ 3 ∷ 0 ∷ 49 ∷ 81 ∷ 48 ∷ 0x1D ∷ b'V'
          ∷ 0 ∷ [])

interpret-render_layout_example :
    (i : EscPosInterpretation) × (interpret mm58 encoded_1 ≡ some (ok i))
    × (i.elements ≡ layout_1)
    × (i.width ≡ mm58)
unfolding render_layout oppa.Common.Utf8.as_bytes
interpret-render_layout_example =
    interpret-render_layout narrow mm58 layout_1 encoded_1
      (tt, (omega arith, ((refl, omega arith), (tt, tt)))) refl
