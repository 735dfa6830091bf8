-- ===== src/Renderer/Encoding.antt =====
-- crates/oppa-renderer/src/escpos.rs: render_layout; lib.rs: render_qr and render_barcode. A byte is a
-- number below 256.
use oppa.Common.{
  ℕ, zero, suc, ◌+◌, ◌/◌, ◌%◌, Bool, not, ◌||◌, List, [], ◌∷◌, ◌++◌, Result, ok, ensure, ◌>>=◌,
  ◌>>◌, all, length, ltb, ◌==◌, within, if◌then◌else◌,
}
use oppa.Common.Text.{Text, byte_len}
use oppa.Common.Utf8.{as_bytes, is_ascii}
use oppa.Renderer.{
  RendererError, unicode_requires_rasterization, invalid_barcode, ReceiptWidth, columns,
  TextAlignment, left, center, right, BarcodeFormat, code128, code39, ean13, upca, ReceiptElement,
  text as text_element, row, divider, image, qr, barcode, feed, cut,
}
use oppa.Renderer.Wrapping.{Unicode, repeated, wrap_text, layout_row}

abbrev pub esc : ℕ
esc = 0x1B

abbrev pub gs : ℕ
gs = 0x1D

abbrev pub line_feed : ℕ
line_feed = 0x0A

abbrev pub alignment_code : TextAlignment → ℕ
alignment_code left = 0
alignment_code center = 1
alignment_code right = 2

abbrev pub set {ℓ} : {A : Type ℓ} → List A → ℕ → A → List A
set [] i v = []
set (x ∷ xs) zero v = v ∷ xs
set (x ∷ xs) (suc i) v = x ∷ set xs i v

unfoldable pub require_ascii : Text → Result RendererError (Unit {0})
require_ascii value = ensure (is_ascii value) unicode_requires_rasterization

unfoldable pub render_qr : Text → List ℕ
render_qr value =
    let data_len = byte_len value + 3 in
    gs
    ∷ b'('
    ∷ b'k'
    ∷ 4
    ∷ 0
    ∷ 49
    ∷ 65
    ∷ 50
    ∷ 0
    ∷ gs
    ∷ b'('
    ∷ b'k'
    ∷ 3
    ∷ 0
    ∷ 49
    ∷ 67
    ∷ 6
    ∷ gs
    ∷ b'('
    ∷ b'k'
    ∷ 3
    ∷ 0
    ∷ 49
    ∷ 69
    ∷ 49
    ∷ gs
    ∷ b'('
    ∷ b'k'
    ∷ (data_len % 256)
    ∷ (data_len / 256 % 256)
    ∷ 49
    ∷ 80
    ∷ 48
    ∷ (as_bytes value ++ gs ∷ b'(' ∷ b'k' ∷ 3 ∷ 0 ∷ 49 ∷ 81 ∷ 48 ∷ [])

abbrev pub is_digit : ℕ → Bool
is_digit = within b'0' b'9'

abbrev pub is_code39 : ℕ → Bool
is_code39 b =
    within b'A' b'Z' b
    || is_digit b
    || b == 0x20
    || b == b'-'
    || b == b'.'
    || b == b'$'
    || b == b'/'
    || b == b'+'
    || b == b'%'

-- The `match format` of `render_barcode`: the command and its payload.
unfoldable pub barcode_command : BarcodeFormat → Text → Result RendererError (ℕ × List ℕ)
barcode_command code128 value = do
  ensure (not (not (is_ascii value) || ltb 253 (byte_len value))) invalid_barcode
  ok (73, b'{' ∷ b'B' ∷ as_bytes value)
barcode_command code39 value = do
  ensure (all is_code39 (as_bytes value)) invalid_barcode
  ok (69, as_bytes value)
barcode_command ean13 value = do
  ensure
      (not
        (not (byte_len value == 12 || byte_len value == 13) || not (all is_digit (as_bytes value))))
      invalid_barcode
  ok (67, as_bytes value)
barcode_command upca value = do
  ensure
      (not
        (not (byte_len value == 11 || byte_len value == 12) || not (all is_digit (as_bytes value))))
      invalid_barcode
  ok (65, as_bytes value)

unfoldable pub render_barcode : BarcodeFormat → Text → Result RendererError (List ℕ)
unfolding barcode_command
render_barcode format value = do
  (command, payload) ← barcode_command format value
  ensure (ltb (length payload) 256) invalid_barcode
  ok (gs ∷ b'H' ∷ 2 ∷ gs ∷ b'h' ∷ 80 ∷ gs ∷ b'k' ∷ command ∷ length payload ∷ payload)

abbrev pub lines_bytes : List Text → List ℕ
lines_bytes [] = []
lines_bytes (line ∷ rest) = as_bytes line ++ line_feed ∷ lines_bytes rest

-- The arms of `render_layout`.
unfoldable pub render_element :
    Unicode → ReceiptWidth → ReceiptElement → Result RendererError (List ℕ)
unfolding require_ascii wrap_text layout_row render_qr render_barcode
render_element unicode width (text_element value alignment bold) = do
  require_ascii value
  ok (
      esc
      ∷ b'a'
      ∷ alignment_code alignment
      ∷ esc
      ∷ b'E'
      ∷ (if bold then 1 else 0)
      ∷ (lines_bytes (wrap_text unicode (columns width) value) ++ esc ∷ b'E' ∷ 0 ∷ []))
render_element unicode width (row leading trailing) = do
  require_ascii leading
  require_ascii trailing
  ok (esc ∷ b'a' ∷ 0 ∷ lines_bytes (layout_row unicode leading trailing (columns width)))
render_element unicode width divider = ok (repeated b'-' (columns width) ++ line_feed ∷ [])
render_element unicode width (image i) = ok (
    gs
    ∷ b'v'
    ∷ b'0'
    ∷ 0
    ∷ (i.stride % 256)
    ∷ (i.stride / 256 % 256)
    ∷ (i.height % 256)
    ∷ (i.height / 256 % 256)
    ∷ i.pixels)
render_element unicode width (qr value) = ok (render_qr value)
render_element unicode width (barcode format value height_dots human_readable) = do
  bytes ← render_barcode format value
  ok (set (set bytes 2 (if human_readable then 2 else 0)) 5 height_dots)
render_element unicode width (feed lines) = ok (esc ∷ b'd' ∷ lines ∷ [])
render_element unicode width cut = ok (gs ∷ b'V' ∷ 0 ∷ [])

unfoldable pub render_elements :
    Unicode → ReceiptWidth → List ReceiptElement → Result RendererError (List ℕ)
unfolding render_element
render_elements unicode width [] = ok []
render_elements unicode width (e ∷ es) = do
  bytes ← render_element unicode width e
  rest ← render_elements unicode width es
  ok (bytes ++ rest)

unfoldable pub render_layout :
    Unicode → ReceiptWidth → List ReceiptElement → Result RendererError (List ℕ)
unfolding render_elements
render_layout unicode width elements = do
  bytes ← render_elements unicode width elements
  ok (esc ∷ b'@' ∷ bytes)
