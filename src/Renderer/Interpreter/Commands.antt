-- ===== src/Renderer/Interpreter/Commands.antt =====
-- crates/oppa-renderer/src/escpos.rs: the commands of the interpreter and its loop.
use oppa.Common.{
  ℕ, zero, suc, ◌+◌, ◌*◌, Bool, true, false, not, ◌||◌, ◌&&◌, Option, none, some, List, [], ◌∷◌,
  ◌++◌, Result, ok, err, ensure, ok_or, ◌>>=◌, ◌>>◌, length, ltb, leb, ◌==◌, within, if◌then◌else◌,
}
use oppa.Common.Text.{Text}
use oppa.Common.Utf8.{from_utf8}
use oppa.Renderer.{
  RendererError, invalid_esc_pos, ReceiptWidth, left, center, right, BarcodeFormat, code128, code39,
  ean13, upca, ReceiptImage, from_mono, image, qr, barcode, feed, cut,
}
use oppa.Renderer.Encoding.{esc, gs, line_feed}
use oppa.Renderer.Interpreter.{
  max_raster_bytes, max_qr_bytes, max_text_bytes, EscPosInterpretation, Parser, new_parser, push,
  diagnose, count_feed, unsupported, take_byte, take_payload, flush_text, finish_text_line,
}

abbrev pub Step : Type 0
Step = Parser → Result RendererError Parser

-- The command after ESC or GS.
unfoldable pub next_command : ℕ → Parser → Result RendererError (ℕ × Parser)
unfolding take_byte
next_command command_offset p = do
  (_, past) ← take_byte command_offset p
  (command, q) ← take_byte command_offset past
  ok (command, diagnose (λ d. record d { interpreted_commands = d.interpreted_commands + 1 }) q)

unfoldable pub set_alignment : ℕ → Step
unfolding take_byte
set_alignment at p = do
  (value, q) ← take_byte at p
  ok (
      if value == 0
      then record q { alignment = left }
      else if value == 1
      then record q { alignment = center }
      else if value == 2
      then record q { alignment = right }
      else unsupported at q)

unfoldable pub set_bold : ℕ → Step
unfolding take_byte
set_bold at p = do
  (value, q) ← take_byte at p
  ok (
      if value == 0
      then record q { bold = false }
      else if value == 1
      then record q { bold = true }
      else unsupported at q)

unfoldable pub feed_paper : ℕ → Step
unfolding take_byte
feed_paper at p = do
  (lines, q) ← take_byte at p
  ok (if lines == 0 then unsupported at q else diagnose (count_feed lines) (push (feed lines) q))

abbrev pub escape_command : ℕ → ℕ → Step
escape_command at command p =
    if command == b'@'
    then ok (record p { alignment = left; bold = false; qr_payload = none })
    else if command == b'a'
    then set_alignment at p
    else if command == b'E'
    then set_bold at p
    else if command == b'd'
    then feed_paper at p
    else ok (unsupported at p)

-- `parse_escape`
unfoldable pub parse_escape : ℕ → Step
unfolding flush_text next_command set_alignment set_bold feed_paper
parse_escape at p = do
  flushed ← flush_text p
  (command, q) ← next_command at flushed
  escape_command at command q

abbrev pub push_image : ReceiptImage → Parser → Parser
push_image block p = diagnose (λ d. record d { images = d.images + 1 }) (push (image block) p)

-- The end of `parse_raster_image`, when its header is read.
unfoldable pub raster_block : ℕ → ℕ → ℕ → Step
unfolding take_payload from_mono
raster_block at row_bytes height p = do
  let byte_count = row_bytes * height
  ensure (not (row_bytes == 0 || height == 0 || ltb max_raster_bytes byte_count))
      (invalid_esc_pos at)
  (payload, q) ← take_payload byte_count at p
  block ← from_mono (row_bytes * 8) height payload
  ok (push_image block q)

-- `parse_raster_image`
unfoldable pub raster_size : ℕ → Step
unfolding take_byte raster_block
raster_size at p = do
  (width_low, p1) ← take_byte at p
  (width_high, p2) ← take_byte at p1
  (height_low, p3) ← take_byte at p2
  (height_high, p4) ← take_byte at p3
  raster_block at (width_low + 256 * width_high) (height_low + 256 * height_high) p4

unfoldable pub raster_mode : ℕ → Step
unfolding take_byte raster_size
raster_mode at p = do
  (mode, q) ← take_byte at p
  if not (mode == 0) then ok (unsupported at q) else raster_size at q

unfoldable pub parse_raster_image : ℕ → Step
unfolding take_byte raster_mode
parse_raster_image at p = do
  (subcommand, q) ← take_byte at p
  if not (subcommand == b'0') then ok (unsupported at q) else raster_mode at q

-- Function 81: the stored payload is taken.
abbrev pub print_qr : ℕ → Option Text → Parser → Parser
print_qr at (some value) p =
    diagnose (λ d. record d { qr_codes = d.qr_codes + 1 })
      (push (qr value) (record p { qr_payload = none }))
print_qr at none p = unsupported at p

unfoldable pub store_qr : ℕ → List ℕ → Step
store_qr at bytes p = do
  value ← ok_or (from_utf8 bytes) (invalid_esc_pos at)
  ok (record p { qr_payload = some value })

-- The `match payload[1]`, with the payload from its third byte on.
abbrev pub qr_function : ℕ → ℕ → ℕ → List ℕ → Step
qr_function at function parameter more p =
    let single = length more == 0 in
    if function == 65 && parameter == 50
    then ok p
    else if function == 67 && (single && within 1 16 parameter)
    then ok p
    else if function == 69 && (single && within 48 51 parameter)
    then ok p
    else if function == 80 && parameter == 48
    then store_qr at more p
    else if function == 81 && (single && parameter == 48)
    then ok (print_qr at p.qr_payload p)
    else ok (unsupported at p)

-- The payload of a QR command.
abbrev pub qr_payload_command : ℕ → List ℕ → Step
qr_payload_command at (prefix ∷ function ∷ parameter ∷ more) p =
    if not (prefix == 49) then ok (unsupported at p) else qr_function at function parameter more p
qr_payload_command at _ p = ok (unsupported at p)

unfoldable pub qr_length : ℕ → Step
unfolding take_byte take_payload store_qr
qr_length at p = do
  (length_low, p1) ← take_byte at p
  (length_high, p2) ← take_byte at p1
  let size = length_low + 256 * length_high
  ensure (not (size == 0 || ltb (max_qr_bytes + 3) size)) (invalid_esc_pos at)
  (payload, q) ← take_payload size at p2
  qr_payload_command at payload q

-- `parse_qr_command`
unfoldable pub parse_qr_command : ℕ → Step
unfolding take_byte qr_length
parse_qr_command at p = do
  (function, q) ← take_byte at p
  if not (function == b'k') then ok (unsupported at q) else qr_length at q

unfoldable pub push_barcode : ℕ → BarcodeFormat → List ℕ → Step
push_barcode at format bytes p = do
  value ← ok_or (from_utf8 bytes) (invalid_esc_pos at)
  ok (
      diagnose (λ d. record d { barcodes = d.barcodes + 1 })
        (push (barcode format value p.barcode_height_dots p.barcode_hri) p))

abbrev pub code128_barcode : ℕ → List ℕ → Step
code128_barcode at (a ∷ b ∷ bytes) p =
    if a == b'{' && b == b'B' then push_barcode at code128 bytes p else ok (unsupported at p)
code128_barcode at _ p = ok (unsupported at p)

abbrev pub barcode_of : ℕ → ℕ → List ℕ → Step
barcode_of at command payload p =
    if command == 73
    then code128_barcode at payload p
    else if command == 69
    then push_barcode at code39 payload p
    else if command == 67
    then push_barcode at ean13 payload p
    else if command == 65
    then push_barcode at upca payload p
    else ok (unsupported at p)

-- `parse_barcode`
unfoldable pub parse_barcode : ℕ → Step
unfolding take_byte take_payload push_barcode
parse_barcode at p = do
  (command, p1) ← take_byte at p
  (size, p2) ← take_byte at p1
  (payload, q) ← take_payload size at p2
  barcode_of at command payload q

unfoldable pub set_barcode_text : ℕ → Step
unfolding take_byte
set_barcode_text at p = do
  (value, q) ← take_byte at p
  ok (if ltb 3 value then unsupported at q else record q { barcode_hri = not (value == 0) })

unfoldable pub set_barcode_height : ℕ → Step
unfolding take_byte
set_barcode_height at p = do
  (value, q) ← take_byte at p
  ok (record q { barcode_height_dots = value })

unfoldable pub cut_paper : ℕ → Step
unfolding take_byte
cut_paper at p = do
  (mode, q) ← take_byte at p
  ok (
      if ltb 1 mode
      then unsupported at q
      else diagnose (λ d. record d { cut_requested = true }) (push cut q))

abbrev pub group_command : ℕ → ℕ → Step
group_command at command p =
    if command == b'v'
    then parse_raster_image at p
    else if command == b'('
    then parse_qr_command at p
    else if command == b'H'
    then set_barcode_text at p
    else if command == b'h'
    then set_barcode_height at p
    else if command == b'k'
    then parse_barcode at p
    else if command == b'V'
    then cut_paper at p
    else ok (unsupported at p)

-- `parse_group_separator`
unfoldable pub parse_group_separator : ℕ → Step
unfolding flush_text next_command parse_raster_image parse_qr_command set_barcode_text
    set_barcode_height parse_barcode cut_paper
parse_group_separator at p = do
  flushed ← flush_text p
  (command, q) ← next_command at flushed
  group_command at command q

unfoldable pub push_byte : ℕ → ℕ → Step
push_byte at b p = do
  let q = record p { pending = p.pending ++ b ∷ [] }
  ensure (leb (length q.pending) max_text_bytes) (invalid_esc_pos at)
  ok q

abbrev pub advance : List ℕ → Parser → Parser
advance rest p = record p { rest = rest; offset = p.offset + 1 }

-- The body of the loop of `run`, at a byte and what follows it.
unfoldable pub byte_step : ℕ → List ℕ → Step
unfolding parse_escape parse_group_separator finish_text_line push_byte
byte_step b rest p =
    if b == esc
    then parse_escape p.offset p
    else if b == gs
    then parse_group_separator p.offset p
    else if b == line_feed
    then finish_text_line (advance rest p)
    else if b == 0x0D
    then ok (advance rest p)
    else if within 0x20 0x7E b
    then push_byte p.offset b (advance rest p)
    else ok (unsupported p.offset p)

abbrev pub flush_unless : Bool → Step
flush_unless true p = ok p
flush_unless false p = flush_text p

-- The answer when the loop has ended.
unfoldable pub finish : Parser → Result RendererError EscPosInterpretation
unfolding flush_text
finish p = do
  q ← flush_unless p.stopped p
  ok (record { width = q.width; elements = q.elements; diagnostics = q.diagnostics })

-- The `?` of a round: the loop goes on with the parser.
abbrev pub after_step :
    (Parser → Option (Result RendererError EscPosInterpretation))
    → Result RendererError Parser
    → Option (Result RendererError EscPosInterpretation)
after_step continue (err e) = some (err e)
after_step continue (ok q) = continue q

-- The loop's test and its body, at what is left and whether the parser has stopped.
abbrev pub round :
    (Parser → Option (Result RendererError EscPosInterpretation))
    → Parser
    → List ℕ
    → Bool
    → Option (Result RendererError EscPosInterpretation)
round continue p [] stopped = some (finish p)
round continue p (b ∷ rest) true = some (finish p)
round continue p (b ∷ rest) false = after_step continue (byte_step b rest p)

-- `run`, with fuel for the loop; none where it runs out.
unfoldable pub run : ℕ → Parser → Option (Result RendererError EscPosInterpretation)
unfolding byte_step finish
run zero p = none
run (suc fuel) p = round (run fuel) p p.rest p.stopped

-- `EscPosInterpreter::interpret`: one round for each byte, and one to see the end.
unfoldable pub interpret :
    ReceiptWidth → List ℕ → Option (Result RendererError EscPosInterpretation)
unfolding new_parser run
interpret width bytes = run (suc (length bytes)) (new_parser bytes width)
