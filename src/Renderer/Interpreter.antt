-- ===== src/Renderer/Interpreter.antt =====
-- crates/oppa-renderer/src/escpos.rs: EscPosInterpreter. The parser keeps what is left of the stream
-- beside its offset. An error discards the parser. A command's description is left out.
pub mod Commands
pub mod Soundness
pub mod Stepping
pub mod Blocks
pub mod Rounds
pub mod Running
use oppa.Common.{
  ℕ, zero, suc, ◌+◌, ◌*◌, ◌-◌, Bool, true, false, not, ◌||◌, ◌&&◌, Option, none, some, List, [],
  ◌∷◌, ◌++◌, Result, ok, err, ensure, ok_or, ◌>>=◌, ◌>>◌, all, length, take, drop, ltb, leb, ◌==◌,
  within, if◌then◌else◌,
}
use oppa.Common.Text.{Text, byte_len, is_empty, trim_start, trim_end}
use oppa.Common.Utf8.{from_utf8}
use oppa.Renderer.{
  RendererError, invalid_esc_pos, ReceiptWidth, columns, TextAlignment, left, ReceiptElement, text,
  row, divider, feed,
}

abbrev pub max_raster_bytes : ℕ
max_raster_bytes = 2097152

abbrev pub max_qr_bytes : ℕ
max_qr_bytes = 4096

abbrev pub max_text_bytes : ℕ
max_text_bytes = 262144

-- `EscPosDiagnostics`; of an unsupported command the offset is kept.
pub record EscPosDiagnostics : Type 0 where
  pub interpreted_commands : ℕ
  pub text_lines : ℕ
  pub images : ℕ
  pub qr_codes : ℕ
  pub barcodes : ℕ
  pub feed_lines : ℕ
  pub cut_requested : Bool
  pub unsupported_commands : List ℕ

pub record EscPosInterpretation : Type 0 where
  pub width : ReceiptWidth
  pub elements : List ReceiptElement
  pub diagnostics : EscPosDiagnostics

pub record Parser : Type 0 where
  pub rest : List ℕ
  pub offset : ℕ
  pub width : ReceiptWidth
  pub elements : List ReceiptElement
  pub diagnostics : EscPosDiagnostics
  pub alignment : TextAlignment
  pub bold : Bool
  pub pending : List ℕ
  pub qr_payload : Option Text
  pub barcode_height_dots : ℕ
  pub barcode_hri : Bool
  pub stopped : Bool

-- `Parser::new`
unfoldable pub new_parser : List ℕ → ReceiptWidth → Parser
new_parser bytes width = record {
  rest = bytes;
  offset = 0;
  width = width;
  elements = [];
  diagnostics = record {
    interpreted_commands = 0;
    text_lines = 0;
    images = 0;
    qr_codes = 0;
    barcodes = 0;
    feed_lines = 0;
    cut_requested = false;
    unsupported_commands = [];
  };
  alignment = left;
  bold = false;
  pending = [];
  qr_payload = none;
  barcode_height_dots = 80;
  barcode_hri = true;
  stopped = false;
}

-- `self.layout.elements.push(element)`
abbrev pub push : ReceiptElement → Parser → Parser
push element p = record p { elements = p.elements ++ element ∷ [] }

abbrev pub diagnose : (EscPosDiagnostics → EscPosDiagnostics) → Parser → Parser
diagnose change p = record p { diagnostics = change p.diagnostics }

abbrev pub count_feed : ℕ → EscPosDiagnostics → EscPosDiagnostics
count_feed lines d = record d { feed_lines = d.feed_lines + lines }

-- `unsupported`
abbrev pub unsupported : ℕ → Parser → Parser
unsupported offset p = record p {
  stopped = true;
  diagnostics = record p.diagnostics {
    unsupported_commands = p.diagnostics.unsupported_commands ++ offset ∷ [];
  };
}

abbrev pub taken : ℕ → Parser → List ℕ → Result RendererError (ℕ × Parser)
taken command_offset p [] = err (invalid_esc_pos command_offset)
taken command_offset p (b ∷ rest) = ok (b, record p { rest = rest; offset = p.offset + 1 })

-- `take_byte`
unfoldable pub take_byte : ℕ → Parser → Result RendererError (ℕ × Parser)
take_byte command_offset p = taken command_offset p p.rest

-- `take_payload`
unfoldable pub take_payload : ℕ → ℕ → Parser → Result RendererError (List ℕ × Parser)
take_payload size command_offset p = do
  ensure (leb size (length p.rest)) (invalid_esc_pos command_offset)
  ok (take size p.rest, record p { rest = drop size p.rest; offset = p.offset + size })

abbrev pub flushed : Parser → List ℕ → Result RendererError Parser
flushed p [] = ok p
flushed p (b ∷ bytes) = do
  value ← ok_or (from_utf8 (b ∷ bytes)) (invalid_esc_pos p.offset)
  ok (push (text value p.alignment p.bold) (record p { pending = [] }))

-- `flush_text(false)`
unfoldable pub flush_text : Parser → Result RendererError Parser
flush_text p = flushed p p.pending

abbrev pub close_gap : ℕ → ℕ → Option (ℕ × ℕ) → Option (ℕ × ℕ)
close_gap index spaces selected = if leb 2 spaces then some (index - spaces, index) else selected

-- The loop of `split_emitted_row`: the last run of two spaces or more.
unfoldable pub last_gap : ℕ → ℕ → Option (ℕ × ℕ) → Text → Option (ℕ × ℕ)
last_gap index spaces selected [] = close_gap index spaces selected
last_gap index spaces selected (c ∷ line) =
    let space = c == 0x20 in
    last_gap (index + 1) (if space then spaces + 1 else 0)
      (if space then selected else close_gap index spaces selected) line

-- The line is ASCII, so its bytes are its characters.
unfoldable pub split_emitted_row : Text → Option (Text × Text)
unfolding last_gap
split_emitted_row line = elim (last_gap 0 0 none line) [
  | none ↦ none
  | some (start, end) ↦
      let leading = trim_end (take start line) in
      if is_empty leading then none else some (leading, trim_start (drop end line))
]

-- The element of a finished line.
unfoldable pub line_element : ReceiptWidth → TextAlignment → Bool → Text → ReceiptElement
unfolding split_emitted_row
line_element width alignment bold line =
    if byte_len line == columns width && all (λ b. b == b'-') line
    then divider
    else elim (split_emitted_row line) [
      | some (leading, trailing) ↦ row leading trailing
      | none ↦ text line alignment bold
    ]

abbrev pub count_line : EscPosDiagnostics → EscPosDiagnostics
count_line d = record d { text_lines = d.text_lines + 1 }

abbrev pub finished : Parser → List ℕ → Result RendererError Parser
finished p [] = ok (diagnose (count_feed 1) (push (feed 1) p))
finished p (b ∷ bytes) = do
  line ← ok_or (from_utf8 (b ∷ bytes)) (invalid_esc_pos p.offset)
  ok (
      push (line_element p.width p.alignment p.bold line)
        (diagnose count_line (record p { pending = [] })))

-- `finish_text_line`
unfoldable pub finish_text_line : Parser → Result RendererError Parser
unfolding line_element
finish_text_line p = finished p p.pending
