-- ===== src/Renderer/Interpreter/Rounds.antt =====
-- crates/oppa-renderer/src/escpos.rs: one round of the interpreter's loop.
use oppa.Common.{
  ℕ, suc, ◌+◌, ◌<◌, ◌≡◌, refl, Bool, true, ◌&&◌, some, List, [], ◌∷◌, ◌++◌, Result, ok, err, ensure,
  ◌>>=◌, arith, all, length, leb, ◌==◌, within, Option-cases, inl, inr, ap, sym, ◌∙◌,
}
use oppa.Common.Text.{Text, byte_len}
use oppa.Common.Utf8.{from_utf8, is_ascii, from_utf8-ascii}
use oppa.Renderer.{
  RendererError, invalid_esc_pos, ReceiptWidth, TextAlignment, columns, ReceiptElement, text,
  divider, feed,
}
use oppa.Renderer.Interpreter.{
  EscPosDiagnostics, Parser, count_line, take_byte, flushed, flush_text, line_element, finished,
  finish_text_line,
}
use oppa.Renderer.Interpreter.Commands.{next_command, escape_command, group_command}
use oppa.Renderer.Interpreter.Soundness.{
  Agrees, Notices, IsNext, IsOpen, Gives, >>=-Gives, ensure-Gives, if-both, if-known,
  unsupported-IsNext, like, push-IsOpen,
}
use oppa.Renderer.Interpreter.{split_emitted_row, max_text_bytes}
use oppa.Renderer.Interpreter.Commands.{
  parse_escape, parse_group_separator, push_byte, advance, byte_step, run,
}
use oppa.Renderer.Encoding.{esc, gs, line_feed}
use oppa.Renderer.Interpreter.Stepping.{
  take_byte-below, take_byte-IsOpen, set_alignment-IsNext, set_bold-IsNext, feed_paper-IsNext,
  set_barcode_text-IsNext, set_barcode_height-IsNext, cut_paper-IsNext,
}
use oppa.Renderer.Interpreter.Blocks.{
  parse_raster_image-IsNext, parse_qr_command-IsNext, parse_barcode-IsNext,
}

printable-ascii : (bytes : List ℕ) → all (within 0x20 0x7E) bytes ≡ true → is_ascii bytes ≡ true
printable-ascii [] h = refl
printable-ascii (b ∷ bytes) h = ground (arith, printable-ascii bytes)

pub from_utf8-printable :
    (bytes : List ℕ) → all (within 0x20 0x7E) bytes ≡ true → from_utf8 bytes ≡ some bytes
from_utf8-printable bytes h = from_utf8-ascii bytes (printable-ascii bytes h)

-- A line of text becomes one element of text.
line_element-Notices :
    (width : ReceiptWidth) (alignment : TextAlignment) (bold : Bool) (line : Text)
    (d : EscPosDiagnostics)
    → Notices (line_element width alignment bold line) d (count_line d)
unfolding line_element
line_element-Notices width alignment bold line d =
    if-both (λ e. Notices e d (count_line d))
      (byte_len line == columns width && all (λ b. b == b'-') line) divider _ (ground arith)
      (elim (Option-cases (split_emitted_row line)) [
        | inl whole ↦ rw whole (ground arith)
        | inr ((leading, trailing), split) ↦ rw split (ground arith)
      ])

module _ (total bound at : ℕ) where
  flushed-IsOpen :
      (bytes : List ℕ) (p : Parser)
      → p.pending ≡ bytes
      → IsOpen total bound p
      → Gives at (IsOpen total bound) (flushed p bytes)
  flushed-IsOpen [] p e o = o
  flushed-IsOpen (b ∷ bytes) p e o =
      rw (from_utf8-printable (b ∷ bytes) (ap (all (within 0x20 0x7E)) (sym e) ∙ o.next.printable))
        (push-IsOpen total bound (text (b ∷ bytes) p.alignment p.bold) p _ refl refl refl refl refl
          (ground arith) o)

  flush_text-IsOpen :
      (p : Parser) → IsOpen total bound p → Gives at (IsOpen total bound) (flush_text p)
  unfolding flush_text
  flush_text-IsOpen p o = flushed-IsOpen p.pending p refl o

  finished-IsOpen :
      (bytes : List ℕ) (p : Parser)
      → p.pending ≡ bytes
      → IsOpen total bound p
      → Gives at (IsOpen total bound) (finished p bytes)
  finished-IsOpen [] p e o =
      push-IsOpen total bound (feed 1) p _ refl refl o.next.printable refl refl (ground arith) o
  finished-IsOpen (b ∷ bytes) p e o =
      rw (from_utf8-printable (b ∷ bytes) (ap (all (within 0x20 0x7E)) (sym e) ∙ o.next.printable))
        (push-IsOpen total bound (line_element p.width p.alignment p.bold (b ∷ bytes)) p _ refl refl
          refl refl refl (line_element-Notices p.width p.alignment p.bold (b ∷ bytes) p.diagnostics)
          o)

module _ (total bound at : ℕ) (before : at < total) where
  escape_command-IsNext :
      (command : ℕ) (p : Parser)
      → IsOpen total bound p
      → Gives at (IsNext total bound) (escape_command at command p)
  escape_command-IsNext command p o =
      if-both (Gives at (IsNext total bound)) (command == b'@') _ _
        (like total bound p _ refl refl o.next.printable refl o.next.agrees o).next
        (if-both (Gives at (IsNext total bound)) (command == b'a') _ _
          (set_alignment-IsNext total bound at before p o)
          (if-both (Gives at (IsNext total bound)) (command == b'E') _ _
            (set_bold-IsNext total bound at before p o)
            (if-both (Gives at (IsNext total bound)) (command == b'd') _ _
              (feed_paper-IsNext total bound at before p o)
              (unsupported-IsNext total bound p o at before))))

  group_command-IsNext :
      (command : ℕ) (p : Parser)
      → IsOpen total bound p
      → Gives at (IsNext total bound) (group_command at command p)
  group_command-IsNext command p o =
      if-both (Gives at (IsNext total bound)) (command == b'v') _ _
        (parse_raster_image-IsNext total bound at before p o)
        (if-both (Gives at (IsNext total bound)) (command == b'(') _ _
          (parse_qr_command-IsNext total bound at before p o)
          (if-both (Gives at (IsNext total bound)) (command == b'H') _ _
            (set_barcode_text-IsNext total bound at before p o)
            (if-both (Gives at (IsNext total bound)) (command == b'h') _ _
              (set_barcode_height-IsNext total bound at before p o)
              (if-both (Gives at (IsNext total bound)) (command == b'k') _ _
                (parse_barcode-IsNext total bound at before p o)
                (if-both (Gives at (IsNext total bound)) (command == b'V') _ _
                  (cut_paper-IsNext total bound at before p o)
                  (unsupported-IsNext total bound p o at before))))))

-- A counted command leaves the agreement alone.
counted-Agrees :
    (total : ℕ) (es : List ReceiptElement) (d : EscPosDiagnostics) (stopped : Bool)
    → Agrees total es d stopped
    → Agrees total es (record d { interpreted_commands = d.interpreted_commands + 1 }) stopped
counted-Agrees total es d stopped a = record {
  images_counted = a.images_counted;
  qr_codes_counted = a.qr_codes_counted;
  barcodes_counted = a.barcodes_counted;
  feeds_counted = a.feeds_counted;
  cut_noticed = a.cut_noticed;
  lines_bounded = a.lines_bounded;
  stops = a.stops;
}

module _ (total bound at : ℕ) (before : at < total) where
  -- After ESC or GS, with one byte less to come.
  command-IsNext :
      (command : ℕ → Parser → Result RendererError Parser)
      → ((c : ℕ) (q : Parser) → IsOpen total bound q → Gives at (IsNext total bound) (command c q))
      → (p : Parser) → IsOpen total (suc bound) p
      → Gives at
          (IsNext total bound)
          (flush_text p >>= λ q. next_command at q >>= λ r. command r.0 r.1)
  unfolding next_command
  command-IsNext command run p o =
      >>=-Gives at (IsOpen total (suc bound)) (IsNext total bound) (flush_text p) _
        (flush_text-IsOpen total (suc bound) at p o)
        λ q h.
          >>=-Gives at _ (IsNext total bound) _ _
            (>>=-Gives at _ (λ (r : ℕ × Parser). IsOpen total bound r.1) (take_byte at q) _
              (take_byte-below total (suc bound) at before bound q (omega arith) h)
              λ (r1 : ℕ × Parser) (h1 : IsOpen total bound r1.1).
                >>=-Gives at _ (λ (r : ℕ × Parser). IsOpen total bound r.1) (take_byte at r1.1) _
                  (take_byte-IsOpen total bound at before r1.1 h1)
                  λ (r2 : ℕ × Parser) (h2 : IsOpen total bound r2.1).
                    like total bound r2.1 _ refl refl h2.next.printable refl
                      (counted-Agrees _ _ _ _ h2.next.agrees) h2)
            λ (r : ℕ × Parser) (h3 : IsOpen total bound r.1). run r.0 r.1 h3

advance-IsOpen :
    (total b : ℕ) (rest : List ℕ) (p : Parser)
    → p.rest ≡ b ∷ rest
    → IsOpen total (length (b ∷ rest)) p
    → IsOpen total (length rest) (advance rest p)
advance-IsOpen total b rest p e o = record {
  next = record {
    placed = omega (arith, ap length e, o.next.placed);
    left = λ h. omega arith;
    printable = o.next.printable;
    agrees = o.next.agrees;
  };
  runs = o.runs;
}

-- A parser that has stopped leaves no bytes to read.
stopped-IsNext :
    {bound : ℕ} {p : Parser} (total bound' : ℕ)
    → IsNext total bound p
    → p.stopped ≡ true
    → IsNext total bound' p
stopped-IsNext total bound' n halted = record {
  placed = n.placed;
  left = λ running. cc (halted, running);
  printable = n.printable;
  agrees = n.agrees;
}

all-append_one :
    (test : ℕ → Bool) (bytes : List ℕ) (b : ℕ)
    → all test bytes ≡ true
    → test b ≡ true
    → all test (bytes ++ b ∷ []) ≡ true
all-append_one test [] b h k = ground arith
all-append_one test (x ∷ bytes) b h k = ground (arith, all-append_one test bytes b)

module _ (total bound at : ℕ) (before : at < total) where
  finish_text_line-IsNext :
      (p : Parser) → IsOpen total bound p → Gives at (IsNext total bound) (finish_text_line p)
  unfolding finish_text_line
  finish_text_line-IsNext p o =
      opened (finished p p.pending) (finished-IsOpen total bound at p.pending p refl o)
    where
      opened :
          (r : Result RendererError Parser)
          → Gives at (IsOpen total bound) r
          → Gives at (IsNext total bound) r
      opened (ok q) h = h.next
      opened (err e) h = h

  push_byte-IsNext :
      (b : ℕ) (p : Parser)
      → IsOpen total bound p
      → within 0x20 0x7E b ≡ true
      → Gives at (IsNext total bound) (push_byte at b p)
  unfolding push_byte
  push_byte-IsNext b p o visible =
      let q : Parser = record p { pending = p.pending ++ b ∷ [] } in
      let test = leb (length q.pending) max_text_bytes in
      >>=-Gives at (λ (_ : Unit {0}). test ≡ true) (IsNext total bound)
        (ensure test (invalid_esc_pos at)) (λ _. ok q) (ensure-Gives at test)
        λ _ _.
          (like total bound p q refl refl
            (all-append_one (within 0x20 0x7E) p.pending b o.next.printable visible) refl
            o.next.agrees o).next

-- One round of the loop.
pub byte_step-IsNext :
    (total : ℕ) (b : ℕ) (rest : List ℕ) (p : Parser)
    → p.rest ≡ b ∷ rest
    → IsOpen total (length (b ∷ rest)) p
    → Gives p.offset (IsNext total (length rest)) (byte_step b rest p)
unfolding byte_step parse_escape parse_group_separator
byte_step-IsNext total b rest p e o =
    let before : p.offset < total = omega (arith, ap length e, o.next.placed) in
    let past = advance-IsOpen total b rest p e o in
    if-both (Gives p.offset (IsNext total (length rest))) (b == esc) _ _
      (command-IsNext total (length rest) p.offset before (escape_command p.offset)
        (escape_command-IsNext total (length rest) p.offset before) p o)
      (if-both (Gives p.offset (IsNext total (length rest))) (b == gs) _ _
        (command-IsNext total (length rest) p.offset before (group_command p.offset)
          (group_command-IsNext total (length rest) p.offset before) p o)
        (if-both (Gives p.offset (IsNext total (length rest))) (b == line_feed) _ _
          (finish_text_line-IsNext total (length rest) p.offset before (advance rest p) past)
          (if-both (Gives p.offset (IsNext total (length rest))) (b == 0x0D) _ _ past.next (
            if-known (Gives p.offset (IsNext total (length rest))) (within 0x20 0x7E b) _ _
              (push_byte-IsNext total (length rest) p.offset before b (advance rest p) past)
              (stopped-IsNext total (length rest)
                (unsupported-IsNext total (length (b ∷ rest)) p o p.offset before) refl)))))
