-- ===== src/Renderer/RoundTrip/Layouts.antt =====
-- crates/oppa-renderer/src/escpos.rs: reading back a layout.
use oppa.Common.{
  ok-inj, ℕ, zero, suc, ◌+◌, ◌-◌, ◌<◌, ◌≤◌, ◌≡◌, refl, sym, ap, ◌∙◌, true, some, List, [], ◌∷◌,
  ◌++◌, ok, ensure, arith, All, length, length-append, ltb, >>=-eq-ok,
}
use oppa.Common.Utf8.{is_ascii}
use oppa.Renderer.{
  invalid_barcode, ReceiptWidth, ReceiptElement, text, row, divider, image, qr, barcode, feed, cut,
}
use oppa.Renderer.Wrapping.{Unicode}
use mathlib.Core.List.{append_assoc, append-nil}
use oppa.Renderer.Encoding.{
  render_element, render_elements, render_layout, barcode_command, render_barcode,
}
use oppa.Renderer.Interpreter.{Parser, EscPosInterpretation, new_parser}
use oppa.Renderer.Interpreter.Commands.{run, interpret}
use oppa.Renderer.RoundTrip.Reading.{
  standing, more, Reads, commands, cut-Reads, feed-Reads, divider-Reads,
}
use oppa.Renderer.RoundTrip.QrCodes.{qr-Reads}
use oppa.Renderer.RoundTrip.Images.{IsRaster, image-Reads}
use oppa.Renderer.RoundTrip.Barcodes.{barcode-Reads}

-- What the encoder writes for these elements, the interpreter can read back.
abbrev pub IsReadable : ReceiptElement → Type 0
IsReadable (text _ _ _) = ⊥
IsReadable (row _ _) = ⊥
IsReadable divider = Unit
IsReadable (image i) = IsRaster i
IsReadable (qr value) = (is_ascii value ≡ true) × (length value ≤ 4096)
IsReadable (barcode _ _ _ _) = Unit
IsReadable (feed lines) = 0 < lines
IsReadable cut = Unit

pub render_element-Reads :
    (unicode : Unicode) (width : ReceiptWidth) (e : ReceiptElement) (bytes : List ℕ) (p : Parser)
    → IsReadable e
    → render_element unicode width e ≡ ok bytes
    → Reads width e bytes p
unfolding render_element render_barcode
render_element-Reads unicode width (text _ _ _) bytes p r h = absurd r
render_element-Reads unicode width (row _ _) bytes p r h = absurd r
render_element-Reads unicode width divider bytes p r h = rw (← ok-inj h) (divider-Reads width p)
render_element-Reads unicode width (image i) bytes p r h = rw (← ok-inj h) (image-Reads width p i r)
render_element-Reads unicode width (qr value) bytes p r h =
    rw (← ok-inj h) (qr-Reads width p value r.0 r.1)
render_element-Reads unicode width (barcode format value height human_readable) bytes p r h =
    let (plain, rendered, h1) = >>=-eq-ok (render_barcode format value) _ h in
    let ((command, payload), accepted, h2) = >>=-eq-ok (barcode_command format value) _ rendered in
    let (_, _, h3) = >>=-eq-ok (ensure (ltb (length payload) 256) invalid_barcode) _ h2 in
    rw (← ok-inj h1, ← ok-inj h3)
      (barcode-Reads width p format value height command human_readable payload accepted)
render_element-Reads unicode width (feed lines) bytes p r h =
    rw (← ok-inj h) (feed-Reads width p lines r)
render_element-Reads unicode width cut bytes p r h = rw (← ok-inj h) (cut-Reads width p)

pub more_add : (rounds slack : ℕ) → more rounds slack ≡ rounds + slack
more_add zero slack = omega arith
more_add (suc rounds) slack = omega (arith, more_add rounds slack)

-- The elements that are read from bytes, with no other element and with fuel to spare.
pub record ReadsAll (width : ReceiptWidth) (es : List ReceiptElement) (bytes : List ℕ) (p : Parser)
    : Type 0 where
  pub after : Parser
  pub pushed : after.elements ≡ p.elements ++ es
  pub reads :
      (fuel : ℕ)
      → length bytes ≤ fuel
      → (left_over : ℕ) × (run fuel (standing width p bytes)
          ≡ run left_over (standing width after []))
        × (fuel ≤ left_over + length bytes)

pub one_more :
    (width : ReceiptWidth) (e : ReceiptElement) (es : List ReceiptElement) (first rest : List ℕ)
    (p : Parser) (one : Reads width e first p)
    → ReadsAll width es rest one.after
    → ReadsAll width (e ∷ es) (first ++ rest) p
one_more width e es first rest p one others = record {
  after = others.after;
  pushed = others.pushed ∙ ap (λ l. l ++ es) one.pushed ∙ append_assoc p.elements (e ∷ []) es;
  reads = λ fuel enough.
      let slack = fuel - one.rounds in
      let total = length-append first rest in
      let split : fuel ≡ more one.rounds slack =
        omega (arith, more_add one.rounds slack, total, enough, one.few) in
      let (left_over, ran, kept) = others.reads slack (omega (arith, total, enough, one.few)) in
      (
        left_over,
        ap (λ (n : ℕ). run n (standing width p (first ++ rest))) split ∙ one.reads rest slack ∙ ran,
        omega (arith, total, kept, one.few),
      );
}

pub ends :
    (width : ReceiptWidth) (q : Parser) (fuel : ℕ)
    → 0 < fuel
    → run fuel (standing width q [])
      ≡ some (ok (record { width = width; elements = q.elements; diagnostics = q.diagnostics }))
unfolding run
ends width q zero h = absurd (omega arith)
ends width q (suc fuel) h = refl

pub render_elements-ReadsAll :
    (unicode : Unicode) (width : ReceiptWidth) (es : List ReceiptElement) (bytes : List ℕ)
    (p : Parser)
    → All IsReadable es
    → render_elements unicode width es ≡ ok bytes
    → ReadsAll width es bytes p
unfolding render_elements
render_elements-ReadsAll unicode width [] bytes p r h = rw (← ok-inj h) (record {
  after = p;
  pushed = sym (append-nil p.elements);
  reads = λ fuel enough. (fuel, refl, omega arith);
})
render_elements-ReadsAll unicode width (e ∷ es) bytes p r h =
    let (first, rendered, h1) = >>=-eq-ok (render_element unicode width e) _ h in
    let (rest, others, h2) = >>=-eq-ok (render_elements unicode width es) _ h1 in
    let one = render_element-Reads unicode width e first p r.0 rendered in
    let all_others = render_elements-ReadsAll unicode width es rest one.after r.1 others in
    rw (← ok-inj h2) (one_more width e es first rest p one all_others)

-- The first command of every layout.
pub begins :
    (width : ReceiptWidth) (inner : List ℕ)
    → interpret width (0x1B ∷ b'@' ∷ inner)
      ≡ run (suc (suc (length inner))) (
          standing width
            (record (new_parser [] width) {
              offset = 2;
              diagnostics = commands 1 (new_parser [] width).diagnostics;
            })
            inner)
unfolding interpret
begins width inner = refl

-- A layout is interpreted as the same elements when the encoder accepts it and each element is a
-- divider, a barcode, a cut, a feed of at least one line, a QR code of an ASCII value of at most 4096
-- bytes, or an image at 203 dots per inch whose width is a positive multiple of 8, whose pixels fill
-- it, and whose size is within the interpreter's limits. Layouts with text or rows are left out.
pub interpret-render_layout :
    (unicode : Unicode) (width : ReceiptWidth) (es : List ReceiptElement) (bytes : List ℕ)
    → All IsReadable es
    → render_layout unicode width es ≡ ok bytes
    → (i : EscPosInterpretation) × (interpret width bytes ≡ some (ok i))
      × (i.elements ≡ es)
      × (i.width ≡ width)
unfolding render_layout new_parser
interpret-render_layout unicode width es bytes r h =
    let (inner, rendered, h1) = >>=-eq-ok (render_elements unicode width es) _ h in
    let start : Parser = record (new_parser [] width) {
      offset = 2;
      diagnostics = commands 1 (new_parser [] width).diagnostics;
    } in
    let all_read = render_elements-ReadsAll unicode width es inner start r rendered in
    let (left_over, ran, kept) = all_read.reads (suc (suc (length inner))) (omega arith) in
    rw (← ok-inj h1) (
      record {
        width = width;
        elements = all_read.after.elements;
        diagnostics = all_read.after.diagnostics;
      },
      begins width inner ∙ ran ∙ ends width all_read.after left_over (omega (arith, kept)),
      all_read.pushed,
      refl,
    )
