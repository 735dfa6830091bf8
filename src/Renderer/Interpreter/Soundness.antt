-- ===== src/Renderer/Interpreter/Soundness.antt =====
-- What every parser state of the interpreter satisfies.
use oppa.Common.{
  ℕ, ◌+◌, ◌<◌, ◌≤◌, ◌≡◌, ◌⊎◌, refl, Bool, true, false, List, [], ◌∷◌, ◌++◌, Result, ok, err, arith,
  all, length, ltb, within, if◌then◌else◌, inl, inr, ap, ◌>>=◌, ensure, ok_or, Option, some, none,
  ◌||◌,
}
use oppa.Common.Counting.{count, count-append}
use oppa.Renderer.{
  RendererError, invalid_esc_pos, ReceiptElement, text, row, divider, image, qr, barcode, feed, cut,
}
use oppa.Renderer.Interpreter.{EscPosDiagnostics, Parser, unsupported}

abbrev pub is_image : ReceiptElement → Bool
is_image (image _) = true
is_image _ = false

abbrev pub is_qr : ReceiptElement → Bool
is_qr (qr _) = true
is_qr _ = false

abbrev pub is_barcode : ReceiptElement → Bool
is_barcode (barcode _ _ _ _) = true
is_barcode _ = false

abbrev pub is_cut : ReceiptElement → Bool
is_cut cut = true
is_cut _ = false

-- A line of text: what a line of the stream can become.
abbrev pub is_line : ReceiptElement → Bool
is_line (text _ _ _) = true
is_line (row _ _) = true
is_line divider = true
is_line _ = false

abbrev pub fed_lines : ReceiptElement → ℕ
fed_lines (feed n) = n
fed_lines _ = 0

abbrev pub all_fed_lines : List ReceiptElement → ℕ
all_fed_lines [] = 0
all_fed_lines (e ∷ es) = fed_lines e + all_fed_lines es

all_fed_lines-append :
    (es : List ReceiptElement) (e : ReceiptElement)
    → all_fed_lines (es ++ e ∷ []) ≡ all_fed_lines es + fed_lines e
all_fed_lines-append [] e = omega arith
all_fed_lines-append (x ∷ es) e = omega (arith, all_fed_lines-append es e)

-- The diagnostics agree with the elements, and interpretation stopped at the unsupported command that
-- is recorded, if there is one.
pub record Agrees (total : ℕ) (elements : List ReceiptElement) (d : EscPosDiagnostics)
    (stopped : Bool) : Type 0 where
  pub images_counted : d.images ≡ count is_image elements
  pub qr_codes_counted : d.qr_codes ≡ count is_qr elements
  pub barcodes_counted : d.barcodes ≡ count is_barcode elements
  pub feeds_counted : d.feed_lines ≡ all_fed_lines elements
  pub cut_noticed : d.cut_requested ≡ ltb 0 (count is_cut elements)
  pub lines_bounded : d.text_lines ≤ count is_line elements
  pub stops :
      ((stopped ≡ false) × (d.unsupported_commands ≡ []))
      ⊎ ((stopped ≡ true) × (at : ℕ) × (d.unsupported_commands ≡ at ∷ []) × (at < total))

-- A parser of a stream of `total` bytes with at most `bound` bytes left.
pub record IsNext (total bound : ℕ) (p : Parser) : Type 0 where
  pub placed : p.offset + length p.rest ≡ total
  pub left : p.stopped ≡ false → length p.rest ≤ bound
  pub printable : all (within 0x20 0x7E) p.pending ≡ true
  pub agrees : Agrees total p.elements p.diagnostics p.stopped

-- One that has not stopped.
pub record IsOpen (total bound : ℕ) (p : Parser) : Type 0 where
  pub next : IsNext total bound p
  pub runs : p.stopped ≡ false

-- An error names the offset; an answer satisfies the predicate.
abbrev pub Gives {ℓ} : {A : Type ℓ} → ℕ → (A → Type 0) → Result RendererError A → Type 0
Gives at P (ok a) = P a
Gives at P (err e) = e ≡ invalid_esc_pos at

pub >>=-Gives {ℓ κ} :
    {A : Type ℓ} {B : Type κ} (at : ℕ) (P : A → Type 0) (Q : B → Type 0)
    (first : Result RendererError A) (next : A → Result RendererError B)
    → Gives at P first
    → ((a : A) → P a → Gives at Q (next a))
    → Gives at Q (first >>= next)
>>=-Gives at P Q (ok a) next h k = k a h
>>=-Gives at P Q (err e) next h k = h

pub ensure-Gives :
    (at : ℕ) (test : Bool)
    → Gives at (λ (_ : Unit {0}). test ≡ true) (ensure test (invalid_esc_pos at))
ensure-Gives at true = refl
ensure-Gives at false = refl

pub ok_or-Gives {ℓ} :
    {A : Type ℓ} (at : ℕ) (o : Option A)
    → Gives at (λ (_ : A). Unit {0}) (ok_or o (invalid_esc_pos at))
ok_or-Gives at (some a) = tt
ok_or-Gives at none = refl

-- Both branches of a test.
pub if-both {ℓ} :
    {A : Type ℓ} (P : A → Type 0) (test : Bool) (x y : A) → P x → P y → P (if test then x else y)
if-both P true x y h k = h
if-both P false x y h k = k

pub if-known {ℓ} :
    {A : Type ℓ} (P : A → Type 0) (test : Bool) (x y : A)
    → (test ≡ true → P x)
    → P y
    → P (if test then x else y)
if-known P true x y h k = h refl
if-known P false x y h k = k

-- Diagnostics with one more element noticed.
abbrev pub Notices : ReceiptElement → EscPosDiagnostics → EscPosDiagnostics → Type 0
Notices e d d' =
    (d'.images ≡ d.images + count is_image (e ∷ []))
    × (d'.qr_codes ≡ d.qr_codes + count is_qr (e ∷ []))
    × (d'.barcodes ≡ d.barcodes + count is_barcode (e ∷ []))
    × (d'.feed_lines ≡ d.feed_lines + fed_lines e)
    × (d'.cut_requested ≡ (d.cut_requested || is_cut e))
    × (d'.text_lines ≤ d.text_lines + count is_line (e ∷ []))
    × (d'.unsupported_commands ≡ d.unsupported_commands)

pub pushed-Agrees :
    (total : ℕ) (es : List ReceiptElement) (e : ReceiptElement) (d d' : EscPosDiagnostics)
    (stopped : Bool)
    → Agrees total es d stopped
    → Notices e d d'
    → Agrees total (es ++ e ∷ []) d' stopped
pushed-Agrees total es e d d' stopped a (images, qrs, barcodes, feeds, cuts, lines, unsupporteds) =
    record {
      images_counted = omega (arith, images, a.images_counted, count-append is_image es (e ∷ []));
      qr_codes_counted = omega (arith, qrs, a.qr_codes_counted, count-append is_qr es (e ∷ []));
      barcodes_counted =
          omega (arith, barcodes, a.barcodes_counted, count-append is_barcode es (e ∷ []));
      feeds_counted = omega (arith, feeds, a.feeds_counted, all_fed_lines-append es e);
      cut_noticed = ground (arith, cuts, a.cut_noticed, count-append is_cut es (e ∷ []));
      lines_bounded = omega (arith, lines, a.lines_bounded, count-append is_line es (e ∷ []));
      stops = rw unsupporteds a.stops;
    }

module _ (total bound : ℕ) (p : Parser) (open_p : IsOpen total bound p) where
  -- An open parser stops at an unsupported command.
  pub unsupported-IsNext : (at : ℕ) → at < total → IsNext total bound (unsupported at p)
  unsupported-IsNext at before = record {
    placed = open_p.next.placed;
    left = λ h. cc;
    printable = open_p.next.printable;
    agrees = record {
      images_counted = open_p.next.agrees.images_counted;
      qr_codes_counted = open_p.next.agrees.qr_codes_counted;
      barcodes_counted = open_p.next.agrees.barcodes_counted;
      feeds_counted = open_p.next.agrees.feeds_counted;
      cut_noticed = open_p.next.agrees.cut_noticed;
      lines_bounded = open_p.next.agrees.lines_bounded;
      stops = inr (refl, at, first_stop open_p.next.agrees.stops, before);
    };
  }
    where
      first_stop :
          ((p.stopped ≡ false) × (p.diagnostics.unsupported_commands ≡ []))
            ⊎ ((p.stopped ≡ true)
                × (at' : ℕ) × (p.diagnostics.unsupported_commands ≡ at' ∷ [])
                × (at' < total))
          → p.diagnostics.unsupported_commands ++ at ∷ [] ≡ at ∷ []
      first_stop (inl (_, nothing)) = rw nothing refl
      first_stop (inr (halted, _, _, _)) = cc (open_p.runs, halted)

module _ (total bound : ℕ) where
  -- A parser with the same place in the stream.
  pub like :
      (p q : Parser)
      → q.rest ≡ p.rest
      → q.offset ≡ p.offset
      → all (within 0x20 0x7E) q.pending ≡ true
      → q.stopped ≡ p.stopped
      → Agrees total q.elements q.diagnostics q.stopped
      → IsOpen total bound p
      → IsOpen total bound q
  like p q rest offset printable stopped agrees o = record {
    next = record {
      placed = omega (arith, ap length rest, offset, o.next.placed);
      left = λ h. omega (arith, ap length rest, o.next.left o.runs);
      printable = printable;
      agrees = agrees;
    };
    runs = cc (stopped, o.runs);
  }

  -- A parser that pushes an element and notices it.
  pub push-IsOpen :
      (e : ReceiptElement) (p q : Parser)
      → q.rest ≡ p.rest
      → q.offset ≡ p.offset
      → all (within 0x20 0x7E) q.pending ≡ true
      → q.stopped ≡ p.stopped
      → q.elements ≡ p.elements ++ e ∷ []
      → Notices e p.diagnostics q.diagnostics
      → IsOpen total bound p
      → IsOpen total bound q
  push-IsOpen e p q rest offset printable stopped elements notices o =
      like p q rest offset printable stopped
        (rw (elements, stopped)
          (pushed-Agrees total p.elements e p.diagnostics q.diagnostics p.stopped o.next.agrees
            notices))
        o
