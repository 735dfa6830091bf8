-- ===== src/Renderer/Interpreter/Running.antt =====
-- crates/oppa-renderer/src/escpos.rs: the whole run of the interpreter, with its diagnostics and errors.
use oppa.Common.{
  ℕ, zero, suc, ◌<◌, ◌≡◌, refl, Bool, true, false, Option, some, List, [], ◌∷◌, Result, ok, err,
  ◌>>=◌, arith, all, length, within, inl, ap, sym, ◌∙◌,
}
use oppa.Renderer.{RendererError, invalid_esc_pos, ReceiptWidth, text}
use oppa.Renderer.Interpreter.{Parser, push, flushed, flush_text}
use oppa.Renderer.Interpreter.Soundness.{Agrees, IsNext, IsOpen, Gives, push-IsOpen}
use oppa.Renderer.Interpreter.{new_parser, push, EscPosInterpretation}
use oppa.Renderer.Interpreter.Commands.{
  byte_step, flush_unless, finish, after_step, round, run, interpret,
}
use oppa.Renderer.Interpreter.Rounds.{from_utf8-printable, byte_step-IsNext}

-- What an interpretation says of its stream: the diagnostics agree with the layout, or the error
-- names an offset within the stream.
abbrev pub IsAccounted : ℕ → Result RendererError EscPosInterpretation → Type 0
IsAccounted total (ok i) = (stopped : Bool) × Agrees total i.elements i.diagnostics stopped
IsAccounted total (err e) = (at : ℕ) × (e ≡ invalid_esc_pos at) × (at < total)

-- The bytes that are left bound themselves.
tighten :
    (total bound : ℕ) (bytes : List ℕ) (p : Parser)
    → p.rest ≡ bytes
    → p.stopped ≡ false
    → IsNext total bound p
    → IsOpen total (length bytes) p
tighten total bound bytes p e running n = record {
  next = record {
    placed = n.placed;
    left = λ h. omega (arith, ap length e);
    printable = n.printable;
    agrees = n.agrees;
  };
  runs = running;
}

flushed-IsAccounted :
    (total bound : ℕ) (bytes : List ℕ) (p : Parser)
    → p.pending ≡ bytes
    → IsOpen total bound p
    → IsAccounted total (
        flushed p bytes >>= λ q.
        ok (record { width = q.width; elements = q.elements; diagnostics = q.diagnostics }))
flushed-IsAccounted total bound [] p e o = (p.stopped, o.next.agrees)
flushed-IsAccounted total bound (b ∷ bytes) p e o =
    rw (from_utf8-printable (b ∷ bytes) (ap (all (within 0x20 0x7E)) (sym e) ∙ o.next.printable)) (
      p.stopped,
      (push-IsOpen total bound (text (b ∷ bytes) p.alignment p.bold) p
          (push (text (b ∷ bytes) p.alignment p.bold) (record p { pending = [] })) refl refl refl
          refl refl (ground arith) o).next.agrees,
    )

flush_unless-IsAccounted :
    (total bound : ℕ) (stopped : Bool) (p : Parser)
    → p.stopped ≡ stopped
    → IsNext total bound p
    → IsAccounted total (
        flush_unless stopped p >>= λ q.
        ok (record { width = q.width; elements = q.elements; diagnostics = q.diagnostics }))
unfolding flush_text
flush_unless-IsAccounted total bound true p e n = (p.stopped, n.agrees)
flush_unless-IsAccounted total bound false p e n =
    flushed-IsAccounted total bound p.pending p refl (record { next = n; runs = e })

finish-IsAccounted :
    (total bound : ℕ) (p : Parser) → IsNext total bound p → IsAccounted total (finish p)
unfolding finish
finish-IsAccounted total bound p n = flush_unless-IsAccounted total bound p.stopped p refl n

-- A run that ends with an accounted answer.
abbrev Ends : ℕ → Option (Result RendererError EscPosInterpretation) → Type 0
Ends total answer =
    (r : Result RendererError EscPosInterpretation) × (answer ≡ some r) × IsAccounted total r

module _ (total : ℕ) (continue : Parser → Option (Result RendererError EscPosInterpretation)) where
  after_step-Ends :
      (at bound : ℕ) (step : Result RendererError Parser)
      → at < total
      → ((q : Parser) → IsNext total bound q → Ends total (continue q))
      → Gives at (IsNext total bound) step
      → Ends total (after_step continue step)
  after_step-Ends at bound (err e) before goes h = (err e, refl, (at, h, before))
  after_step-Ends at bound (ok q) before goes h = goes q h

  round-Ends :
      (bound : ℕ) (p : Parser) (bytes : List ℕ) (stopped : Bool)
      → p.rest ≡ bytes
      → p.stopped ≡ stopped
      → ((smaller : ℕ) (q : Parser)
          → smaller < bound
          → IsNext total smaller q
          → Ends total (continue q))
      → IsNext total bound p
      → Ends total (round continue p bytes stopped)
  round-Ends bound p [] stopped e s goes n = (finish p, refl, finish-IsAccounted total bound p n)
  round-Ends bound p (b ∷ rest) true e s goes n =
      (finish p, refl, finish-IsAccounted total bound p n)
  round-Ends bound p (b ∷ rest) false e s goes n =
      after_step-Ends p.offset (length rest) (byte_step b rest p)
        (omega (arith, ap length e, n.placed))
        (λ q. goes (length rest) q (omega (arith, ap length e, n.left s)))
        (byte_step-IsNext total b rest p e (tighten total bound (b ∷ rest) p e s n))

run-Ends :
    (total bound fuel : ℕ) (p : Parser)
    → IsNext total bound p
    → bound < fuel
    → Ends total (run fuel p)
unfolding run
run-Ends total bound zero p n enough = absurd (omega arith)
run-Ends total bound (suc fuel) p n enough =
    round-Ends total (run fuel) bound p p.rest p.stopped refl refl
      (λ smaller q less next. run-Ends total smaller fuel q next (omega arith)) n

-- Interpretation ends for every stream: the fuel is enough. Then the diagnostics count the images,
-- QR codes, barcodes and fed lines of the layout and tell whether it has a cut, the counted text lines
-- are no more than its elements of text, and at most one unsupported command is recorded, at an offset
-- within the stream; or the error names an offset within the stream, and no other error arises.
pub interpret-IsAccounted :
    (width : ReceiptWidth) (bytes : List ℕ)
    → (r : Result RendererError EscPosInterpretation) × (interpret width bytes ≡ some r)
      × IsAccounted (length bytes) r
unfolding interpret new_parser
interpret-IsAccounted width bytes =
    run-Ends (length bytes) (length bytes) (suc (length bytes)) (new_parser bytes width)
      (record {
        placed = omega arith;
        left = λ h. omega arith;
        printable = refl;
        agrees = record {
          images_counted = refl;
          qr_codes_counted = refl;
          barcodes_counted = refl;
          feeds_counted = refl;
          cut_noticed = refl;
          lines_bounded = omega arith;
          stops = inl (refl, refl);
        };
      })
      (omega arith)
