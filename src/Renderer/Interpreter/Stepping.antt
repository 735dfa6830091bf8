-- ===== src/Renderer/Interpreter/Stepping.antt =====
-- crates/oppa-renderer/src/escpos.rs: the parser's state after each command, and where a command fails.
use oppa.Common.{
  ℕ, suc, ◌<◌, ◌≤◌, ◌≡◌, refl, Bool, true, List, [], ◌∷◌, Result, ok, ◌>>=◌, arith, length, ltb,
  leb, ◌==◌, if◌then◌else◌, length-take, length-drop, ap,
}
use oppa.Renderer.{RendererError, feed, cut}
use oppa.Renderer.Interpreter.{Parser, unsupported, taken, take_byte, take_payload}
use oppa.Renderer.Interpreter.Commands.{
  set_alignment, set_bold, feed_paper, set_barcode_text, set_barcode_height, cut_paper,
}
use oppa.Renderer.Interpreter.Soundness.{
  IsNext, IsOpen, Gives, >>=-Gives, ensure-Gives, if-both, unsupported-IsNext, like, push-IsOpen,
}

module _ (total bound at : ℕ) (before : at < total) where
  taken-IsOpen :
      (target : ℕ) (p : Parser) (bytes : List ℕ)
      → bound ≤ suc target
      → p.rest ≡ bytes
      → IsOpen total bound p
      → Gives at (λ (r : ℕ × Parser). IsOpen total target r.1) (taken at p bytes)
  taken-IsOpen target p [] room e o = refl
  taken-IsOpen target p (b ∷ rest) room e o = record {
    next = record {
      placed = omega (arith, ap length e, o.next.placed);
      left = λ h. omega (arith, ap length e, o.next.left o.runs);
      printable = o.next.printable;
      agrees = o.next.agrees;
    };
    runs = o.runs;
  }

  -- The bound may go down by one with each byte.
  pub take_byte-below :
      (target : ℕ) (p : Parser)
      → bound ≤ suc target
      → IsOpen total bound p
      → Gives at (λ (r : ℕ × Parser). IsOpen total target r.1) (take_byte at p)
  unfolding take_byte
  take_byte-below target p room o = taken-IsOpen target p p.rest room refl o

  pub take_byte-IsOpen :
      (p : Parser)
      → IsOpen total bound p
      → Gives at (λ (r : ℕ × Parser). IsOpen total bound r.1) (take_byte at p)
  take_byte-IsOpen p o = take_byte-below bound p (omega arith) o

  pub take_payload-IsOpen :
      (size : ℕ) (p : Parser)
      → IsOpen total bound p
      → Gives at
          (λ (r : List ℕ × Parser). IsOpen total bound r.1 × (length r.0 ≡ size))
          (take_payload size at p)
  unfolding take_payload
  take_payload-IsOpen size p o =
      >>=-Gives at (λ (_ : Unit {0}). leb size (length p.rest) ≡ true) _ _ _
        (ensure-Gives at (leb size (length p.rest)))
        λ _ enough. (
          record {
            next = record {
              placed = ground (arith, length-drop size p.rest, o.next.placed);
              left = λ h. ground (arith, length-drop size p.rest, o.next.left h);
              printable = o.next.printable;
              agrees = o.next.agrees;
            };
            runs = o.runs;
          },
          ground (arith, length-take size p.rest),
        )

  -- A byte is read, and the rest of the command keeps the parser sound.
  pub with_byte :
      (next : ℕ × Parser → Result RendererError Parser) (p : Parser)
      → IsOpen total bound p
      → ((r : ℕ × Parser) → IsOpen total bound r.1 → Gives at (IsNext total bound) (next r))
      → Gives at (IsNext total bound) (take_byte at p >>= next)
  with_byte next p o k =
      >>=-Gives at _ (IsNext total bound) (take_byte at p) next (take_byte-IsOpen p o) k

  -- Either the command goes on or it is unsupported.
  pub unless_unsupported :
      (test : Bool) (p : Parser) (next : Result RendererError Parser)
      → IsOpen total bound p
      → Gives at (IsNext total bound) next
      → Gives at (IsNext total bound) (if test then ok (unsupported at p) else next)
  unless_unsupported test p next o h =
      if-both (Gives at (IsNext total bound)) test (ok (unsupported at p)) next
        (unsupported-IsNext total bound p o at before) h

  pub set_alignment-IsNext :
      (p : Parser) → IsOpen total bound p → Gives at (IsNext total bound) (set_alignment at p)
  unfolding set_alignment
  set_alignment-IsNext p o = with_byte _ p o λ (r : ℕ × Parser) (h : IsOpen total bound r.1).
      if-both (IsNext total bound) (r.0 == 0) _ _
        (like total bound r.1 _ refl refl h.next.printable refl h.next.agrees h).next
        (if-both (IsNext total bound) (r.0 == 1) _ _
          (like total bound r.1 _ refl refl h.next.printable refl h.next.agrees h).next
          (if-both (IsNext total bound) (r.0 == 2) _ _
            (like total bound r.1 _ refl refl h.next.printable refl h.next.agrees h).next
            (unsupported-IsNext total bound r.1 h at before)))

  pub set_bold-IsNext :
      (p : Parser) → IsOpen total bound p → Gives at (IsNext total bound) (set_bold at p)
  unfolding set_bold
  set_bold-IsNext p o = with_byte _ p o λ (r : ℕ × Parser) (h : IsOpen total bound r.1).
      if-both (IsNext total bound) (r.0 == 0) _ _
        (like total bound r.1 _ refl refl h.next.printable refl h.next.agrees h).next
        (if-both (IsNext total bound) (r.0 == 1) _ _
          (like total bound r.1 _ refl refl h.next.printable refl h.next.agrees h).next
          (unsupported-IsNext total bound r.1 h at before))

  pub feed_paper-IsNext :
      (p : Parser) → IsOpen total bound p → Gives at (IsNext total bound) (feed_paper at p)
  unfolding feed_paper
  feed_paper-IsNext p o = with_byte _ p o λ (r : ℕ × Parser) (h : IsOpen total bound r.1).
      if-both (IsNext total bound) (r.0 == 0) _ _ (unsupported-IsNext total bound r.1 h at before)
        (push-IsOpen total bound (feed r.0) r.1 _ refl refl h.next.printable refl refl
          (ground arith) h).next

  pub set_barcode_text-IsNext :
      (p : Parser) → IsOpen total bound p → Gives at (IsNext total bound) (set_barcode_text at p)
  unfolding set_barcode_text
  set_barcode_text-IsNext p o = with_byte _ p o λ (r : ℕ × Parser) (h : IsOpen total bound r.1).
      if-both (IsNext total bound) (ltb 3 r.0) _ _ (unsupported-IsNext total bound r.1 h at before)
        (like total bound r.1 _ refl refl h.next.printable refl h.next.agrees h).next

  pub set_barcode_height-IsNext :
      (p : Parser) → IsOpen total bound p → Gives at (IsNext total bound) (set_barcode_height at p)
  unfolding set_barcode_height
  set_barcode_height-IsNext p o = with_byte _ p o λ (r : ℕ × Parser) (h : IsOpen total bound r.1).
      (like total bound r.1 _ refl refl h.next.printable refl h.next.agrees h).next

  pub cut_paper-IsNext :
      (p : Parser) → IsOpen total bound p → Gives at (IsNext total bound) (cut_paper at p)
  unfolding cut_paper
  cut_paper-IsNext p o = with_byte _ p o λ (r : ℕ × Parser) (h : IsOpen total bound r.1).
      if-both (IsNext total bound) (ltb 1 r.0) _ _ (unsupported-IsNext total bound r.1 h at before)
        (push-IsOpen total bound cut r.1 _ refl refl h.next.printable refl refl (ground arith)
          h).next
