-- ===== src/Renderer/Interpreter/Blocks.antt =====
-- crates/oppa-renderer/src/escpos.rs: the parser's state after images, QR codes and barcodes.
use oppa.Common.{
  ℕ, ◌+◌, ◌*◌, ◌/◌, ◌<◌, ◌≡◌, refl, true, not, ◌||◌, ◌&&◌, Option, some, none, List, [], ◌∷◌, ok,
  ◌>>=◌, arith, length, ltb, ◌==◌, within,
}
use oppa.Common.Text.{Text}
use oppa.Common.Utf8.{from_utf8}
use oppa.Renderer.{qr, barcode, BarcodeFormat, code128, code39, ean13, upca, from_mono}
use oppa.Renderer.Interpreter.{Parser, max_raster_bytes}
use oppa.Renderer.Interpreter.Commands.{
  push_image, raster_block, raster_size, raster_mode, parse_raster_image, print_qr, store_qr,
  qr_function, qr_payload_command, qr_length, parse_qr_command, push_barcode, code128_barcode,
  barcode_of, parse_barcode,
}
use oppa.Renderer.Interpreter.Soundness.{
  IsNext, IsOpen, Gives, >>=-Gives, ensure-Gives, ok_or-Gives, if-both, unsupported-IsNext, like,
  push-IsOpen,
}
use oppa.Renderer.Interpreter.Stepping.{take_payload-IsOpen, with_byte, unless_unsupported}

-- A raster block of whole bytes fits its payload.
pub from_mono-ok :
    (row_bytes height : ℕ) (payload : List ℕ)
    → not (row_bytes == 0 || height == 0 || ltb max_raster_bytes (row_bytes * height)) ≡ true
    → length payload ≡ row_bytes * height
    → from_mono (row_bytes * 8) height payload
      ≡ ok (record {
        width = row_bytes * 8;
        height = height;
        dpi = 203;
        stride = row_bytes;
        pixels = payload;
      })
unfolding from_mono
from_mono-ok row_bytes height payload h e =
    let whole : (row_bytes * 8 + 7) / 8 ≡ row_bytes = omega arith in rw whole (ground (arith, e))

module _ (total bound at : ℕ) (before : at < total) where
  block-IsNext :
      (row_bytes height : ℕ) (payload : List ℕ) (p : Parser)
      → not (row_bytes == 0 || height == 0 || ltb max_raster_bytes (row_bytes * height)) ≡ true
      → length payload ≡ row_bytes * height
      → IsOpen total bound p
      → Gives at
          (IsNext total bound)
          (from_mono (row_bytes * 8) height payload >>= λ block. ok (push_image block p))
  block-IsNext row_bytes height payload p sized e o =
      rw (from_mono-ok row_bytes height payload sized e)
        (push-IsOpen total bound _ p _ refl refl o.next.printable refl refl (ground arith) o).next

  raster_block-IsNext :
      (row_bytes height : ℕ) (p : Parser)
      → IsOpen total bound p
      → Gives at (IsNext total bound) (raster_block at row_bytes height p)
  unfolding raster_block
  raster_block-IsNext row_bytes height p o =
      >>=-Gives at
        (λ (_ : Unit {0}).
          not (row_bytes == 0 || height == 0 || ltb max_raster_bytes (row_bytes * height)) ≡ true)
        (IsNext total bound) _ _
        (ensure-Gives at
          (not (row_bytes == 0 || height == 0 || ltb max_raster_bytes (row_bytes * height))))
        λ _ sized.
          >>=-Gives at _ (IsNext total bound) _ _
            (take_payload-IsOpen total bound at before (row_bytes * height) p o)
            λ (r : List ℕ × Parser)
                (h : IsOpen total bound r.1 × (length r.0 ≡ row_bytes * height)).
              block-IsNext row_bytes height r.0 r.1 sized h.1 h.0

  pub parse_raster_image-IsNext :
      (p : Parser) → IsOpen total bound p → Gives at (IsNext total bound) (parse_raster_image at p)
  unfolding parse_raster_image raster_mode raster_size
  parse_raster_image-IsNext p o =
      with_byte total bound at before _ p o λ (r : ℕ × Parser) (h : IsOpen total bound r.1).
        unless_unsupported total bound at before (not (r.0 == b'0')) r.1 _ h (
          with_byte total bound at before _ r.1 h
            λ (r1 : ℕ × Parser) (h1 : IsOpen total bound r1.1).
              unless_unsupported total bound at before (not (r1.0 == 0)) r1.1 _ h1 (
                with_byte total bound at before _ r1.1 h1
                  λ (r2 : ℕ × Parser) (h2 : IsOpen total bound r2.1).
                    with_byte total bound at before _ r2.1 h2
                      λ (r3 : ℕ × Parser) (h3 : IsOpen total bound r3.1).
                        with_byte total bound at before _ r3.1 h3
                          λ (r4 : ℕ × Parser) (h4 : IsOpen total bound r4.1).
                            with_byte total bound at before _ r4.1 h4
                              λ (r5 : ℕ × Parser) (h5 : IsOpen total bound r5.1).
                                raster_block-IsNext (r2.0 + 256 * r3.0) (r4.0 + 256 * r5.0) r5.1
                                  h5))

  store_qr-IsNext :
      (bytes : List ℕ) (p : Parser)
      → IsOpen total bound p
      → Gives at (IsNext total bound) (store_qr at bytes p)
  unfolding store_qr
  store_qr-IsNext bytes p o =
      >>=-Gives at (λ (_ : Text). Unit {0}) (IsNext total bound) _ _
        (ok_or-Gives at (from_utf8 bytes))
        λ value _. (like total bound p _ refl refl o.next.printable refl o.next.agrees o).next

  print_qr-IsNext :
      (stored : Option Text) (p : Parser)
      → IsOpen total bound p
      → IsNext total bound (print_qr at stored p)
  print_qr-IsNext (some value) p o =
      (push-IsOpen total bound (qr value) p _ refl refl o.next.printable refl refl (ground arith)
        o).next
  print_qr-IsNext none p o = unsupported-IsNext total bound p o at before

  qr_function-IsNext :
      (function parameter : ℕ) (more : List ℕ) (p : Parser)
      → IsOpen total bound p
      → Gives at (IsNext total bound) (qr_function at function parameter more p)
  qr_function-IsNext function parameter more p o =
      if-both (Gives at (IsNext total bound)) (function == 65 && parameter == 50) _ _ o.next (
        if-both (Gives at (IsNext total bound))
          (function == 67 && (length more == 0 && within 1 16 parameter)) _ _ o.next
          (if-both (Gives at (IsNext total bound))
            (function == 69 && (length more == 0 && within 48 51 parameter)) _ _ o.next
            (if-both (Gives at (IsNext total bound)) (function == 80 && parameter == 48) _ _
              (store_qr-IsNext more p o)
              (if-both (Gives at (IsNext total bound))
                (function == 81 && (length more == 0 && parameter == 48)) _ _
                (print_qr-IsNext p.qr_payload p o)
                (unsupported-IsNext total bound p o at before)))))

  qr_payload_command-IsNext :
      (payload : List ℕ) (p : Parser)
      → IsOpen total bound p
      → Gives at (IsNext total bound) (qr_payload_command at payload p)
  qr_payload_command-IsNext (prefix ∷ function ∷ parameter ∷ more) p o =
      unless_unsupported total bound at before (not (prefix == 49)) p _ o
        (qr_function-IsNext function parameter more p o)
  qr_payload_command-IsNext [] p o = unsupported-IsNext total bound p o at before
  qr_payload_command-IsNext (a ∷ []) p o = unsupported-IsNext total bound p o at before
  qr_payload_command-IsNext (a ∷ b ∷ []) p o = unsupported-IsNext total bound p o at before

  pub parse_qr_command-IsNext :
      (p : Parser) → IsOpen total bound p → Gives at (IsNext total bound) (parse_qr_command at p)
  unfolding parse_qr_command qr_length
  parse_qr_command-IsNext p o =
      with_byte total bound at before _ p o λ (r : ℕ × Parser) (h : IsOpen total bound r.1).
        unless_unsupported total bound at before (not (r.0 == b'k')) r.1 _ h (
          with_byte total bound at before _ r.1 h
            λ (r1 : ℕ × Parser) (h1 : IsOpen total bound r1.1).
              with_byte total bound at before _ r1.1 h1
                λ (r2 : ℕ × Parser) (h2 : IsOpen total bound r2.1).
                  >>=-Gives at _ (IsNext total bound) _ _ (ensure-Gives at _) λ _ _.
                    >>=-Gives at _ (IsNext total bound) _ _
                      (take_payload-IsOpen total bound at before (r1.0 + 256 * r2.0) r2.1 h2)
                      λ (r3 : List ℕ × Parser)
                          (h3 : IsOpen total bound r3.1 × (length r3.0 ≡ r1.0 + 256 * r2.0)).
                        qr_payload_command-IsNext r3.0 r3.1 h3.0)

  push_barcode-IsNext :
      (format : BarcodeFormat) (bytes : List ℕ) (p : Parser)
      → IsOpen total bound p
      → Gives at (IsNext total bound) (push_barcode at format bytes p)
  unfolding push_barcode
  push_barcode-IsNext format bytes p o =
      >>=-Gives at (λ (_ : Text). Unit {0}) (IsNext total bound) _ _
        (ok_or-Gives at (from_utf8 bytes))
        λ value _.
          (push-IsOpen total bound (barcode format value p.barcode_height_dots p.barcode_hri) p _
            refl refl o.next.printable refl refl (ground arith) o).next

  code128_barcode-IsNext :
      (payload : List ℕ) (p : Parser)
      → IsOpen total bound p
      → Gives at (IsNext total bound) (code128_barcode at payload p)
  code128_barcode-IsNext (a ∷ b ∷ bytes) p o =
      if-both (Gives at (IsNext total bound)) (a == b'{' && b == b'B') _ _
        (push_barcode-IsNext code128 bytes p o) (unsupported-IsNext total bound p o at before)
  code128_barcode-IsNext [] p o = unsupported-IsNext total bound p o at before
  code128_barcode-IsNext (a ∷ []) p o = unsupported-IsNext total bound p o at before

  barcode_of-IsNext :
      (command : ℕ) (payload : List ℕ) (p : Parser)
      → IsOpen total bound p
      → Gives at (IsNext total bound) (barcode_of at command payload p)
  barcode_of-IsNext command payload p o =
      if-both (Gives at (IsNext total bound)) (command == 73) _ _
        (code128_barcode-IsNext payload p o)
        (if-both (Gives at (IsNext total bound)) (command == 69) _ _
          (push_barcode-IsNext code39 payload p o)
          (if-both (Gives at (IsNext total bound)) (command == 67) _ _
            (push_barcode-IsNext ean13 payload p o)
            (if-both (Gives at (IsNext total bound)) (command == 65) _ _
              (push_barcode-IsNext upca payload p o)
              (unsupported-IsNext total bound p o at before))))

  pub parse_barcode-IsNext :
      (p : Parser) → IsOpen total bound p → Gives at (IsNext total bound) (parse_barcode at p)
  unfolding parse_barcode
  parse_barcode-IsNext p o =
      with_byte total bound at before _ p o λ (r : ℕ × Parser) (h : IsOpen total bound r.1).
        with_byte total bound at before _ r.1 h λ (r1 : ℕ × Parser) (h1 : IsOpen total bound r1.1).
          >>=-Gives at _ (IsNext total bound) _ _
            (take_payload-IsOpen total bound at before r1.0 r1.1 h1)
            λ (r2 : List ℕ × Parser) (h2 : IsOpen total bound r2.1 × (length r2.0 ≡ r1.0)).
              barcode_of-IsNext r.0 r2.0 r2.1 h2.0
