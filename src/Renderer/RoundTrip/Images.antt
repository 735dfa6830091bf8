-- ===== src/Renderer/RoundTrip/Images.antt =====
-- crates/oppa-renderer/src/escpos.rs: reading back a monochrome image.
use oppa.Common.{
  ℕ, ◌+◌, ◌*◌, ◌<◌, ◌≤◌, ◌≡◌, refl, sym, ap, true, not, ◌||◌, List, [], ◌∷◌, ◌++◌, ok, arith,
  length, ltb, ◌==◌,
}
use oppa.Renderer.{ReceiptWidth, ReceiptImage, image}
use oppa.Renderer.Encoding.{gs}
use oppa.Renderer.Interpreter.{Parser, max_raster_bytes}
use oppa.Renderer.Interpreter.Blocks.{from_mono-ok}
use oppa.Renderer.Interpreter.Commands.{push_image, raster_block, after_step, run}
use oppa.Renderer.RoundTrip.Reading.{standing, past, Reads, commands}
use oppa.Renderer.RoundTrip.Payloads.{take_payload-append, low_byte, high_byte, two_bytes}

-- A monochrome image of whole bytes that the interpreter has room for.
pub record IsRaster (i : ReceiptImage) : Type 0 where
  pub whole_bytes : i.width ≡ i.stride * 8
  pub resolution : i.dpi ≡ 203
  pub packed : length i.pixels ≡ i.stride * i.height
  pub wide : 0 < i.stride
  pub high : 0 < i.height
  pub stride_fits : i.stride < 65536
  pub height_fits : i.height < 65536
  pub pixels_fit : i.stride * i.height ≤ 2097152

pub raster_block-reads :
    (at stride height : ℕ) (pixels tail : List ℕ) (q : Parser)
    → length pixels ≡ stride * height
    → 0 < stride
    → 0 < height
    → stride < 65536
    → height < 65536
    → stride * height ≤ 2097152
    → raster_block at
        (low_byte stride + 256 * high_byte stride)
        (low_byte height + 256 * high_byte height)
        (record q { rest = pixels ++ tail })
      ≡ ok (
          push_image
            (record {
              width = stride * 8;
              height = height;
              dpi = 203;
              stride = stride;
              pixels = pixels;
            })
            (record q { rest = tail; offset = q.offset + stride * height }))
unfolding raster_block
raster_block-reads at stride height pixels tail q packed wide high stride_fits height_fits
      pixels_fit =
    let sized : not (stride == 0 || height == 0 || ltb max_raster_bytes (stride * height)) ≡ true =
      ground arith in
    rw
      (
        two_bytes stride stride_fits,
        two_bytes height height_fits,
        sized,
        take_payload-append (stride * height) at pixels tail q (sym packed),
        from_mono-ok stride height pixels sized packed,
      )
      refl

pub image-Reads :
    (width : ReceiptWidth) (p : Parser) (i : ReceiptImage)
    → IsRaster i
    → Reads width
        (image i)
        (gs
          ∷ b'v'
          ∷ b'0'
          ∷ 0
          ∷ low_byte i.stride
          ∷ high_byte i.stride
          ∷ low_byte i.height
          ∷ high_byte i.height
          ∷ i.pixels)
        p
unfolding run
image-Reads width p i r =
    let block : ReceiptImage = record {
      width = i.stride * 8;
      height = i.height;
      dpi = 203;
      stride = i.stride;
      pixels = i.pixels;
    } in
    let same : block ≡ i = ground (arith, r.whole_bytes, r.resolution) in
    record {
      rounds = 1;
      few = omega arith;
      after = push_image block (record p {
        offset = past 8 p.offset + i.stride * i.height;
        diagnostics = commands 1 p.diagnostics;
      });
      pushed = ap (λ (b : ReceiptImage). p.elements ++ image b ∷ []) same;
      reads = λ tail fuel. ap (after_step (run fuel)) (
          raster_block-reads p.offset i.stride i.height i.pixels tail
            (standing width
              (record p { offset = past 8 p.offset; diagnostics = commands 1 p.diagnostics }) [])
            r.packed r.wide r.high r.stride_fits r.height_fits r.pixels_fit);
    }
