-- ===== src/Renderer.antt =====
-- crates/oppa-renderer/src: the shared receipt layout (page.rs, lib.rs), its ESC/POS encoding and the
-- interpreter of that encoding (escpos.rs). Error messages are left out.
pub mod Wrapping
pub mod Encoding
pub mod Interpreter
pub mod RoundTrip
use oppa.Common.{
  ℕ, ◌+◌, ◌*◌, ◌/◌, Bool, not, ◌||◌, List, Result, ok, err, ensure, ◌>>=◌, ◌>>◌, length, ◌==◌,
}
use oppa.Common.Text.{Text}

-- `RendererError`, its messages left to `to_string`
pub data RendererError : Type 0 where
  invalid_limits invalid_page_options invalid_document : RendererError
  unicode_requires_rasterization invalid_image image_too_large : RendererError
  invalid_barcode output_too_large invalid_raster_page page_overflow : RendererError
  barcode_render invalid_pdf encrypted_pdf pdf_limit_exceeded : RendererError
  invalid_page_range pdf_render rasterization_timed_out : RendererError
  invalid_esc_pos : (offset : ℕ) → RendererError

pub data RenderTarget : Type 0 where
  escpos : RenderTarget
  page : (width_mm height_mm dpi : ℕ) → RenderTarget
  virtual_output : RenderTarget

-- `PageRenderOptions::A4_PORTRAIT`
abbrev pub a4_portrait : RenderTarget
a4_portrait = page 210 297 300

pub data ReceiptWidth : Type 0 where
  mm58 mm80 : ReceiptWidth

abbrev pub columns : ReceiptWidth → ℕ
columns mm58 = 32
columns mm80 = 48

pub data TextAlignment : Type 0 where
  left center right : TextAlignment

pub data BarcodeFormat : Type 0 where
  code128 code39 ean13 upca : BarcodeFormat

pub record ReceiptImage : Type 0 where
  pub width : ℕ
  pub height : ℕ
  pub dpi : ℕ
  pub stride : ℕ
  pub pixels : List ℕ

-- `ReceiptImage::from_mono`; 64 bits have room for the product of two u32.
unfoldable pub from_mono : ℕ → ℕ → List ℕ → Result RendererError ReceiptImage
from_mono width height pixels = do
  let stride = (width + 7) / 8
  ensure (not (width == 0 || height == 0 || not (length pixels == stride * height)))
      invalid_raster_page
  ok (record { width = width; height = height; dpi = 203; stride = stride; pixels = pixels })

pub data ReceiptElement : Type 0 where
  text : (value : Text) (alignment : TextAlignment) (bold : Bool) → ReceiptElement
  row : (leading trailing : Text) → ReceiptElement
  divider : ReceiptElement
  image : ReceiptImage → ReceiptElement
  qr : Text → ReceiptElement
  barcode :
      (format : BarcodeFormat) (value : Text) (height_dots : ℕ) (human_readable : Bool)
      → ReceiptElement
  feed : (lines : ℕ) → ReceiptElement
  cut : ReceiptElement
