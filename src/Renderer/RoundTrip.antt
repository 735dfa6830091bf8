-- ===== src/Renderer/RoundTrip.antt =====
-- What the encoder writes for commands, the interpreter reads back.
pub mod Reading
pub mod Payloads
pub mod QrCodes
pub mod Images
pub mod Barcodes
pub mod Layouts
