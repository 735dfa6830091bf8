-- ===== src/Printer/Validation.antt =====
-- crates/oppa-printer/src/lib.rs: the validation of a configured printer.
use oppa.Common.{
  ℕ, Bool, true, false, not, ◌&&◌, ◌||◌, Option, some, none, [], ◌∷◌, Result, ok, err, ensure, ◌>>◌,
  leb, ◌==◌,
}
use oppa.Common.Text.{Text, text, text_eq, byte_len, is_empty, trim}
use oppa.Printer.{
  PrinterConnection, system_queue, network, usb, virtual, esc_pos, SubmissionMode, driver, raw,
  VirtualPrinterProfile, esc_pos_receipt, system_driver_page, PrinterRef,
}

pub data PrinterValidationError : Type 0 where
  empty : (field : Text) → PrinterValidationError
  too_long : (field : Text) (maximum : ℕ) → PrinterValidationError
  invalid_host invalid_port missing_provider missing_virtual_profile : PrinterValidationError
  unexpected_virtual_profile incompatible_virtual_mode : PrinterValidationError
  invalid_virtual_profile : PrinterValidationError

-- MAX_PRINTER_NAME_BYTES
abbrev pub max_printer_name_bytes : ℕ
max_printer_name_bytes = 256

unfoldable pub validate_text : Text → Text → ℕ → Result PrinterValidationError (Unit {0})
validate_text field value maximum = do
  ensure (not (is_empty (trim value) || not (text_eq (trim value) value))) (empty field)
  ensure (leb (byte_len value) maximum) (too_long field maximum)

-- `str::starts_with`
abbrev pub starts_with : Text → Text → Bool
starts_with s [] = true
starts_with [] (c ∷ pattern_rest) = false
starts_with (d ∷ s) (c ∷ pattern_rest) = d == c && starts_with s pattern_rest

-- `str::contains`
abbrev pub contains_text : Text → Text → Bool
contains_text [] needle = starts_with [] needle
contains_text (c ∷ s) needle = starts_with (c ∷ s) needle || contains_text s needle

-- `VirtualPrinterProfile::validate`
unfoldable pub validate_profile : VirtualPrinterProfile → Result PrinterValidationError (Unit {0})
validate_profile (esc_pos_receipt width_mm) =
    ensure (width_mm == 58 || width_mm == 80) invalid_virtual_profile
validate_profile (system_driver_page page_width_mm page_height_mm dpi) =
    ensure
      (leb 100 page_width_mm
        && leb page_width_mm 500
        && (leb 100 page_height_mm && leb page_height_mm 500)
        && (leb 72 dpi && leb dpi 600))
      invalid_virtual_profile

-- `PrinterConnection::validate`
unfoldable pub validate_connection : PrinterConnection → Result PrinterValidationError (Unit {0})
unfolding validate_text
validate_connection (system_queue queue_name) =
    validate_text (text "queue name") queue_name max_printer_name_bytes
validate_connection (network host port) = do
  validate_text (text "network host") host 253
  ensure (not (contains_text host (text "://") || contains_text host (text "/"))) invalid_host
  ensure (not (port == 0)) invalid_port
validate_connection (usb vendor_id product_id none) = ok tt
validate_connection (usb vendor_id product_id (some serial_number)) =
    validate_text (text "USB serial number") serial_number 256
validate_connection (virtual printer_id) =
    validate_text (text "virtual printer id") printer_id max_printer_name_bytes

-- The inner `match (profile, self.submission_mode)`.
abbrev pub validate_mode :
    VirtualPrinterProfile → SubmissionMode → Result PrinterValidationError (Unit {0})
validate_mode (esc_pos_receipt width_mm) (raw esc_pos) = ok tt
validate_mode (system_driver_page page_width_mm page_height_mm dpi) driver = ok tt
validate_mode _ _ = err incompatible_virtual_mode

-- The `match (&self.connection, self.virtual_profile)`.
unfoldable pub validate_emulation :
    PrinterConnection
    → Option VirtualPrinterProfile
    → SubmissionMode
    → Result PrinterValidationError (Unit {0})
unfolding validate_profile
validate_emulation (virtual printer_id) (some profile) mode = do
  validate_profile profile
  validate_mode profile mode
validate_emulation (virtual printer_id) none mode = err missing_virtual_profile
validate_emulation _ (some profile) mode = err unexpected_virtual_profile
validate_emulation _ none mode = ok tt

-- `PrinterRef::validate`
unfoldable pub validate_printer : PrinterRef → Result PrinterValidationError (Unit {0})
unfolding validate_text validate_connection validate_emulation
validate_printer printer = do
  validate_text (text "printer display name") printer.display_name max_printer_name_bytes
  validate_connection printer.connection
  validate_emulation printer.connection printer.virtual_profile printer.submission_mode
