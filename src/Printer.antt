-- ===== src/Printer.antt =====
-- crates/oppa-printer/src/lib.rs: a configured printer, its connection and how it is submitted to.
pub mod Validation
use oppa.Common.{ℕ, Bool, Option}
use oppa.Common.Text.{Text}

pub data PrinterConnection : Type 0 where
  system_queue : (queue_name : Text) → PrinterConnection
  network : (host : Text) (port : ℕ) → PrinterConnection
  usb : (vendor_id product_id : ℕ) (serial_number : Option Text) → PrinterConnection
  virtual : (printer_id : Text) → PrinterConnection

pub data PrinterLanguage : Type 0 where
  esc_pos : PrinterLanguage

pub data SubmissionMode : Type 0 where
  driver : SubmissionMode
  raw : PrinterLanguage → SubmissionMode

pub data VirtualPrinterProfile : Type 0 where
  esc_pos_receipt : (width_mm : ℕ) → VirtualPrinterProfile
  system_driver_page : (page_width_mm page_height_mm dpi : ℕ) → VirtualPrinterProfile

pub record PrinterRef : Type 0 where
  pub id : Text
  pub display_name : Text
  pub connection : PrinterConnection
  pub submission_mode : SubmissionMode
  pub virtual_profile : Option VirtualPrinterProfile
  pub enabled : Bool
