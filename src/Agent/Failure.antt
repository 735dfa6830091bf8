-- ===== src/Agent/Failure.antt =====
-- crates/oppa-agent/src/processor.rs: the failures of a job, how they are classified, and which
-- printers take which documents.
pub mod Storable
use oppa.Common.{
  ℕ, Bool, true, false, Option, none, some, Result, ok, err, ◌==◌, if◌then◌else◌, List, ◌++◌,
}
use oppa.Common.Text.{Text, text}
use oppa.Storage.Schema.{StoredJobError}
use oppa.Printer.{
  PrinterConnection, system_queue, network, usb, virtual, esc_pos, SubmissionMode, driver, raw,
  VirtualPrinterProfile, esc_pos_receipt, system_driver_page, PrinterRef,
}
use oppa.Renderer.{
  RendererError, unicode_requires_rasterization, invalid_pdf, encrypted_pdf, pdf_limit_exceeded,
  invalid_page_range, invalid_document, rasterization_timed_out, pdf_render, RenderTarget, escpos,
  page, a4_portrait,
}
use oppa.Agent.Sanitize.{sanitize_message}

pub record JobFailure : Type 0 where
  pub code : Text
  pub message : Text
  pub retryable : Bool

-- `JobFailure::new`
unfoldable pub new : Text → Text → Bool → JobFailure
new code message retryable = record {
  code = code;
  message = sanitize_message message;
  retryable = retryable;
}

-- `JobFailure::stored`
abbrev pub stored_error : JobFailure → ℕ → StoredJobError
stored_error failure occurred_at = record {
  code = failure.code;
  message = failure.message;
  retryable = failure.retryable;
  occurred_at = occurred_at;
}

-- `SpoolerError`
pub data SpoolerError : Type 0 where
  invalid_target printer_disabled unsupported_target unsupported_document : SpoolerError
  invalid_submission_mode document_render document_too_large : SpoolerError
  backend_unavailable connectivity timeout rejected cancelled : SpoolerError
  simulated_failure invalid_configuration unsupported_option : SpoolerError

-- `DocumentFetchError`
pub data DocumentFetchError : Type 0 where
  invalid_source authorization refused not_found server_error transport : DocumentFetchError
  fetch_timeout length_mismatch integrity_mismatch : DocumentFetchError

abbrev pub fetch_code : DocumentFetchError → Text
fetch_code invalid_source = text "document.invalid_source"
fetch_code authorization = text "document.authorization_failed"
fetch_code refused = text "document.refused"
fetch_code not_found = text "document.not_found"
fetch_code server_error = text "document.fetch_failed"
fetch_code transport = text "document.fetch_failed"
fetch_code fetch_timeout = text "document.fetch_failed"
fetch_code length_mismatch = text "document.integrity_failed"
fetch_code integrity_mismatch = text "document.integrity_failed"

abbrev pub fetch_retryable : DocumentFetchError → Bool
fetch_retryable server_error = true
fetch_retryable transport = true
fetch_retryable fetch_timeout = true
fetch_retryable _ = false

-- The match of `printer_render_target`.
abbrev pub target_of :
    PrinterConnection
    → SubmissionMode
    → Option VirtualPrinterProfile
    → Result JobFailure RenderTarget
target_of (virtual _) (raw esc_pos) (some (esc_pos_receipt _)) = ok escpos
target_of (system_queue _) (raw esc_pos) none = ok escpos
target_of (network _ _) (raw esc_pos) none = ok escpos
target_of (usb _ _ _) (raw esc_pos) none = ok escpos
target_of (virtual _) driver (some (system_driver_page w h dpi)) = ok (page w h dpi)
target_of (system_queue _) driver none = ok a4_portrait
target_of _ _ _ = err (
    new (text "printer.submission_mode_unsupported")
      (text "the selected submission mode is not supported by this printer connection") false)

unfoldable pub printer_render_target : PrinterRef → Result JobFailure RenderTarget
unfolding new
printer_render_target printer =
    target_of printer.connection printer.submission_mode printer.virtual_profile

-- The `unsupported` of `pdf_route`.
abbrev pub pdf_unsupported : Text → Result JobFailure (Unit {0})
pdf_unsupported display_name = err (
    new (text "document.format_unsupported")
      (text "PDF documents need a system printer queue or a virtual office printer in driver mode; "
        ++ display_name
        ++ text " cannot print PDFs. Send a structured receipt or select a document printer.")
      false)

abbrev pub pdf_profile : Text → Option VirtualPrinterProfile → Result JobFailure (Unit {0})
pdf_profile display_name none = ok tt
pdf_profile display_name (some (system_driver_page _ _ _)) = ok tt
pdf_profile display_name (some (esc_pos_receipt _)) = pdf_unsupported display_name

abbrev pub pdf_route_of :
    Text
    → PrinterConnection
    → SubmissionMode
    → Option VirtualPrinterProfile
    → Result JobFailure (Unit {0})
pdf_route_of display_name (system_queue _) driver profile = pdf_profile display_name profile
pdf_route_of display_name (virtual _) driver profile = pdf_profile display_name profile
pdf_route_of display_name _ _ _ = pdf_unsupported display_name

unfoldable pub pdf_route : PrinterRef → Result JobFailure (Unit {0})
unfolding new
pdf_route printer =
    pdf_route_of printer.display_name printer.connection printer.submission_mode
      printer.virtual_profile

unfoldable pub renderer_failure : RendererError → Text → JobFailure
unfolding new
renderer_failure unicode_requires_rasterization message = new (text "render.failed") message true
renderer_failure _ message = new (text "render.failed") message false

unfoldable pub pdf_failure : RendererError → Text → JobFailure
unfolding new
pdf_failure invalid_pdf message = new (text "document.invalid") message false
pdf_failure encrypted_pdf message = new (text "document.encrypted") message false
pdf_failure pdf_limit_exceeded message = new (text "document.limit_exceeded") message false
pdf_failure invalid_page_range message = new (text "document.page_range_invalid") message false
pdf_failure invalid_document message = new (text "document.settings_invalid") message false
pdf_failure rasterization_timed_out message = new (text "document.processing_timeout") message true
pdf_failure pdf_render message = new (text "document.render_failed") message false
pdf_failure _ message = new (text "render.failed") message false

abbrev pub spooler_retryable : SpoolerError → Bool
spooler_retryable backend_unavailable = true
spooler_retryable connectivity = true
spooler_retryable timeout = true
spooler_retryable simulated_failure = true
spooler_retryable _ = false

unfoldable pub spooler_failure : SpoolerError → Text → JobFailure
unfolding new
spooler_failure unsupported_option message = new (text "document.option_unsupported") message false
spooler_failure e message = new (text "spooler.failed") message (spooler_retryable e)

unfoldable pub recovery_aware_failure : ℕ → JobFailure → JobFailure
unfolding new
recovery_aware_failure recovery_count failure =
    if recovery_count == 0
    then failure
    else new (text "job.recovery_uncertain")
        (text "an interrupted submission may already have reached its backend; replay failed: "
          ++ failure.message)
        false
