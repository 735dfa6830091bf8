-- ===== src/Agent/Processor/Failing.antt =====
-- crates/oppa-agent/src/processor.rs: the failures of a job's preparation against the checks of the storage.
use oppa.Common.{
  ℕ, ◌≡◌, refl, Bool, true, false, Option, some, none, ok, err, ensure, ok_or, ◌>>=◌, Result,
  Option-cases, inl, inr,
}
use oppa.Common.Text.{Text, text, text_eq, is_empty, is_whitespace, is_control, trim}
use oppa.Printer.{
  PrinterConnection, system_queue, network, usb, virtual, esc_pos, SubmissionMode, driver, raw,
  VirtualPrinterProfile, esc_pos_receipt, system_driver_page, PrinterRef,
}
use oppa.Storage.Schema.{StorageLimits, validate_key}
use oppa.Storage.Payload.{JsonCodec}
use oppa.Storage.Loading.{StoredPrintJob}
use oppa.Renderer.{
  RendererError, unicode_requires_rasterization, invalid_pdf, encrypted_pdf, pdf_limit_exceeded,
  invalid_page_range, invalid_document, rasterization_timed_out, pdf_render,
}
use oppa.Agent.Failure.{
  JobFailure, DocumentFetchError, invalid_source, pdf_unsupported, pdf_profile, fetch_code,
  fetch_retryable, target_of, printer_render_target, pdf_route_of, pdf_route, renderer_failure,
  pdf_failure,
}
use oppa.Agent.Failure.Storable.{IsStorable, new-IsStorable}
use oppa.Agent.Services.{PrintJob, JobDocument, receipt, pdf, Services}
use oppa.Agent.Processor.{
  usable_printer, renderer_answer, task_answer, fetch_answer, validate_persisted_job,
  resolve_enabled_printer, render_receipt, render_pdf_bytes, render_pdf_job, render_job, prepare,
}

-- A step that fails only with failures that can be stored.
abbrev pub FailsStorably {ℓ} : {A : Type ℓ} → Result JobFailure A → Type 0
FailsStorably (ok a) = Unit
FailsStorably (err failure) = IsStorable failure

>>=-FailsStorably {ℓ κ} :
    {A : Type ℓ} {B : Type κ} (first : Result JobFailure A) (next : A → Result JobFailure B)
    → FailsStorably first
    → ((a : A) → FailsStorably (next a))
    → FailsStorably (first >>= next)
>>=-FailsStorably (ok a) next h k = k a
>>=-FailsStorably (err e) next h k = h

ensure-FailsStorably :
    (test : Bool) (failure : JobFailure) → IsStorable failure → FailsStorably (ensure test failure)
ensure-FailsStorably true failure h = tt
ensure-FailsStorably false failure h = h

ok_or-FailsStorably {ℓ} :
    {A : Type ℓ} (o : Option A) (failure : JobFailure)
    → IsStorable failure
    → FailsStorably (ok_or o failure)
ok_or-FailsStorably (some a) failure h = tt
ok_or-FailsStorably none failure h = h

usable_printer-FailsStorably :
    (id : Text) (answer : Result Text (Option PrinterRef))
    → FailsStorably (usable_printer id answer)
unfolding validate_key is_whitespace is_empty trim is_control
usable_printer-FailsStorably id (err message) =
    new-IsStorable (text "printer.resolve_failed") message true refl
usable_printer-FailsStorably id (ok none) =
    new-IsStorable (text "printer.not_found") (text "the selected local printer is not configured")
      true refl
usable_printer-FailsStorably id (ok (some printer)) =
    >>=-FailsStorably _ _
      (ensure-FailsStorably (text_eq printer.id id) _ (
        new-IsStorable (text "printer.identity_mismatch")
          (text "the printer resolver returned a different stable identity") false refl))
      λ _.
        >>=-FailsStorably _ _
          (ensure-FailsStorably printer.enabled _ (
            new-IsStorable (text "printer.disabled") (text "the selected local printer is disabled")
              true refl))
          λ _. tt

target_of-FailsStorably :
    (connection : PrinterConnection) (mode : SubmissionMode)
    (profile : Option VirtualPrinterProfile)
    → FailsStorably (target_of connection mode profile)
unfolding validate_key is_whitespace is_empty trim is_control
target_of-FailsStorably (virtual _) (raw esc_pos) (some (esc_pos_receipt _)) = tt
target_of-FailsStorably (system_queue _) (raw esc_pos) none = tt
target_of-FailsStorably (network _ _) (raw esc_pos) none = tt
target_of-FailsStorably (usb _ _ _) (raw esc_pos) none = tt
target_of-FailsStorably (virtual _) driver (some (system_driver_page w h dpi)) = tt
target_of-FailsStorably (system_queue _) driver none = tt
target_of-FailsStorably _ _ _ =
    new-IsStorable (text "printer.submission_mode_unsupported")
      (text "the selected submission mode is not supported by this printer connection") false refl

pdf_unsupported-FailsStorably : (display_name : Text) → FailsStorably (pdf_unsupported display_name)
unfolding validate_key is_whitespace is_empty trim is_control
pdf_unsupported-FailsStorably display_name =
    new-IsStorable (text "document.format_unsupported") _ false refl

pdf_profile-FailsStorably :
    (display_name : Text) (profile : Option VirtualPrinterProfile)
    → FailsStorably (pdf_profile display_name profile)
pdf_profile-FailsStorably display_name none = tt
pdf_profile-FailsStorably display_name (some (system_driver_page _ _ _)) = tt
pdf_profile-FailsStorably display_name (some (esc_pos_receipt _)) =
    pdf_unsupported-FailsStorably display_name

pdf_route_of-FailsStorably :
    (display_name : Text) (connection : PrinterConnection) (mode : SubmissionMode)
    (profile : Option VirtualPrinterProfile)
    → FailsStorably (pdf_route_of display_name connection mode profile)
pdf_route_of-FailsStorably display_name (system_queue _) driver profile =
    pdf_profile-FailsStorably display_name profile
pdf_route_of-FailsStorably display_name (virtual _) driver profile =
    pdf_profile-FailsStorably display_name profile
pdf_route_of-FailsStorably display_name _ _ _ = pdf_unsupported-FailsStorably display_name

renderer_answer-FailsStorably {ℓ} :
    {Rendered : Type ℓ} (answer : Result (RendererError × Text) Rendered)
    → FailsStorably (renderer_answer answer)
unfolding renderer_failure validate_key is_whitespace is_empty trim is_control
renderer_answer-FailsStorably (ok rendered) = tt
renderer_answer-FailsStorably (err (unicode_requires_rasterization, message)) =
    new-IsStorable (text "render.failed") message true refl
renderer_answer-FailsStorably (err (_, message)) =
    new-IsStorable (text "render.failed") message false refl

pdf_failure-IsStorable : (e : RendererError) (message : Text) → IsStorable (pdf_failure e message)
unfolding pdf_failure validate_key is_whitespace is_empty trim is_control
pdf_failure-IsStorable invalid_pdf message = new-IsStorable _ message false refl
pdf_failure-IsStorable encrypted_pdf message = new-IsStorable _ message false refl
pdf_failure-IsStorable pdf_limit_exceeded message = new-IsStorable _ message false refl
pdf_failure-IsStorable invalid_page_range message = new-IsStorable _ message false refl
pdf_failure-IsStorable invalid_document message = new-IsStorable _ message false refl
pdf_failure-IsStorable rasterization_timed_out message = new-IsStorable _ message true refl
pdf_failure-IsStorable pdf_render message = new-IsStorable _ message false refl
pdf_failure-IsStorable _ message = new-IsStorable (text "render.failed") message false refl

task_answer-FailsStorably {ℓ} :
    {Rendered : Type ℓ} (answer : Result Text (Result (RendererError × Text) Rendered))
    → FailsStorably (task_answer answer)
unfolding validate_key is_whitespace is_empty trim is_control
task_answer-FailsStorably (err message) = new-IsStorable (text "document.render_failed") _ true refl
task_answer-FailsStorably (ok (err (e, message))) = pdf_failure-IsStorable e message
task_answer-FailsStorably (ok (ok rendered)) = tt

fetch_answer-FailsStorably {ℓ} :
    {Value : Type ℓ} (answer : Result (DocumentFetchError × Text) Value)
    → FailsStorably (fetch_answer answer)
unfolding validate_key is_whitespace is_empty trim is_control
fetch_answer-FailsStorably (ok bytes) = tt
fetch_answer-FailsStorably (err (e, message)) =
    new-IsStorable (fetch_code e) message (fetch_retryable e) (valid_code e)
  where
    valid_code : (e : DocumentFetchError) → validate_key (fetch_code e) 64 ≡ ok tt
    valid_code invalid_source = refl
    valid_code _ = refl

module _ {Value Rendered : Type 0} ⦃codec : JsonCodec Value⦄ (services : Services Value Rendered)
    (limits : StorageLimits) (representable : ℕ → Bool) (stored : StoredPrintJob Value) where
  validate_persisted_job-FailsStorably :
      (job : PrintJob Value)
      → FailsStorably (validate_persisted_job services limits representable stored job)
  unfolding validate_persisted_job validate_key is_whitespace is_empty trim is_control
  validate_persisted_job-FailsStorably job = elim (Option-cases (services.invalid_job job)) [
    | inr (message, invalid) ↦
        rw (invalid, FailsStorably)
          (new-IsStorable (text "job.invalid_persisted") message false refl)
    | inl valid ↦
        rw (valid, FailsStorably)
          (ensure-FailsStorably _ _ (
            new-IsStorable (text "job.storage_mismatch")
              (text "persisted job identity does not match its durable row") false refl))
  ]

  render_job-FailsStorably :
      (document : JobDocument Value) (printer : PrinterRef)
      → FailsStorably (render_job services limits representable stored document printer)
  unfolding render_receipt printer_render_target render_pdf_job render_pdf_bytes pdf_route
      validate_key is_whitespace is_empty trim is_control
  render_job-FailsStorably (receipt document) printer =
      >>=-FailsStorably _ _
        (target_of-FailsStorably printer.connection printer.submission_mode printer.virtual_profile)
        (λ target. renderer_answer-FailsStorably (services.render document target))
  render_job-FailsStorably (pdf source settings) printer =
      >>=-FailsStorably _ _
        (pdf_route_of-FailsStorably printer.display_name printer.connection printer.submission_mode
          printer.virtual_profile)
        λ _.
          >>=-FailsStorably _ _
            (ok_or-FailsStorably services.fetch_pdf _ (
              new-IsStorable (text "document.fetch_unavailable")
                (text "this agent is not configured to retrieve PDF documents") false refl))
            λ fetcher.
              >>=-FailsStorably _ _ (fetch_answer-FailsStorably (fetcher stored.id source))
                λ bytes. task_answer-FailsStorably (services.render_pdf bytes settings)

  pub prepare-FailsStorably :
      (job : PrintJob Value) → FailsStorably (prepare services limits representable stored job)
  unfolding prepare resolve_enabled_printer
  prepare-FailsStorably job = >>=-FailsStorably _ _ (validate_persisted_job-FailsStorably job) λ _.
      >>=-FailsStorably _ _
        (usable_printer-FailsStorably stored.printer_id (services.resolve stored.printer_id))
        λ printer.
          >>=-FailsStorably _ _ (render_job-FailsStorably job.document printer) λ rendered. tt
