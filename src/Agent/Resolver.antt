-- ===== src/Agent/Resolver.antt =====
-- crates/oppa-agent/src/processor.rs: StaticPrinterResolver, the catalog of printers in memory. The
-- HashMap is a list of its entries. A message of a validation error is the error itself.
pub mod Catalog
pub mod Filing
use oppa.Common.{
  Bool, not, Option, some, none, List, [], ◌∷◌, Result, ok, err, ◌>>=◌, ◌>>◌, ensure, any, filter,
  if◌then◌else◌,
}
use oppa.Common.Text.{Text, text_eq}
use oppa.Printer.{PrinterRef}
use oppa.Printer.Validation.{PrinterValidationError, validate_printer}

pub data PrinterResolutionError : Type 0 where
  invalid_printer : PrinterValidationError → PrinterResolutionError
  duplicate_printer : (id : Text) → PrinterResolutionError
  backend : (message : Text) → PrinterResolutionError

-- `HashMap<PrinterId, PrinterRef>`
abbrev pub Catalog : Type 0
Catalog = List (Text × PrinterRef)

-- `HashMap::get`
unfoldable pub get : Text → Catalog → Option PrinterRef
get id [] = none
get id ((key, printer) ∷ rest) =
    let later = get id rest in if text_eq key id then some printer else later

abbrev pub stands_under : Text → Text × PrinterRef → Bool
stands_under id (key, printer) = text_eq key id

-- `HashMap::insert`
unfoldable pub insert : PrinterRef → Catalog → Catalog
insert printer catalog =
    (printer.id, printer) ∷ filter (λ entry. not (stands_under printer.id entry)) catalog

-- `.map_err(|error| PrinterResolutionError::InvalidPrinter(error.to_string()))`
abbrev pub as_invalid :
    Result PrinterValidationError (Unit {0}) → Result PrinterResolutionError (Unit {0})
as_invalid (ok u) = ok u
as_invalid (err e) = err (invalid_printer e)

-- The loop of `StaticPrinterResolver::new`.
unfoldable pub add_printers : List PrinterRef → Catalog → Result PrinterResolutionError Catalog
add_printers [] catalog = ok catalog
add_printers (printer ∷ rest) catalog = do
  as_invalid (validate_printer printer)
  ensure (not (any (stands_under printer.id) catalog)) (duplicate_printer printer.id)
  add_printers rest (insert printer catalog)

unfoldable pub new : List PrinterRef → Result PrinterResolutionError Catalog
unfolding add_printers
new printers = add_printers printers []

-- `upsert`, with the catalog that it leaves
unfoldable pub upsert : PrinterRef → Catalog → Result PrinterResolutionError (Unit {0}) × Catalog
upsert printer catalog = elim (validate_printer printer) [
  | ok u ↦ (ok tt, insert printer catalog)
  | err e ↦ (err (invalid_printer e), catalog)
]

unfoldable pub remove : Text → Catalog → Bool × Catalog
remove id catalog =
    (any (stands_under id) catalog, filter (λ entry. not (stands_under id entry)) catalog)

unfoldable pub resolve : Text → Catalog → Result PrinterResolutionError (Option PrinterRef)
unfolding get
resolve id catalog = ok (get id catalog)
