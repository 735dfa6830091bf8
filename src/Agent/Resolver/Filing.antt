-- ===== src/Agent/Resolver/Filing.antt =====
-- crates/oppa-agent/src/processor.rs: the entries of the catalog of StaticPrinterResolver.
use oppa.Common.{
  ◌≤◌, true, not, ◌≡◌, refl, List, [], ◌∷◌, ok, arith, any, filter, All, Bool-cases, Result-cases,
  inl, inr,
}
use oppa.Common.Text.{Text, text_eq}
use oppa.Common.Counting.{count, count-filter_le, count-filter_drop}
use oppa.Common.Everywhere.{All-filter}
use oppa.Printer.{PrinterRef}
use oppa.Printer.Validation.{validate_printer}
use oppa.Agent.Resolver.{Catalog, stands_under, insert, add_printers, new, remove}
use oppa.Agent.Resolver.Catalog.{
  CatalogCall, upserting, removing, perform_call, perform_calls, two_keys, upsert-valid,
  upsert-refused,
}

-- An entry of a valid printer under its own identifier.
abbrev pub IsFiled : Text × PrinterRef → Type 0
IsFiled (key, printer) = (key ≡ printer.id) × (validate_printer printer ≡ ok tt)

-- Every entry is filed, and no identifier has two.
abbrev pub IsCatalog : Catalog → Type 0
IsCatalog catalog = All IsFiled catalog × ((id : Text) → count (stands_under id) catalog ≤ 1)

remaining :
    (key id : Text) (catalog : Catalog)
    → text_eq key id ≡ true
    → count (stands_under id) (filter (λ entry. not (stands_under key entry)) catalog) ≡ 0
remaining key id catalog same =
    count-filter_drop (stands_under id) (λ entry. not (stands_under key entry)) catalog
      (λ (k, printer) h. rw (two_keys k key id h same) refl)

insert-IsCatalog :
    (printer : PrinterRef) (catalog : Catalog)
    → validate_printer printer ≡ ok tt
    → IsCatalog catalog
    → IsCatalog (insert printer catalog)
unfolding insert
insert-IsCatalog printer catalog valid (filed, unique) = (
  ((refl, valid), All-filter IsFiled (λ entry. not (stands_under printer.id entry)) catalog filed),
  λ id. ground (
    arith,
    remaining printer.id id catalog,
    count-filter_le (stands_under id) (λ entry. not (stands_under printer.id entry)) catalog,
    unique id,
  ),
)

remove-IsCatalog :
    (id : Text) (catalog : Catalog) → IsCatalog catalog → IsCatalog (remove id catalog).1
unfolding remove
remove-IsCatalog id catalog (filed, unique) = (
  All-filter IsFiled (λ entry. not (stands_under id entry)) catalog filed,
  λ other. omega (
    arith,
    count-filter_le (stands_under other) (λ entry. not (stands_under id entry)) catalog,
    unique other,
  ),
)

add_printers-IsCatalog :
    (printers : List PrinterRef) (catalog after : Catalog)
    → add_printers printers catalog ≡ ok after
    → IsCatalog catalog
    → IsCatalog after
unfolding add_printers
add_printers-IsCatalog [] catalog after h c = let same : after ≡ catalog = cc in rw same c
add_printers-IsCatalog (printer ∷ rest) catalog after h c =
    elim (Result-cases (validate_printer printer)) [
      | inr (e, refused) ↦ ground (arith, refused, h)
      | inl (tt, valid) ↦ elim (Bool-cases (any (stands_under printer.id) catalog)) [
        | inl taken ↦ ground (arith, valid, taken, h)
        | inr free ↦
            let inserted : add_printers rest (insert printer catalog) ≡ ok after =
              ground (arith, valid, free, h) in
            add_printers-IsCatalog rest (insert printer catalog) after inserted
              (insert-IsCatalog printer catalog valid c)
      ]
    ]

perform_call-IsCatalog :
    (call : CatalogCall) (catalog : Catalog)
    → IsCatalog catalog
    → IsCatalog (perform_call call catalog)
perform_call-IsCatalog (upserting printer) catalog c =
    elim (Result-cases (validate_printer printer)) [
      | inl (tt, valid) ↦
          rw (upsert-valid printer catalog tt valid) (insert-IsCatalog printer catalog valid c)
      | inr (e, refused) ↦ rw (upsert-refused printer catalog e refused) c
    ]
perform_call-IsCatalog (removing id) catalog c = remove-IsCatalog id catalog c

perform_calls_keep :
    (calls : List CatalogCall) (catalog : Catalog)
    → IsCatalog catalog
    → IsCatalog (perform_calls calls catalog)
perform_calls_keep [] catalog c = c
perform_calls_keep (call ∷ rest) catalog c =
    perform_calls_keep rest (perform_call call catalog) (perform_call-IsCatalog call catalog c)

-- A new catalog, after any upserts and removals, holds at most one printer for each identifier, and
-- every printer in it is valid and stands under its own identifier.
pub perform_calls-IsCatalog :
    (printers : List PrinterRef) (catalog : Catalog) (calls : List CatalogCall)
    → new printers ≡ ok catalog
    → IsCatalog (perform_calls calls catalog)
unfolding new
perform_calls-IsCatalog printers catalog calls built =
    perform_calls_keep calls catalog
      (add_printers-IsCatalog printers [] catalog built (tt, λ id. omega arith))
