-- ===== src/Agent/Resolver/Catalog.antt =====
-- The catalog of printers against a map from identifiers to printers.
use oppa.Common.{
  Bool, true, false, not, ◌&&◌, ◌≡◌, refl, sym, ap, ◌∙◌, Option, some, none, List, [], ◌∷◌, ok, err,
  arith, any, filter, find, if◌then◌else◌, is_ok, Bool-cases, Result-cases, inl, inr,
}
use oppa.Common.Text.{Text, text_eq, text_eq_refl, text_eq_iff}
use oppa.Printer.{PrinterRef}
use oppa.Printer.Validation.{PrinterValidationError, validate_printer}
use oppa.Agent.Resolver.{
  Catalog, get, stands_under, insert, add_printers, new, upsert, remove, resolve,
}

-- The calls that change a catalog.
pub data CatalogCall : Type 0 where
  upserting : PrinterRef → CatalogCall
  removing : Text → CatalogCall

abbrev pub perform_call : CatalogCall → Catalog → Catalog
perform_call (upserting printer) catalog = (upsert printer catalog).1
perform_call (removing id) catalog = (remove id catalog).1

abbrev pub perform_calls : List CatalogCall → Catalog → Catalog
perform_calls [] catalog = catalog
perform_calls (call ∷ rest) catalog = perform_calls rest (perform_call call catalog)

-- A catalog as a map from identifiers to printers.
abbrev pub PrinterMap : Type 0
PrinterMap = Text → Option PrinterRef

abbrev pub meant : CatalogCall → PrinterMap → PrinterMap
meant (upserting printer) m id =
    if is_ok (validate_printer printer) && text_eq printer.id id then some printer else m id
meant (removing key) m id = if text_eq key id then none else m id

abbrev pub meant_calls : List CatalogCall → PrinterMap → PrinterMap
meant_calls [] m = m
meant_calls (call ∷ rest) m = meant_calls rest (meant call m)

abbrev pub named : Text → PrinterRef → Bool
named id printer = text_eq printer.id id

abbrev either_one : Option PrinterRef → Option PrinterRef → Option PrinterRef
either_one (some printer) other = some printer
either_one none other = other

either_one-none : (found : Option PrinterRef) → either_one found none ≡ found
either_one-none none = refl
either_one-none (some printer) = refl

same_as : (a b id : Text) → text_eq a b ≡ true → text_eq a id ≡ text_eq b id
same_as a b id h = ap (λ t. text_eq t id) ((text_eq_iff a b).0 h)

pub two_keys :
    (k key id : Text) → text_eq k id ≡ true → text_eq key id ≡ true → text_eq k key ≡ true
two_keys k key id h h' =
    (text_eq_iff k key).1 ((text_eq_iff k id).0 h ∙ sym ((text_eq_iff key id).0 h'))

get-without :
    (key id : Text) (catalog : Catalog)
    → get id (filter (λ entry. not (stands_under key entry)) catalog)
      ≡ (if text_eq key id then none else get id catalog)
unfolding get
get-without key id [] = ground arith
get-without key id ((k, printer) ∷ rest) = elim (Bool-cases (text_eq k key)) [
  | inl e ↦ rw e (ground (arith, same_as k key id e, get-without key id rest))
  | inr e ↦ rw e (ground (arith, e, two_keys k key id, get-without key id rest))
]

get-insert :
    (printer : PrinterRef) (id : Text) (catalog : Catalog)
    → get id (insert printer catalog)
      ≡ (if text_eq printer.id id then some printer else get id catalog)
unfolding get insert
get-insert printer id catalog = ground (arith, get-without printer.id id catalog)

get-absent :
    (key id : Text) (catalog : Catalog)
    → any (stands_under key) catalog ≡ false
    → text_eq key id ≡ true
    → get id catalog ≡ none
unfolding get
get-absent key id [] h same = refl
get-absent key id ((k, printer) ∷ rest) h same = ground (
  arith,
  same_as key id k same,
  (text_eq_iff k id).0,
  (text_eq_iff key id).0 same,
  text_eq_refl k,
  get-absent key id rest,
)

get-add_printers :
    (printers : List PrinterRef) (catalog after : Catalog) (id : Text)
    → add_printers printers catalog ≡ ok after
    → get id after ≡ either_one (get id catalog) (find (named id) printers)
unfolding add_printers
get-add_printers [] catalog after id h =
    let same : after ≡ catalog = cc in rw same (sym (either_one-none (get id catalog)))
get-add_printers (printer ∷ rest) catalog after id h =
    elim (Result-cases (validate_printer printer)) [
      | inr (e, refused) ↦ ground (arith, refused, h)
      | inl (u, valid) ↦ elim (Bool-cases (any (stands_under printer.id) catalog)) [
        | inl taken ↦ ground (arith, valid, taken, h)
        | inr free ↦
            let inserted : add_printers rest (insert printer catalog) ≡ ok after =
              ground (arith, valid, free, h) in
            let later = get-add_printers rest (insert printer catalog) after id inserted in
            ground
              (arith, later, get-insert printer id catalog, get-absent printer.id id catalog free)
      ]
    ]

meant_calls_ext :
    (calls : List CatalogCall) (m m' : PrinterMap) (id : Text)
    → ((i : Text) → m i ≡ m' i)
    → meant_calls calls m id ≡ meant_calls calls m' id
meant_calls_ext [] m m' id h = h id
meant_calls_ext (call ∷ rest) m m' id h =
    meant_calls_ext rest (meant call m) (meant call m') id (meant_ext call)
  where
    meant_ext : (c : CatalogCall) (i : Text) → meant c m i ≡ meant c m' i
    meant_ext (upserting printer) i = ground (arith, h i)
    meant_ext (removing key) i = ground (arith, h i)

pub upsert-valid :
    (printer : PrinterRef) (catalog : Catalog) (u : Unit {0})
    → validate_printer printer ≡ ok u
    → (upsert printer catalog).1 ≡ insert printer catalog
unfolding upsert
upsert-valid printer catalog u valid = rw (valid, upsert) refl

pub upsert-refused :
    (printer : PrinterRef) (catalog : Catalog) (e : PrinterValidationError)
    → validate_printer printer ≡ err e
    → (upsert printer catalog).1 ≡ catalog
unfolding upsert
upsert-refused printer catalog e refused = rw (refused, upsert) refl

get-perform_call :
    (call : CatalogCall) (catalog : Catalog) (id : Text)
    → get id (perform_call call catalog) ≡ meant call (λ i. get i catalog) id
unfolding remove
get-perform_call (upserting printer) catalog id = elim (Result-cases (validate_printer printer)) [
  | inl (u, valid) ↦
      rw (valid, upsert-valid printer catalog u valid) (get-insert printer id catalog)
  | inr (e, refused) ↦ rw (refused, upsert-refused printer catalog e refused) refl
]
get-perform_call (removing key) catalog id = get-without key id catalog

get-perform_calls :
    (calls : List CatalogCall) (catalog : Catalog) (id : Text)
    → get id (perform_calls calls catalog) ≡ meant_calls calls (λ i. get i catalog) id
get-perform_calls [] catalog id = refl
get-perform_calls (call ∷ rest) catalog id =
    get-perform_calls rest (perform_call call catalog) id
    ∙ meant_calls_ext rest (λ i. get i (perform_call call catalog))
        (meant call (λ i. get i catalog)) id (get-perform_call call catalog)

-- A new catalog, after any upserts and removals, resolves every identifier as the map that holds
-- the given printers and that an upsert of a valid printer sets, an upsert of an invalid one keeps
-- and a removal clears.
pub resolve-perform_calls :
    (printers : List PrinterRef) (catalog : Catalog) (calls : List CatalogCall) (id : Text)
    → new printers ≡ ok catalog
    → resolve id (perform_calls calls catalog)
      ≡ ok (meant_calls calls (λ i. find (named i) printers) id)
unfolding resolve new get
resolve-perform_calls printers catalog calls id built = ap ok (
    get-perform_calls calls catalog id
    ∙ meant_calls_ext calls (λ i. get i catalog) (λ i. find (named i) printers) id
        (λ i. get-add_printers printers [] catalog i built))
