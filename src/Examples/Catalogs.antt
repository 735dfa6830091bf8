-- ===== src/Examples/Catalogs.antt =====
-- A catalog of two printers that is edited.
use oppa.Common.{true, false, some, none, List, [], ◌∷◌, ok, ◌≡◌, refl}
use oppa.Common.Text.{Text, text}
use oppa.Printer.{PrinterRef, system_queue, network, driver, raw, esc_pos}
use oppa.Agent.Resolver
use oppa.Agent.Resolver.{Catalog, resolve}
use oppa.Agent.Resolver.Catalog.{
  CatalogCall, upserting, removing, perform_calls, resolve-perform_calls,
}
use oppa.Agent.Resolver.Filing.{IsCatalog, perform_calls-IsCatalog}

abbrev desk : PrinterRef
desk = record {
  id = text "desk";
  display_name = text "Desk";
  connection = system_queue (text "q1");
  submission_mode = driver;
  virtual_profile = none;
  enabled = true;
}

abbrev counter : PrinterRef
counter = record {
  id = text "counter";
  display_name = text "Counter";
  connection = network (text "10.0.0.7") 9100;
  submission_mode = raw esc_pos;
  virtual_profile = none;
  enabled = true;
}

abbrev moved_counter : PrinterRef
moved_counter = record counter { connection = network (text "10.0.0.8") 9100 }

-- Its host is a URL.
abbrev broken_desk : PrinterRef
broken_desk = record desk { connection = network (text "http://desk") 80 }

abbrev two_printers : Catalog
two_printers = (text "counter", counter) ∷ (text "desk", desk) ∷ []

abbrev edits : List CatalogCall
edits = upserting moved_counter ∷ upserting broken_desk ∷ removing (text "bar") ∷ []

resolve-perform_calls_example :
    resolve (text "counter") (perform_calls edits two_printers) ≡ ok (some moved_counter)
unfolding Resolver.new oppa.Printer.Validation.validate_printer oppa.Common.Text.is_empty
    oppa.Common.Text.trim Resolver.insert
resolve-perform_calls_example =
    resolve-perform_calls (desk ∷ counter ∷ []) two_printers edits (text "counter") refl

perform_calls-IsCatalog_example : IsCatalog (perform_calls edits two_printers)
unfolding Resolver.new oppa.Printer.Validation.validate_printer oppa.Common.Text.is_empty
    oppa.Common.Text.trim Resolver.insert
perform_calls-IsCatalog_example =
    perform_calls-IsCatalog (desk ∷ counter ∷ []) two_printers edits refl
