-- ===== src/Invoices/Examples.antt =====
-- Totals, edits and a refused void at concrete invoices.
use meduman_backend.Prelude.{◌+◌, ◌≡◌, refl, none, some, List, [], ◌∷◌}
use meduman_backend.Store.Enums.{paid}
use meduman_backend.Store.Rows.{Invoice}
use meduman_backend.Store.World.{World}
use meduman_backend.Store.Table.{find_first}
use meduman_backend.Store.Sample.{empty_world}
use meduman_backend.Invoices.{LineInput, compute_totals, CreateInvoiceDto, new_invoice}
use meduman_backend.Invoices.Totals.{IsTaxOf, compute_totals_lem}
use meduman_backend.Invoices.Final.{Stays, void_command, run_command, final_invoice_lem}

abbrev two_lines : List LineInput
two_lines =
    record { quantity = 3; unit_price = 1999 } ∷ record { quantity = 1; unit_price = 50 } ∷ []

compute_totals_lem_example :
    let t = compute_totals two_lines (some 750) in
    (t.subtotal ≡ 6047)
    × IsTaxOf t.subtotal (some 750) t.tax_amount
    × (t.total ≡ t.subtotal + t.tax_amount)
compute_totals_lem_example = compute_totals_lem two_lines (some 750)

abbrev bill : CreateInvoiceDto
bill = record {
  buyer_name = some "Bola";
  buyer_email = none;
  buyer_phone = none;
  due_date = none;
  tax_rate_pct_bp = some 750;
  notes = none;
  terms = none;
  line_items = record { title = "shoes"; description = none; quantity = 3; unit_price = 1999 } ∷ [];
}

abbrev billed : World
billed = record empty_world { invoices = new_invoice "ada" bill "v1" "i1" ∷ [] }

abbrev paid_invoice : Invoice
paid_invoice = record (new_invoice "ada" bill "v1" "i1") { status = paid }

abbrev settled : World
settled = record empty_world { invoices = paid_invoice ∷ new_invoice "ada" bill "v2" "i2" ∷ [] }

final_invoice_lem_example : Stays "i1" paid_invoice (run_command (void_command "ada" "i1") settled)
unfolding find_first new_invoice
final_invoice_lem_example =
    final_invoice_lem "i1" paid_invoice refl (void_command "ada" "i1") settled tt refl
