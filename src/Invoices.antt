-- ===== src/Invoices.antt =====
-- modules/invoices: invoice.compute.ts, and of invoices.service.ts the draft and its edits. What happens to
-- an invoice after it is sent is Invoices.Lifecycle.
pub mod Lifecycle
pub mod Totals
pub mod Final
mod Examples
use meduman_backend.Prelude.{
  if◌then◌else◌, or_option, is_some, ◌===◌, concat, without_dashes, ℕ, ◌+◌, ◌*◌, ◌/◌, String, Bool,
  not, ◌||◌, Option, none, some, List, [], ◌∷◌, map,
}
use meduman_backend.Store.Enums.{InvoiceStatus, same_invoice_status}
use meduman_backend.Store.Rows.{number, InvoiceLineItem, Invoice}
use meduman_backend.Store.World.{invoice_table}
use meduman_backend.Store.Action.{
  not_found, bad_request, forbidden, Action, pure, or_throw, ◌>>=◌, ◌>>◌, throw_if, draw, select,
  insert, update, truthy,
}

-- `LineInput`
pub record LineInput : Type 0 where
  pub quantity : ℕ
  pub unit_price : ℕ

pub record InvoiceTotals : Type 0 where
  pub subtotal : ℕ
  pub tax_amount : ℕ
  pub total : ℕ

-- `computeLineTotal`
unfoldable pub compute_line_total : LineInput → ℕ
compute_line_total line = line.unit_price * line.quantity

-- `lines.reduce((sum, line) => sum + computeLineTotal(line), sum)`
unfoldable pub sum_lines : ℕ → List LineInput → ℕ
sum_lines sum [] = sum
sum_lines sum (line ∷ lines) = sum_lines (sum + compute_line_total line) lines

-- `Math.round(n / 10_000)` of a number that is not negative: a half rounds up.
unfoldable pub round_bp : ℕ → ℕ
round_bp n = (n + 5000) / 10000

unfoldable pub tax_of : ℕ → Option ℕ → ℕ
tax_of subtotal none = 0
tax_of subtotal (some tax_rate_pct_bp) = round_bp (subtotal * tax_rate_pct_bp)

-- `computeTotals`
unfoldable pub compute_totals : List LineInput → Option ℕ → InvoiceTotals
compute_totals lines tax_rate_pct_bp =
    let subtotal = sum_lines 0 lines in
    let tax_amount = tax_of subtotal tax_rate_pct_bp in
    record { subtotal = subtotal; tax_amount = tax_amount; total = subtotal + tax_amount }

pub record InvoiceLineDto : Type 0 where
  pub title : String
  pub description : Option String
  pub quantity : ℕ
  pub unit_price : ℕ

pub record CreateInvoiceDto : Type 0 where
  pub buyer_name : Option String
  pub buyer_email : Option String
  pub buyer_phone : Option String
  pub due_date : Option ℕ
  pub tax_rate_pct_bp : Option ℕ
  pub notes : Option String
  pub terms : Option String
  pub line_items : List InvoiceLineDto

-- `PartialType(CreateInvoiceDto)`: the lines too may be left out.
pub record UpdateInvoiceDto : Type 0 where
  pub buyer_name : Option String
  pub buyer_email : Option String
  pub buyer_phone : Option String
  pub due_date : Option ℕ
  pub tax_rate_pct_bp : Option ℕ
  pub notes : Option String
  pub terms : Option String
  pub line_items : Option (List InvoiceLineDto)

abbrev pub dto_input : InvoiceLineDto → LineInput
dto_input l = record { quantity = l.quantity; unit_price = l.unit_price }

abbrev pub row_input : InvoiceLineItem → LineInput
row_input l = record { quantity = l.quantity; unit_price = l.unit_price }

-- The rows that `lineItems: { create: … }` writes, from a position on.
unfoldable pub create_lines : ℕ → List InvoiceLineDto → List InvoiceLineItem
create_lines i [] = []
create_lines i (l ∷ ls) =
    record {
      title = l.title;
      description = truthy l.description;
      quantity = l.quantity;
      unit_price = l.unit_price;
      line_total = compute_line_total (dto_input l);
      position = i;
    }
    ∷ create_lines (i + 1) ls

-- The row that `createDraft` writes.
unfoldable pub new_invoice : String → CreateInvoiceDto → String → String → Invoice
new_invoice seller_id dto public_view_id id =
    let totals = compute_totals (map dto_input dto.line_items) dto.tax_rate_pct_bp in
    record {
      id = id;
      seller_id = seller_id;
      number = "";
      buyer_name = truthy dto.buyer_name;
      buyer_email = truthy dto.buyer_email;
      buyer_id = none;
      buyer_phone = truthy dto.buyer_phone;
      status = InvoiceStatus.draft;
      due_date = dto.due_date;
      currency = "NGN";
      subtotal = totals.subtotal;
      tax_rate_pct_bp = dto.tax_rate_pct_bp;
      tax_amount = totals.tax_amount;
      total = totals.total;
      notes = truthy dto.notes;
      terms = truthy dto.terms;
      transaction_id = none;
      public_view_id = public_view_id;
      sent_at = none;
      viewed_at = none;
      paid_at = none;
      voided_at = none;
      line_items = create_lines 0 dto.line_items;
    }

-- `createDraft`
unfoldable pub create_draft_invoice : String → CreateInvoiceDto → Action Invoice
create_draft_invoice seller_id dto = do
  public_view_id ← draw
  id ← draw
  insert invoice_table (new_invoice seller_id dto (without_dashes public_view_id) id)

abbrev pub has_invoice_id : String → Invoice → Bool
has_invoice_id id i = i.id === id

-- `getById`
unfoldable pub get_invoice : String → Action Invoice
get_invoice id = do
  found ← select invoice_table (has_invoice_id id)
  or_throw found (not_found (concat ("Invoice " ∷ id ∷ " not found" ∷ [])))

-- `loadOwned`
unfoldable pub load_owned : String → String → Action Invoice
load_owned seller_id id = do
  invoice ← get_invoice id
  throw_if (not (invoice.seller_id === seller_id)) (forbidden "Not the owner of this invoice")
  pure invoice

-- The columns that `edit` writes where the DTO has them.
abbrev pub edit_fields : UpdateInvoiceDto → Invoice → Invoice
edit_fields dto i = record i {
  buyer_name = or_option dto.buyer_name i.buyer_name;
  buyer_email = or_option dto.buyer_email i.buyer_email;
  buyer_phone = or_option dto.buyer_phone i.buyer_phone;
  due_date = or_option dto.due_date i.due_date;
  tax_rate_pct_bp = or_option dto.tax_rate_pct_bp i.tax_rate_pct_bp;
  notes = or_option dto.notes i.notes;
  terms = or_option dto.terms i.terms;
}

abbrev set_totals : InvoiceTotals → Invoice → Invoice
set_totals totals i = record i {
  subtotal = totals.subtotal;
  tax_amount = totals.tax_amount;
  total = totals.total;
}

abbrev replace_lines : Option (List InvoiceLineDto) → Invoice → Invoice
replace_lines none i = i
replace_lines (some ls) i = record i { line_items = create_lines 0 ls }

abbrev effective_lines : Option (List InvoiceLineDto) → Invoice → List LineInput
effective_lines none invoice = map row_input invoice.line_items
effective_lines (some ls) invoice = map dto_input ls

-- The `data` of `edit`: totals are computed again where the lines or the rate change.
unfoldable pub edit_data : UpdateInvoiceDto → Invoice → Invoice → Invoice
edit_data dto invoice i =
    if is_some dto.line_items || is_some dto.tax_rate_pct_bp
    then replace_lines dto.line_items (
        set_totals
          (compute_totals (effective_lines dto.line_items invoice)
            (or_option dto.tax_rate_pct_bp invoice.tax_rate_pct_bp))
          (edit_fields dto i))
    else edit_fields dto i

-- `edit`
unfoldable pub edit : String → String → UpdateInvoiceDto → Action Invoice
edit seller_id id dto = do
  invoice ← load_owned seller_id id
  throw_if (not (same_invoice_status invoice.status InvoiceStatus.draft))
      (bad_request "Only a DRAFT invoice can be edited")
  update invoice_table (has_invoice_id id) (edit_data dto invoice)
