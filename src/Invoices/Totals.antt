-- ===== src/Invoices/Totals.antt =====
-- The money of an invoice: invoice.compute.ts against a plain sum and exact rounding, and the columns of
-- invoices.service.ts against the lines.
use meduman_backend.Prelude.{
  ℕ, ◌+◌, ◌*◌, ◌≤◌, ◌<◌, String, ◌≡◌, refl, ap, ◌∙◌, Option, none, some, List, [], ◌∷◌, map, arith,
}
use meduman_backend.Store.Rows.{Invoice}
use meduman_backend.Store.World.{World}
use meduman_backend.Invoices.{
  LineInput, compute_line_total, sum_lines, round_bp, tax_of, compute_totals, InvoiceLineDto,
  CreateInvoiceDto, dto_input, row_input, create_lines, new_invoice,
}

-- The sum of the lines, without the accumulator.
abbrev pub lines_value : List LineInput → ℕ
lines_value [] = 0
lines_value (l ∷ ls) = l.unit_price * l.quantity + lines_value ls

sum_lines_lem : (sum : ℕ) (lines : List LineInput) → sum_lines sum lines ≡ sum + lines_value lines
unfolding sum_lines compute_line_total
sum_lines_lem sum [] = omega arith
sum_lines_lem sum (l ∷ ls) = sum_lines_lem (sum + l.unit_price * l.quantity) ls ∙ omega arith

-- `Math.round(n / 10_000)`: the nearest whole number, a half upwards.
pub round_bp_nearest :
    (n : ℕ) → (10000 * round_bp n ≤ n + 5000) × (n + 5000 < 10000 * round_bp n + 10000)
unfolding round_bp
round_bp_nearest n = (omega arith, omega arith)

-- The tax, in hundredths of a per cent of the subtotal, is off by half a kobo at most.
abbrev pub IsTaxOf : ℕ → Option ℕ → ℕ → Type 0
IsTaxOf subtotal none tax = tax ≡ 0
IsTaxOf subtotal (some rate) tax =
    (10000 * tax ≤ subtotal * rate + 5000) × (subtotal * rate + 5000 < 10000 * tax + 10000)

-- The totals of an invoice: the subtotal is the sum over the lines of price times quantity, the tax is the subtotal
-- times the rate rounded half-up to whole kobo, or nothing without a rate, and the total is their sum.
pub compute_totals_lem :
    (lines : List LineInput) (rate : Option ℕ)
    → let t = compute_totals lines rate in
      (t.subtotal ≡ lines_value lines)
      × IsTaxOf t.subtotal rate t.tax_amount
      × (t.total ≡ t.subtotal + t.tax_amount)
unfolding compute_totals tax_of
compute_totals_lem lines none = (omega (arith, sum_lines_lem 0 lines), refl, refl)
compute_totals_lem lines (some rate) =
    (omega (arith, sum_lines_lem 0 lines), round_bp_nearest (sum_lines 0 lines * rate), refl)

-- The money columns of a row are the totals of its lines at its rate.
pub record IsPriced (i : Invoice) : Type 0 where
  pub subtotal :
      i.subtotal ≡ (compute_totals (map row_input i.line_items) i.tax_rate_pct_bp).subtotal
  pub tax_amount :
      i.tax_amount ≡ (compute_totals (map row_input i.line_items) i.tax_rate_pct_bp).tax_amount
  pub total : i.total ≡ (compute_totals (map row_input i.line_items) i.tax_rate_pct_bp).total

map-create_lines :
    (k : ℕ) (ls : List InvoiceLineDto) → map row_input (create_lines k ls) ≡ map dto_input ls
unfolding create_lines
map-create_lines k [] = refl
map-create_lines k (l ∷ ls) = ap (λ rest. dto_input l ∷ rest) (map-create_lines (k + 1) ls)

pub new_invoice-IsPriced :
    (seller_id : String) (dto : CreateInvoiceDto) (view id : String)
    → IsPriced (new_invoice seller_id dto view id)
unfolding new_invoice
new_invoice-IsPriced seller_id dto view id = record {
  subtotal = rw (map-create_lines 0 dto.line_items) refl;
  tax_amount = rw (map-create_lines 0 dto.line_items) refl;
  total = rw (map-create_lines 0 dto.line_items) refl;
}
