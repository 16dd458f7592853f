-- ===== src/Invoices/Lifecycle.antt =====
-- modules/invoices/invoices.service.ts, an invoice's life after the draft: sent, viewed, overdue, paid, void.
use meduman_backend.Prelude.{
  ltb, ◌==◌, if◌then◌else◌, or_else, is_some, ◌===◌, concat, decimal, pad_zeros, ℕ, ◌+◌, ◌-◌,
  String, Bool, true, false, not, ◌&&◌, ◌||◌, Option, none, some, [], ◌∷◌,
}
use meduman_backend.Prelude.Int.{pos}
use meduman_backend.Store.Enums.{
  web, InvoiceStatus, sent, viewed, paid, overdue, void, user, system, invoice_status_name,
  same_invoice_status,
}
use meduman_backend.Store.Rows.{Value, null, text, Invoice, InvoiceCounter}
use meduman_backend.Store.World.{invoice_delivery, invoice_table, counter_table}
use meduman_backend.Store.Table.{find_first}
use meduman_backend.Store.Action.{
  not_found, bad_request, ok, Action, pure, gets, or_throw, ◌>>=◌, ◌>>◌, throw_if, when, enqueue,
  select, insert, update_rows, update, truthy, same_text?,
}
use meduman_backend.Machine.{seller_publish, cancel}
use meduman_backend.Transactions.{ApplyTransitionInput, CreateDraftInput, apply, create_draft}
use meduman_backend.Invoices.{has_invoice_id, get_invoice, load_owned}

-- `writeAudit`
unfoldable pub write_audit :
    Option String → String → String → Option InvoiceStatus → InvoiceStatus → Action (Unit {0})
unfolding invoice_status_name
write_audit actor_id invoice_id action from to w = (
  ok tt,
  record w {
    audit =
        record {
          actor_id = actor_id;
          actor_type = if is_some (truthy actor_id) then user else system;
          action = action;
          target_type = "Invoice";
          target_id = some invoice_id;
          reason = none;
          metadata = ("from", status_value from) ∷ ("to", text (invoice_status_name to)) ∷ [];
        }
        ∷ w.audit;
  },
)
  where
    status_value : Option InvoiceStatus → Value
    status_value none = null
    status_value (some s) = text (invoice_status_name s)

-- `VOIDABLE_STATUSES`
abbrev pub is_voidable : InvoiceStatus → Bool
is_voidable InvoiceStatus.draft = true
is_voidable sent = true
is_voidable viewed = true
is_voidable overdue = true
is_voidable _ = false

-- The statuses in which an invoice waits for its payment: `remindable`, and those of `markPaidByTransaction`.
abbrev pub is_payable : InvoiceStatus → Bool
is_payable sent = true
is_payable viewed = true
is_payable overdue = true
is_payable _ = false

abbrev pub cancel_transition : String → Invoice → String → String → ApplyTransitionInput
cancel_transition seller_id invoice id transaction_id = record {
  transaction_id = transaction_id;
  event = cancel;
  actor = record { id = some seller_id; type = user; role = some "SELLER" };
  reason = some (concat ("invoice " ∷ or_else (truthy (some invoice.number)) id ∷ " voided" ∷ []));
  has_open_dispute = none;
  auto_confirm_window_elapsed = none;
}

abbrev pub cancel_linked : String → Invoice → String → Option String → Action (Unit {0})
cancel_linked seller_id invoice id none = pure tt
cancel_linked seller_id invoice id (some transaction_id) = do
  apply (cancel_transition seller_id invoice id transaction_id)
  pure tt

abbrev pub mark_void : ℕ → Invoice → Invoice
mark_void now i = record i { status = void; voided_at = some now }

-- `void`
unfoldable pub void_invoice : String → String → Action Invoice
unfolding invoice_status_name
void_invoice seller_id id = do
  invoice ← load_owned seller_id id
  throw_if (not (is_voidable invoice.status)) (
      bad_request
        (concat ("Cannot void an invoice in status " ∷ invoice_status_name invoice.status ∷ [])))
  cancel_linked seller_id invoice id (truthy invoice.transaction_id)
  now ← gets (λ w. w.now)
  updated ← update invoice_table (has_invoice_id id) (mark_void now)
  write_audit (some seller_id) id "invoice.voided" (some invoice.status) void
  pure updated

-- `upsert` of the seller's counter: the row after it.
unfoldable pub next_counter : String → Action InvoiceCounter
next_counter seller_id w =
    elim (find_first (λ (c : InvoiceCounter). c.seller_id === seller_id) w.counters) [
      | none ↦ insert counter_table (record { seller_id = seller_id; next_seq = 2 }) w
      | some c ↦
          update counter_table (λ (d : InvoiceCounter). d.seller_id === seller_id)
            (λ d. record d { next_seq = d.next_seq + 1 }) w
    ]

-- `INV-0001`
unfoldable pub invoice_number : ℕ → String
invoice_number seq = concat ("INV-" ∷ pad_zeros 4 (decimal seq) ∷ [])

-- `allocateNumber`
unfoldable pub allocate_number : String → Action String
allocate_number seller_id = do
  counter ← next_counter seller_id
  pure (invoice_number (counter.next_seq - 1))

abbrev pub draft_for : String → Invoice → CreateDraftInput
draft_for seller_id invoice = record {
  seller_id = seller_id;
  title = or_else (truthy (some invoice.number)) "Invoice";
  amount = pos invoice.total;
  description = none;
  currency = some invoice.currency;
  release_rule = none;
  fee_model = none;
  fee_amount = none;
  expected_delivery_date = none;
  merchant_id = none;
  origin = some web;
}

abbrev pub publish_transition : String → String → ApplyTransitionInput
publish_transition seller_id transaction_id = record {
  transaction_id = transaction_id;
  event = seller_publish;
  actor = record { id = some seller_id; type = user; role = some "SELLER" };
  reason = some "invoice sent";
  has_open_dispute = none;
  auto_confirm_window_elapsed = none;
}

-- `where: { id, status: DRAFT }`
abbrev pub is_draft : String → Invoice → Bool
is_draft id i = i.id === id && same_invoice_status i.status InvoiceStatus.draft

abbrev pub mark_sent_invoice : String → String → ℕ → Invoice → Invoice
mark_sent_invoice allocated transaction_id now i = record i {
  status = sent;
  number = allocated;
  transaction_id = some transaction_id;
  sent_at = some now;
}

-- `send` after the conditional update has counted its rows.
abbrev pub deliver_sent : String → String → ℕ → Action Invoice
deliver_sent seller_id id flipped = if not (flipped == 1) then get_invoice id else do
  write_audit (some seller_id) id "invoice.sent" (some InvoiceStatus.draft) sent
  enqueue (invoice_delivery id)
  get_invoice id

-- The part of `send` for an invoice that is still a draft.
unfoldable pub send_draft : String → String → Invoice → Action Invoice
send_draft seller_id id invoice = do
  throw_if (invoice.total == 0) (bad_request "Cannot send an invoice with a zero total")
  tx ← create_draft (draft_for seller_id invoice)
  apply (publish_transition seller_id tx.id)
  allocated ← allocate_number seller_id
  now ← gets (λ w. w.now)
  flipped ← update_rows invoice_table (is_draft id) (mark_sent_invoice allocated tx.id now)
  deliver_sent seller_id id flipped

-- `send`
unfoldable pub send : String → String → Action Invoice
send seller_id id = do
  invoice ← load_owned seller_id id
  if not (same_invoice_status invoice.status InvoiceStatus.draft)
      then pure invoice
      else send_draft seller_id id invoice

-- `remind`
unfoldable pub remind : String → String → Action (Unit {0})
unfolding invoice_status_name
remind seller_id id = do
  invoice ← load_owned seller_id id
  throw_if (not (is_payable invoice.status)) (
      bad_request
        (concat ("Cannot remind an invoice in status " ∷ invoice_status_name invoice.status ∷ [])))
  write_audit (some seller_id) id "invoice.reminded" (some invoice.status) invoice.status
  enqueue (invoice_delivery id)

abbrev before : ℕ → Option ℕ → Bool
before now none = false
before now (some due) = ltb due now

-- The rows that `scanOverdue` flips.
abbrev pub is_past_due : ℕ → Invoice → Bool
is_past_due now i =
    (same_invoice_status i.status sent || same_invoice_status i.status viewed)
    && before now i.due_date

abbrev pub mark_overdue : Invoice → Invoice
mark_overdue i = record i { status = overdue }

-- `scanOverdue`
unfoldable pub scan_overdue : ℕ → Action ℕ
scan_overdue now = update_rows invoice_table (is_past_due now) mark_overdue

-- The rows that `markPaidByTransaction` flips.
abbrev pub awaits_payment : String → Invoice → Bool
awaits_payment transaction_id i =
    same_text? i.transaction_id (some transaction_id) && is_payable i.status

abbrev pub mark_paid_invoice : ℕ → Invoice → Invoice
mark_paid_invoice now i = record i { status = paid; paid_at = some now }

abbrev pub audit_paid : Option Invoice → Action (Unit {0})
audit_paid none = pure tt
audit_paid (some i) = write_audit none i.id "invoice.paid" none paid

-- `markPaidByTransaction`
unfoldable pub mark_paid_by_transaction : String → Action (Unit {0})
mark_paid_by_transaction transaction_id = do
  now ← gets (λ w. w.now)
  flipped ← update_rows invoice_table (awaits_payment transaction_id) (mark_paid_invoice now)
  when (flipped == 1) (do
    found ← select invoice_table (λ i. same_text? i.transaction_id (some transaction_id))
    audit_paid found)

abbrev pub mark_viewed : ℕ → Invoice → Invoice
mark_viewed now i = record i { status = viewed; viewed_at = some now }

abbrev pub not_draft : Option Invoice → Option Invoice
not_draft none = none
not_draft (some i) = if same_invoice_status i.status InvoiceStatus.draft then none else some i

-- The write of `getPublicView`, on the first view of an invoice that was sent.
abbrev pub note_view : Invoice → ℕ → Action Invoice
note_view invoice now = do
  update_rows invoice_table (λ i. i.id === invoice.id && same_invoice_status i.status sent)
      (mark_viewed now)
  pure (record invoice { status = viewed })

-- `getPublicView`, up to the projection of the row to the fields that a buyer may see.
unfoldable pub get_public_view : String → Action Invoice
get_public_view public_view_id = do
  found ← select invoice_table (λ i. i.public_view_id === public_view_id)
  invoice ← or_throw (not_draft found) (not_found "Invoice not found")
  now ← gets (λ w. w.now)
  if same_invoice_status invoice.status sent then note_view invoice now else pure invoice
