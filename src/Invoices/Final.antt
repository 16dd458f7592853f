-- ===== src/Invoices/Final.antt =====
-- The requests, events and jobs of invoices.service.ts as commands, and the row of a PAID or VOID invoice under each.
use mathlib.Core.Option
use meduman_backend.Prelude.{
  ◌==◌, if◌then◌else◌, Bool-cases, Option-cases, ◌===◌, concat, ℕ, ◌+◌, String, ◌≡◌, refl, sym, ap,
  ◌∙◌, inl, inr, Bool, true, false, not, ◌&&◌, Option, none, some, List, [], ◌∷◌, arith, eq_iff,
}
use meduman_backend.Store.Enums.{
  InvoiceStatus, sent, paid, void, invoice_status_name, same_invoice_status,
}
use meduman_backend.Store.Rows.{Invoice}
use meduman_backend.Store.World.{World, invoice_table}
use meduman_backend.Store.Table.{find_first, update_many, find_first-where, find_first-update_many}
use meduman_backend.Store.Action.{
  not_found, bad_request, gets, or_throw, throw_if, select, update_rows, update, truthy, same_text?,
  world_after, result_of, Result-cases,
}
use meduman_backend.Store.Keeps.{
  Keeps, Keeps-pure, Keeps-gets, Keeps-or_throw, Keeps-if, Keeps-throw_if, Keeps-when, Keeps-select,
  Keeps-bind, Keeps-seq,
}
use meduman_backend.Transactions.{
  ApplyTransitionInput, CreateDraftInput, apply, grant_role_flag, create_draft,
}
use meduman_backend.Transactions.Apply.{apply_error_unchanged, refused, apply-Applied}
use meduman_backend.Invoices.{
  CreateInvoiceDto, UpdateInvoiceDto, new_invoice, create_draft_invoice, has_invoice_id,
  get_invoice, load_owned, edit_data, edit,
}
use meduman_backend.Invoices.Lifecycle.{
  write_audit, is_voidable, is_payable, cancel_transition, cancel_linked, mark_void, void_invoice,
  next_counter, allocate_number, draft_for, publish_transition, is_draft, mark_sent_invoice,
  deliver_sent, send_draft, send, remind, is_past_due, mark_overdue, scan_overdue, awaits_payment,
  mark_paid_invoice, audit_paid, mark_paid_by_transaction, mark_viewed, not_draft, note_view,
  get_public_view,
}

abbrev pub is_final : InvoiceStatus → Bool
is_final paid = true
is_final void = true
is_final _ = false

-- The row of an id, as it was.
abbrev pub Stays : String → Invoice → World → Type 0
Stays id i w = find_first (has_invoice_id id) w.invoices ≡ some i

-- The requests, events and cron jobs that change invoices.
pub data InvoiceCommand : Type 0 where
  create_command : (seller_id : String) → CreateInvoiceDto → InvoiceCommand
  edit_command : (seller_id id : String) → UpdateInvoiceDto → InvoiceCommand
  send_command void_command remind_command : (seller_id id : String) → InvoiceCommand
  view_command : (public_view_id : String) → InvoiceCommand
  overdue_command : (now : ℕ) → InvoiceCommand
  paid_command : (transaction_id : String) → InvoiceCommand

unfoldable pub run_command : InvoiceCommand → World → World
run_command (create_command seller_id dto) = world_after (create_draft_invoice seller_id dto)
run_command (edit_command seller_id id dto) = world_after (edit seller_id id dto)
run_command (send_command seller_id id) = world_after (send seller_id id)
run_command (void_command seller_id id) = world_after (void_invoice seller_id id)
run_command (remind_command seller_id id) = world_after (remind seller_id id)
run_command (view_command public_view_id) = world_after (get_public_view public_view_id)
run_command (overdue_command now) = world_after (scan_overdue now)
run_command (paid_command transaction_id) = world_after (mark_paid_by_transaction transaction_id)

-- A create whose identifier is that of the row would stand before it; `uuid()` never draws one again.
abbrev pub IsFresh : String → InvoiceCommand → World → Type 0
IsFresh id (create_command seller_id dto) w = (w.uuid (w.drawn + 1) === id) ≡ false
IsFresh id _ w = Unit

module _ (id : String) (i : Invoice) where
  -- An update of rows that the row is not among.
  update_many-Stays :
      (p : Invoice → Bool) (f : Invoice → Invoice) (xs : List Invoice)
      → ((a : Invoice) → has_invoice_id id (f a) ≡ has_invoice_id id a)
      → p i ≡ false
      → find_first (has_invoice_id id) xs ≡ some i
      → find_first (has_invoice_id id) (update_many p f xs) ≡ some i
  update_many-Stays p f xs same miss found =
      find_first-update_many (has_invoice_id id) p f xs same
      ∙ ap (Option.map (λ a. if p a then f a else a)) found
      ∙ rw miss refl

  apply-Keeps : (input : ApplyTransitionInput) → Keeps (Stays id i) (apply input)
  apply-Keeps input = record {
    at = λ w h. elim (Result-cases (result_of (apply input) w)) [
      | inl (row, moved) ↦
          let (outbound, drawn, jobs, written) = (apply-Applied input w row moved).written in
          rw (ap (λ (v : World). v.invoices) written) h
      | inr (e, refused) ↦ rw (apply_error_unchanged input w e refused) h
    ];
  }

  write_audit-Keeps :
      (a : Option String) (b c : String) (s : Option InvoiceStatus) (t : InvoiceStatus)
      → Keeps (Stays id i) (write_audit a b c s t)
  unfolding write_audit
  write_audit-Keeps a b c s t = record { at = λ w h. h }

  update-Keeps :
      (p : Invoice → Bool) (f : Invoice → Invoice)
      → ((a : Invoice) → has_invoice_id id (f a) ≡ has_invoice_id id a)
      → p i ≡ false
      → Keeps (Stays id i) (update invoice_table p f)
  unfolding find_first
  update-Keeps p f same miss = record {
    at = λ w h. elim (Option-cases (find_first p w.invoices)) [
      | inl gone ↦ rw gone h
      | inr (row, here) ↦ rw here (update_many-Stays p f w.invoices same miss h)
    ];
  }

  update_rows-Keeps :
      (p : Invoice → Bool) (f : Invoice → Invoice)
      → ((a : Invoice) → has_invoice_id id (f a) ≡ has_invoice_id id a)
      → p i ≡ false
      → Keeps (Stays id i) (update_rows invoice_table p f)
  update_rows-Keeps p f same miss = record {
    at = λ w h. update_many-Stays p f w.invoices same miss h;
  }

  module _ (final : is_final i.status ≡ true) where
    scan_overdue-Stays : (now : ℕ) → Keeps (Stays id i) (scan_overdue now)
    unfolding scan_overdue same_invoice_status
    scan_overdue-Stays now =
        update_rows-Keeps (is_past_due now) mark_overdue (λ a. refl) (ground arith)

    audit_paid-Keeps : (o : Option Invoice) → Keeps (Stays id i) (audit_paid o)
    audit_paid-Keeps none = Keeps-pure tt
    audit_paid-Keeps (some j) = write_audit-Keeps _ _ _ _ _

    mark_paid_by_transaction-Stays :
        (transaction_id : String) → Keeps (Stays id i) (mark_paid_by_transaction transaction_id)
    unfolding mark_paid_by_transaction
    mark_paid_by_transaction-Stays transaction_id =
        Keeps-bind (gets (λ w. w.now)) _ (Keeps-gets _) (λ now.
          Keeps-bind
            (update_rows invoice_table (awaits_payment transaction_id) (mark_paid_invoice now)) _
            (update_rows-Keeps _ _ (λ a. refl) (ground arith))
            (λ flipped. Keeps-when (flipped == 1) _ (
              Keeps-bind
                (select invoice_table (λ j. same_text? j.transaction_id (some transaction_id))) _
                (Keeps-select invoice_table _) (λ found. audit_paid-Keeps found))))

    note_view-Keeps : (j : Invoice) (now : ℕ) → Keeps (Stays id i) (note_view j now)
    unfolding same_invoice_status
    note_view-Keeps j now =
        Keeps-seq
          (update_rows invoice_table (λ a. a.id === j.id && same_invoice_status a.status sent)
            (mark_viewed now))
          _ (update_rows-Keeps _ _ (λ a. refl) (ground arith)) (Keeps-pure _)

    get_public_view-Stays : (view : String) → Keeps (Stays id i) (get_public_view view)
    unfolding get_public_view
    get_public_view-Stays view =
        Keeps-bind (select invoice_table (λ a. a.public_view_id === view)) _
          (Keeps-select invoice_table _)
          (λ found.
            Keeps-bind (or_throw (not_draft found) (not_found "Invoice not found")) _
              (Keeps-or_throw _ _)
              (λ j. Keeps-bind (gets (λ w. w.now)) _ (Keeps-gets _) (λ now.
                Keeps-if (same_invoice_status j.status sent) _ _ (note_view-Keeps j now)
                  (Keeps-pure j))))

    cancel_linked-Keeps :
        (seller_id : String) (invoice : Invoice) (j : String) (o : Option String)
        → Keeps (Stays id i) (cancel_linked seller_id invoice j o)
    cancel_linked-Keeps seller_id invoice j none = Keeps-pure tt
    cancel_linked-Keeps seller_id invoice j (some t) =
        Keeps-seq (apply (cancel_transition seller_id invoice j t)) _ (apply-Keeps _)
          (Keeps-pure tt)

    load_owned-Keeps : (seller_id j : String) → Keeps (Stays id i) (load_owned seller_id j)
    unfolding load_owned get_invoice
    load_owned-Keeps seller_id j = record { at = λ w h. ground (arith, h) }

    void_other-Keeps :
        (seller_id j : String)
        → (i.id === j) ≡ false
        → Keeps (Stays id i) (void_invoice seller_id j)
    unfolding void_invoice invoice_status_name
    void_other-Keeps seller_id j differs =
        Keeps-bind (load_owned seller_id j) _ (load_owned-Keeps seller_id j) (λ invoice.
          Keeps-seq
            (throw_if (not (is_voidable invoice.status)) (
              bad_request (
                concat
                  ("Cannot void an invoice in status " ∷ invoice_status_name invoice.status ∷ []))))
            _ (Keeps-throw_if _ _)
            (Keeps-seq (cancel_linked seller_id invoice j (truthy invoice.transaction_id)) _
              (cancel_linked-Keeps seller_id invoice j (truthy invoice.transaction_id))
              (Keeps-bind (gets (λ w. w.now)) _ (Keeps-gets _) (λ now.
                Keeps-bind (update invoice_table (has_invoice_id j) (mark_void now)) _
                  (update-Keeps _ _ (λ a. refl) differs)
                  (λ updated.
                    Keeps-seq
                      (write_audit (some seller_id) j "invoice.voided" (some invoice.status) void) _
                      (write_audit-Keeps _ _ _ _ _) (Keeps-pure updated))))))

    -- Voiding the invoice itself throws before it writes.
    void_own :
        (seller_id : String) (w : World)
        → Stays id i w
        → world_after (void_invoice seller_id id) w ≡ w
    unfolding void_invoice load_owned get_invoice find_first
    void_own seller_id w h = ground (arith, h)

    void_invoice-Stays : (seller_id j : String) → Keeps (Stays id i) (void_invoice seller_id j)
    void_invoice-Stays seller_id j = record {
      at = λ w h. elim (Bool-cases (i.id === j)) [
        | inr differs ↦ (void_other-Keeps seller_id j differs).at w h
        | inl own ↦ own_row w h (
            sym ((eq_iff i.id j).0 own)
            ∙ (eq_iff i.id id).0 (find_first-where (has_invoice_id id) w.invoices h))
      ];
    }
      where
        own_row :
            (w : World)
            → Stays id i w
            → j ≡ id
            → Stays id i (world_after (void_invoice seller_id j) w)
        own_row w h e = rw e (rw (void_own seller_id w h) h)

    remind-Stays : (seller_id j : String) → Keeps (Stays id i) (remind seller_id j)
    unfolding remind invoice_status_name
    remind-Stays seller_id j =
        Keeps-bind (load_owned seller_id j) _ (load_owned-Keeps seller_id j) (λ invoice.
          Keeps-seq
            (throw_if (not (is_payable invoice.status)) (
              bad_request (
                concat (
                  "Cannot remind an invoice in status "
                  ∷ invoice_status_name invoice.status
                  ∷ []))))
            _ (Keeps-throw_if _ _)
            (Keeps-seq
              (write_audit (some seller_id) j "invoice.reminded" (some invoice.status)
                invoice.status)
              _ (write_audit-Keeps _ _ _ _ _) (record { at = λ w h. ground (arith, h) })))

    create_draft-Keeps : (input : CreateDraftInput) → Keeps (Stays id i) (create_draft input)
    unfolding create_draft grant_role_flag
    create_draft-Keeps input = record { at = λ w h. ground (arith, h) }

    allocate_number-Keeps : (seller_id : String) → Keeps (Stays id i) (allocate_number seller_id)
    unfolding allocate_number next_counter
    allocate_number-Keeps seller_id = record { at = λ w h. ground (arith, h) }

    deliver_sent-Keeps :
        (seller_id j : String) (flipped : ℕ) → Keeps (Stays id i) (deliver_sent seller_id j flipped)
    unfolding write_audit get_invoice
    deliver_sent-Keeps seller_id j flipped = record { at = λ w h. ground (arith, h) }

    send_draft-Keeps :
        (seller_id j : String) (invoice : Invoice)
        → Keeps (Stays id i) (send_draft seller_id j invoice)
    unfolding send_draft same_invoice_status
    send_draft-Keeps seller_id j invoice =
        Keeps-seq
          (throw_if (invoice.total == 0) (bad_request "Cannot send an invoice with a zero total")) _
          (Keeps-throw_if _ _)
          (Keeps-bind (create_draft (draft_for seller_id invoice)) _ (create_draft-Keeps _) (λ tx.
            Keeps-seq (apply (publish_transition seller_id tx.id)) _ (apply-Keeps _) (
              Keeps-bind (allocate_number seller_id) _ (allocate_number-Keeps seller_id)
                (λ allocated. Keeps-bind (gets (λ w. w.now)) _ (Keeps-gets _) (λ now.
                  Keeps-bind
                    (update_rows invoice_table (is_draft j) (mark_sent_invoice allocated tx.id now))
                    _ (update_rows-Keeps _ _ (λ a. refl) (ground arith))
                    (λ flipped. deliver_sent-Keeps seller_id j flipped))))))

    send-Stays : (seller_id j : String) → Keeps (Stays id i) (send seller_id j)
    unfolding send
    send-Stays seller_id j =
        Keeps-bind (load_owned seller_id j) _ (load_owned-Keeps seller_id j)
          (λ invoice. Keeps-if _ _ _ (Keeps-pure invoice) (send_draft-Keeps seller_id j invoice))

    edit_other-Keeps :
        (seller_id j : String) (dto : UpdateInvoiceDto)
        → (i.id === j) ≡ false
        → Keeps (Stays id i) (edit seller_id j dto)
    unfolding edit edit_data
    edit_other-Keeps seller_id j dto differs =
        Keeps-bind (load_owned seller_id j) _ (load_owned-Keeps seller_id j) (λ invoice.
          Keeps-seq
            (throw_if (not (same_invoice_status invoice.status InvoiceStatus.draft))
              (bad_request "Only a DRAFT invoice can be edited"))
            _ (Keeps-throw_if _ _)
            (update-Keeps (has_invoice_id j) (edit_data dto invoice) (λ a. same_id dto invoice a)
              differs))
      where
        same_id :
            (dto : UpdateInvoiceDto) (invoice a : Invoice)
            → has_invoice_id id (edit_data dto invoice a) ≡ has_invoice_id id a
        same_id dto invoice a = ground arith

    edit_own :
        (seller_id : String) (dto : UpdateInvoiceDto) (w : World)
        → Stays id i w
        → world_after (edit seller_id id dto) w ≡ w
    unfolding edit load_owned get_invoice find_first same_invoice_status
    edit_own seller_id dto w h = ground (arith, h)

    edit-Stays :
        (seller_id j : String) (dto : UpdateInvoiceDto) → Keeps (Stays id i) (edit seller_id j dto)
    edit-Stays seller_id j dto = record {
      at = λ w h. elim (Bool-cases (i.id === j)) [
        | inr differs ↦ (edit_other-Keeps seller_id j dto differs).at w h
        | inl own ↦ own_row w h (
            sym ((eq_iff i.id j).0 own)
            ∙ (eq_iff i.id id).0 (find_first-where (has_invoice_id id) w.invoices h))
      ];
    }
      where
        own_row :
            (w : World) → Stays id i w → j ≡ id → Stays id i (world_after (edit seller_id j dto) w)
        own_row w h e = rw e (rw (edit_own seller_id dto w h) h)

    -- None of the eight requests, events and jobs of invoices.service.ts changes the row of an invoice that is PAID or
    -- VOID, if no new invoice draws its identifier.
    pub final_invoice_lem :
        (command : InvoiceCommand) (w : World)
        → IsFresh id command w
        → Stays id i w
        → Stays id i (run_command command w)
    unfolding run_command create_draft_invoice new_invoice find_first
    final_invoice_lem (create_command seller_id dto) w fresh h = rw fresh h
    final_invoice_lem (edit_command seller_id j dto) w fresh h = (edit-Stays seller_id j dto).at w h
    final_invoice_lem (send_command seller_id j) w fresh h = (send-Stays seller_id j).at w h
    final_invoice_lem (void_command seller_id j) w fresh h = (void_invoice-Stays seller_id j).at w h
    final_invoice_lem (remind_command seller_id j) w fresh h = (remind-Stays seller_id j).at w h
    final_invoice_lem (view_command public_view_id) w fresh h =
        (get_public_view-Stays public_view_id).at w h
    final_invoice_lem (overdue_command now) w fresh h = (scan_overdue-Stays now).at w h
    final_invoice_lem (paid_command transaction_id) w fresh h =
        (mark_paid_by_transaction-Stays transaction_id).at w h
