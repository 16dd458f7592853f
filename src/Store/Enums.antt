-- ===== src/Store/Enums.antt =====
-- The closed sets of values in prisma/schema.prisma.
use meduman_backend.Prelude.{◌==◌, ℕ, zero, suc, String, ◌≡◌, refl, sym, ap, ◌∙◌, Bool, true, arith}

pub data TransactionStatus : Type 0 where
  draft link_active payment_pending payment_protected : TransactionStatus
  delivery_in_progress confirmation_pending disputed release_processing : TransactionStatus
  completed refunded cancelled expired : TransactionStatus

pub data TransactionOrigin : Type 0 where
  web telegram whatsapp instagram messenger x eaas : TransactionOrigin

pub data ReleaseRule : Type 0 where
  buyer_confirmation auto_after_window admin_only : ReleaseRule

pub data FeeModel : Type 0 where
  buyer_pays seller_pays : FeeModel

pub data PaymentStatus : Type 0 where
  pending success failed abandoned : PaymentStatus

pub data PayoutStatus : Type 0 where
  pending processing success failed reversed : PayoutStatus

pub data DisputeReason : Type 0 where
  item_not_received not_as_described damaged seller_unresponsive : DisputeReason
  wrong_item fraud other : DisputeReason

pub data DisputeStatus : Type 0 where
  opened under_review resolved_release resolved_refund resolved_partial cancelled : DisputeStatus

pub data DisputeOutcome : Type 0 where
  refund release replacement partial_refund : DisputeOutcome

pub data OtpPurpose : Type 0 where
  delivery_confirmation release_authorization high_value_stepup : OtpPurpose

pub data InvoiceStatus : Type 0 where
  draft sent viewed paid overdue void : InvoiceStatus

pub data ActorType : Type 0 where
  user admin system : ActorType

pub data OutboundEventStatus : Type 0 where
  pending delivered failed : OutboundEventStatus

pub data UserRole : Type 0 where
  buyer seller freelancer business : UserRole

pub data UserStatus : Type 0 where
  active suspended deactivated : UserStatus

-- The position of a status in its enum, by which two statuses are compared.
status_index : TransactionStatus → ℕ
status_index draft = 0
status_index link_active = 1
status_index payment_pending = 2
status_index payment_protected = 3
status_index delivery_in_progress = 4
status_index confirmation_pending = 5
status_index disputed = 6
status_index release_processing = 7
status_index completed = 8
status_index refunded = 9
status_index cancelled = 10
status_index expired = 11

-- `a === b` on statuses
unfoldable pub same_status : TransactionStatus → TransactionStatus → Bool
unfolding status_index
same_status a b = status_index a == status_index b

pub same_status_refl : (a : TransactionStatus) → same_status a a ≡ true
unfolding same_status
same_status_refl a = ground arith

status_of_index : ℕ → TransactionStatus → TransactionStatus
status_of_index zero d = draft
status_of_index (suc zero) d = link_active
status_of_index (suc (suc zero)) d = payment_pending
status_of_index (suc (suc (suc zero))) d = payment_protected
status_of_index (suc (suc (suc (suc zero)))) d = delivery_in_progress
status_of_index (suc (suc (suc (suc (suc zero))))) d = confirmation_pending
status_of_index (suc (suc (suc (suc (suc (suc zero)))))) d = disputed
status_of_index (suc (suc (suc (suc (suc (suc (suc zero))))))) d = release_processing
status_of_index (suc (suc (suc (suc (suc (suc (suc (suc zero)))))))) d = completed
status_of_index (suc (suc (suc (suc (suc (suc (suc (suc (suc zero))))))))) d = refunded
status_of_index (suc (suc (suc (suc (suc (suc (suc (suc (suc (suc zero)))))))))) d = cancelled
status_of_index _ d = expired

status_of_index_lem : (a d : TransactionStatus) → status_of_index (status_index a) d ≡ a
unfolding status_of_index status_index
status_of_index_lem draft d = refl
status_of_index_lem _ d = refl

pub same_status→eq : (a b : TransactionStatus) → same_status a b ≡ true → a ≡ b
unfolding same_status
same_status→eq a b h =
    let e : status_index a ≡ status_index b = ground arith in
    sym (status_of_index_lem a draft)
    ∙ ap (λ n. status_of_index n draft) e
    ∙ status_of_index_lem b draft

-- The name of a status, as the database and the messages write it.
unfoldable pub status_name : TransactionStatus → String
status_name draft = "DRAFT"
status_name link_active = "LINK_ACTIVE"
status_name payment_pending = "PAYMENT_PENDING"
status_name payment_protected = "PAYMENT_PROTECTED"
status_name delivery_in_progress = "DELIVERY_IN_PROGRESS"
status_name confirmation_pending = "CONFIRMATION_PENDING"
status_name disputed = "DISPUTED"
status_name release_processing = "RELEASE_PROCESSING"
status_name completed = "COMPLETED"
status_name refunded = "REFUNDED"
status_name cancelled = "CANCELLED"
status_name expired = "EXPIRED"

unfoldable pub payout_status_name : PayoutStatus → String
payout_status_name PayoutStatus.pending = "PENDING"
payout_status_name PayoutStatus.processing = "PROCESSING"
payout_status_name PayoutStatus.success = "SUCCESS"
payout_status_name PayoutStatus.failed = "FAILED"
payout_status_name PayoutStatus.reversed = "REVERSED"

unfoldable pub dispute_status_name : DisputeStatus → String
dispute_status_name opened = "OPEN"
dispute_status_name under_review = "UNDER_REVIEW"
dispute_status_name resolved_release = "RESOLVED_RELEASE"
dispute_status_name resolved_refund = "RESOLVED_REFUND"
dispute_status_name resolved_partial = "RESOLVED_PARTIAL"
dispute_status_name DisputeStatus.cancelled = "CANCELLED"

unfoldable pub invoice_status_name : InvoiceStatus → String
invoice_status_name InvoiceStatus.draft = "DRAFT"
invoice_status_name sent = "SENT"
invoice_status_name viewed = "VIEWED"
invoice_status_name paid = "PAID"
invoice_status_name overdue = "OVERDUE"
invoice_status_name void = "VOID"

-- The position of an invoice's status in its enum.
invoice_status_index : InvoiceStatus → ℕ
invoice_status_index InvoiceStatus.draft = 0
invoice_status_index sent = 1
invoice_status_index viewed = 2
invoice_status_index paid = 3
invoice_status_index overdue = 4
invoice_status_index void = 5

-- `a === b` on the statuses of invoices
unfoldable pub same_invoice_status : InvoiceStatus → InvoiceStatus → Bool
unfolding invoice_status_index
same_invoice_status a b = invoice_status_index a == invoice_status_index b
