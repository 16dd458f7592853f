-- ===== src/Store/Rows.antt =====
-- The tables of prisma/schema.prisma: one record for a row, with the columns that the services
-- below read or write. A `Json` column of audit facts is a list of named values.
use meduman_backend.Prelude.{ℕ, String, Bool, List, Option}
use meduman_backend.Prelude.Int.{ℤ}
use meduman_backend.Store.Enums.{
  TransactionStatus, TransactionOrigin, ReleaseRule, FeeModel, PaymentStatus, PayoutStatus,
  DisputeReason, DisputeStatus, DisputeOutcome, OtpPurpose, InvoiceStatus, ActorType,
  OutboundEventStatus, UserRole, UserStatus,
}

-- A field of a `Json` value; `date` is in milliseconds.
pub data Value : Type 0 where
  null : Value
  text : String → Value
  number : ℤ → Value
  date : ℕ → Value
  flag : Bool → Value

abbrev pub Metadata : Type 0
Metadata = List (String × Value)

pub record Transaction : Type 0 where
  pub id : String
  pub public_link_id : String
  pub seller_id : String
  pub buyer_id : Option String
  pub title : String
  pub description : Option String
  pub amount : ℤ
  pub currency : String
  pub status : TransactionStatus
  pub release_rule : ReleaseRule
  pub expected_delivery_date : Option ℕ
  pub fee_model : FeeModel
  pub fee_amount : ℤ
  pub merchant_id : Option String
  pub origin : TransactionOrigin
  pub created_at : ℕ

pub record Dispute : Type 0 where
  pub id : String
  pub transaction_id : String
  pub opened_by : String
  pub reason : DisputeReason
  pub description : Option String
  pub desired_outcome : Option DisputeOutcome
  pub status : DisputeStatus
  pub resolution : Option String
  pub resolved_at : Option ℕ
  pub resolved_by : Option String

pub record TimelineEvent : Type 0 where
  pub id : String
  pub transaction_id : String
  pub actor_id : Option String
  pub actor_role : Option String
  pub type : String
  pub old_state : TransactionStatus
  pub new_state : TransactionStatus
  pub reason : Option String
  pub created_at : ℕ

pub record AuditLog : Type 0 where
  pub actor_id : Option String
  pub actor_type : ActorType
  pub action : String
  pub target_type : String
  pub target_id : Option String
  pub reason : Option String
  pub metadata : Metadata

pub record OutboundEvent : Type 0 where
  pub id : String
  pub merchant_id : String
  pub type : String
  pub transaction_id : String
  pub payload_status : TransactionStatus
  pub payload_amount : ℤ
  pub payload_currency : String
  pub payload_title : String
  pub status : OutboundEventStatus
  pub attempt_count : ℕ
  pub last_error : Option String
  pub delivered_at : Option ℕ
  pub created_at : ℕ

pub record Payment : Type 0 where
  pub id : String
  pub transaction_id : String
  pub provider_reference : String
  pub provider_charge_reference : Option String
  pub provider_customer_code : Option String
  pub provider_dedicated_account_id : Option String
  pub virtual_account_number : Option String
  pub virtual_account_bank : Option String
  pub amount : ℤ
  pub currency : String
  pub status : PaymentStatus
  pub verified_at : Option ℕ
  pub created_at : ℕ

pub record Payout : Type 0 where
  pub id : String
  pub transaction_id : String
  pub seller_id : String
  pub idempotency_key : String
  pub provider_transfer_code : Option String
  pub provider_transfer_reference : Option String
  pub amount : ℤ
  pub currency : String
  pub status : PayoutStatus
  pub attempt_count : ℕ
  pub last_error : Option String
  pub merchant_id : Option String

pub record SellerProfile : Type 0 where
  pub user_id : String
  pub provider_recipient_code : Option String

pub record User : Type 0 where
  pub id : String
  pub email : String
  pub phone : Option String
  pub role_flags : List UserRole
  pub status : UserStatus
  pub merged_into_user_id : Option String
  pub merged_at : Option ℕ

pub record OtpCode : Type 0 where
  pub id : String
  pub transaction_id : String
  pub code_hash : String
  pub purpose : OtpPurpose
  pub expires_at : ℕ
  pub attempt_count : ℕ
  pub consumed_at : Option ℕ

pub record WebhookEvent : Type 0 where
  pub id : String
  pub provider_event_id : String
  pub event_type : String
  pub processed_at : Option ℕ
  pub processing_result : Option String

pub record InvoiceLineItem : Type 0 where
  pub title : String
  pub description : Option String
  pub quantity : ℕ
  pub unit_price : ℕ
  pub line_total : ℕ
  pub position : ℕ

pub record Invoice : Type 0 where
  pub id : String
  pub seller_id : String
  pub number : String
  pub buyer_id : Option String
  pub buyer_name : Option String
  pub buyer_email : Option String
  pub buyer_phone : Option String
  pub status : InvoiceStatus
  pub due_date : Option ℕ
  pub currency : String
  pub subtotal : ℕ
  pub tax_rate_pct_bp : Option ℕ
  pub tax_amount : ℕ
  pub total : ℕ
  pub notes : Option String
  pub terms : Option String
  pub transaction_id : Option String
  pub public_view_id : String
  pub sent_at : Option ℕ
  pub viewed_at : Option ℕ
  pub paid_at : Option ℕ
  pub voided_at : Option ℕ
  pub line_items : List InvoiceLineItem

pub record InvoiceCounter : Type 0 where
  pub seller_id : String
  pub next_seq : ℕ
