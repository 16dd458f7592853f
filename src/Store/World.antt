-- ===== src/Store/World.antt =====
-- What a request sees: the tables, the jobs put on the queues, the clock, and the identifiers that
-- the database and `randomUUID` will draw. `transfers` are the payouts that Paystack was
-- asked for, newest first, and `queue_error` the error of a queue that does not answer.
-- A table lists its rows newest first.
use meduman_backend.Prelude.{ℕ, String, Option, List}
use meduman_backend.Prelude.Int.{ℤ}
use meduman_backend.Store.Enums.{OtpPurpose}
use meduman_backend.Store.Rows.{
  Metadata, Transaction, Dispute, TimelineEvent, AuditLog, OutboundEvent, Payment, Payout,
  SellerProfile, User, OtpCode, WebhookEvent, Invoice, InvoiceCounter,
}
use meduman_backend.Store.ChatRows.{
  ChatIdentity, ChatLinkRequest, Profile, Notification, Evidence, ChatSession, InboundChatMessage,
  ChatInboundEvent,
}
use meduman_backend.Store.MerchantRows.{WebhookEndpoint}

-- The jobs of modules/queue/queue.constants.ts.
pub data Job : Type 0 where
  release : (transaction_id : String) → Job
  webhook_delivery : (event_id : String) → Job
  chat_outbound : (user_id template_key : String) → Metadata → Job
  otp_notification : (transaction_id otp_id code : String) → OtpPurpose → Job
  invoice_delivery : (invoice_id : String) → Job
  chat_inbound : InboundChatMessage → Job

-- The body of `POST /transfer`: what Paystack was asked to pay out.
pub record TransferRequest : Type 0 where
  pub amount : ℤ
  pub recipient : String
  pub reference : String
  pub reason : String

-- A request to a merchant's endpoint: what was put on the wire.
pub record WebhookPost : Type 0 where
  pub url : String
  pub event_id : String
  pub signature : String
  pub body : String

pub record World : Type 0 where
  pub transactions : List Transaction
  pub disputes : List Dispute
  pub timeline : List TimelineEvent
  pub audit : List AuditLog
  pub outbound : List OutboundEvent
  pub payments : List Payment
  pub payouts : List Payout
  pub sellers : List SellerProfile
  pub users : List User
  pub otp_codes : List OtpCode
  pub webhook_events : List WebhookEvent
  pub invoices : List Invoice
  pub counters : List InvoiceCounter
  pub chat_identities : List ChatIdentity
  pub link_requests : List ChatLinkRequest
  pub profiles : List Profile
  pub notifications : List Notification
  pub evidence : List Evidence
  pub sessions : List ChatSession
  pub inbound : List ChatInboundEvent
  pub endpoints : List WebhookEndpoint
  pub posted : List WebhookPost
  pub jobs : List Job
  pub queue_error : Option String
  pub transfers : List TransferRequest
  pub now : ℕ
  pub uuid : ℕ → String
  pub drawn : ℕ

-- A table of the world: how it is read, and how it is written.
pub record TableOf (A : Type 0) : Type 0 where
  pub rows : World → List A
  pub put : List A → World → World

abbrev pub transaction_table : TableOf Transaction
transaction_table = record {
  rows = λ w. w.transactions;
  put = λ xs w. record w { transactions = xs };
}

abbrev pub dispute_table : TableOf Dispute
dispute_table = record { rows = λ w. w.disputes; put = λ xs w. record w { disputes = xs } }

abbrev pub timeline_table : TableOf TimelineEvent
timeline_table = record { rows = λ w. w.timeline; put = λ xs w. record w { timeline = xs } }

abbrev pub audit_table : TableOf AuditLog
audit_table = record { rows = λ w. w.audit; put = λ xs w. record w { audit = xs } }

abbrev pub outbound_table : TableOf OutboundEvent
outbound_table = record { rows = λ w. w.outbound; put = λ xs w. record w { outbound = xs } }

abbrev pub payment_table : TableOf Payment
payment_table = record { rows = λ w. w.payments; put = λ xs w. record w { payments = xs } }

abbrev pub payout_table : TableOf Payout
payout_table = record { rows = λ w. w.payouts; put = λ xs w. record w { payouts = xs } }

abbrev pub seller_table : TableOf SellerProfile
seller_table = record { rows = λ w. w.sellers; put = λ xs w. record w { sellers = xs } }

abbrev pub user_table : TableOf User
user_table = record { rows = λ w. w.users; put = λ xs w. record w { users = xs } }

abbrev pub otp_table : TableOf OtpCode
otp_table = record { rows = λ w. w.otp_codes; put = λ xs w. record w { otp_codes = xs } }

abbrev pub webhook_table : TableOf WebhookEvent
webhook_table = record {
  rows = λ w. w.webhook_events;
  put = λ xs w. record w { webhook_events = xs };
}

abbrev pub invoice_table : TableOf Invoice
invoice_table = record { rows = λ w. w.invoices; put = λ xs w. record w { invoices = xs } }

abbrev pub counter_table : TableOf InvoiceCounter
counter_table = record { rows = λ w. w.counters; put = λ xs w. record w { counters = xs } }

abbrev pub identity_table : TableOf ChatIdentity
identity_table = record {
  rows = λ w. w.chat_identities;
  put = λ xs w. record w { chat_identities = xs };
}

abbrev pub link_table : TableOf ChatLinkRequest
link_table = record { rows = λ w. w.link_requests; put = λ xs w. record w { link_requests = xs } }

abbrev pub profile_table : TableOf Profile
profile_table = record { rows = λ w. w.profiles; put = λ xs w. record w { profiles = xs } }

abbrev pub notification_table : TableOf Notification
notification_table = record {
  rows = λ w. w.notifications;
  put = λ xs w. record w { notifications = xs };
}

abbrev pub evidence_table : TableOf Evidence
evidence_table = record { rows = λ w. w.evidence; put = λ xs w. record w { evidence = xs } }

abbrev pub endpoint_table : TableOf WebhookEndpoint
endpoint_table = record { rows = λ w. w.endpoints; put = λ xs w. record w { endpoints = xs } }

abbrev pub session_table : TableOf ChatSession
session_table = record { rows = λ w. w.sessions; put = λ xs w. record w { sessions = xs } }

abbrev pub inbound_table : TableOf ChatInboundEvent
inbound_table = record { rows = λ w. w.inbound; put = λ xs w. record w { inbound = xs } }
