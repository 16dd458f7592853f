-- ===== src/Store/ChatRows.antt =====
-- The tables of prisma/schema.prisma behind chat accounts and their links, with the enums of their columns.
use meduman_backend.Prelude.{ℕ, String, Option, List}

pub data ChatPlatform : Type 0 where
  telegram whatsapp instagram messenger x : ChatPlatform

pub data ChatLinkRequestStatus : Type 0 where
  pending completed pending_review rejected expired cancelled : ChatLinkRequestStatus

-- Also `MergeCollisionKind` of chat/linking/account-merge.service.ts, which has the same two values.
pub data ChatLinkConflictReason : Type 0 where
  seller_profile_conflict self_transaction_conflict : ChatLinkConflictReason

pub record ChatIdentity : Type 0 where
  pub id : String
  pub platform : ChatPlatform
  pub platform_user_id : String
  pub user_id : String

pub record ChatLinkRequest : Type 0 where
  pub id : String
  pub code_hash : String
  pub target_user_id : String
  pub platform : Option ChatPlatform
  pub platform_user_id : Option String
  pub chat_identity_id : Option String
  pub source_user_id : Option String
  pub status : ChatLinkRequestStatus
  pub conflict_reason : Option ChatLinkConflictReason
  pub attempt_count : ℕ
  pub expires_at : ℕ
  pub consumed_at : Option ℕ
  pub resolved_at : Option ℕ
  pub resolved_by : Option String

-- `channel_links` is the text of a `Json` column.
pub record Profile : Type 0 where
  pub user_id : String
  pub country : Option String
  pub city : Option String
  pub avatar_url : Option String
  pub bio : Option String
  pub channel_links : Option String

pub record Notification : Type 0 where
  pub id : String
  pub user_id : String

pub record Evidence : Type 0 where
  pub id : String
  pub transaction_id : String
  pub dispute_id : Option String
  pub uploaded_by : String

-- `ChatStep` and `ChatDraft` of chat/dialog/dialog.types.ts: the text and the JSON value of two columns.
pub data ChatStep : Type 0 where
  idle seller_tx_title seller_tx_amount seller_tx_description seller_payout_account : ChatStep
  buyer_await_otp dispute_evidence : ChatStep

pub record ChatDraft : Type 0 where
  pub title : Option String
  pub amount_kobo : Option ℕ
  pub description : Option String
  pub dispute_id : Option String

pub record ChatSession : Type 0 where
  pub chat_identity_id : String
  pub step : ChatStep
  pub draft : Option ChatDraft
  pub transaction_id : Option String
  pub expires_at : ℕ

-- `InboundMedia` and `InboundChatMessage` of chat/adapters/chat-adapter.ts, which the job of a message repeats
pub record InboundMedia : Type 0 where
  pub id : String
  pub mime_type : Option String
  pub filename : Option String
  pub url : Option String

pub record InboundChatMessage : Type 0 where
  pub platform : ChatPlatform
  pub provider_message_id : String
  pub from_user : String
  pub display_name : Option String
  pub text : Option String
  pub payload : Option String
  pub media : List InboundMedia

pub record ChatInboundEvent : Type 0 where
  pub platform : ChatPlatform
  pub provider_message_id : String
  pub raw_payload : String
