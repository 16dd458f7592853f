-- ===== src/Gateway.antt =====
-- modules/chat/gateway/chat-inbound.service.ts: a webhook of a chat platform is checked, its messages are recorded, and
-- those that are new are put on the queue.
pub mod Laws
mod Examples
use meduman_backend.Prelude.{
  ◌===◌, concat, ℕ, ◌+◌, String, Bool, true, false, not, ◌&&◌, Option, List, [], ◌∷◌,
}
use meduman_backend.Store.ChatRows.{ChatPlatform, InboundChatMessage, ChatInboundEvent}
use meduman_backend.Store.World.{chat_inbound, inbound_table}
use meduman_backend.Store.Action.{
  not_found, unauthorized, unique, Result, ok, err, Action, pure, throw, or_throw, ◌>>=◌, ◌>>◌,
  throw_if, enqueue, insert_unique, attempt, truthy,
}
use meduman_backend.Linking.Codes.{platform_name}

-- What an adapter of a platform does with a raw body, its headers (a text) and the parsed body (a text).
pub record ChatAdapter : Type 0 where
  pub verify_signature : (raw_body headers : String) → Bool
  pub parse : (body : String) → List InboundChatMessage

pub record ChatWebhookResult : Type 0 where
  pub accepted : ℕ
  pub duplicate : ℕ

unfoldable pub same_platform : ChatPlatform → ChatPlatform → Bool
same_platform ChatPlatform.telegram ChatPlatform.telegram = true
same_platform ChatPlatform.whatsapp ChatPlatform.whatsapp = true
same_platform ChatPlatform.instagram ChatPlatform.instagram = true
same_platform ChatPlatform.messenger ChatPlatform.messenger = true
same_platform ChatPlatform.x ChatPlatform.x = true
same_platform _ _ = false

-- `@@unique([platform, providerMessageId])`
abbrev pub same_message : InboundChatMessage → ChatInboundEvent → Bool
same_message m e =
    same_platform e.platform m.platform && e.provider_message_id === m.provider_message_id

abbrev pub inbound_row : InboundChatMessage → String → ChatInboundEvent
inbound_row m raw = record {
  platform = m.platform;
  provider_message_id = m.provider_message_id;
  raw_payload = raw;
}

-- The `catch` of `recordInbound`
abbrev pub recorded : Result ChatInboundEvent → Action Bool
recorded (ok row) = pure true
recorded (err (unique code)) = pure false
recorded (err e) = throw e

-- `recordInbound`
unfoldable pub record_inbound : InboundChatMessage → String → Action Bool
record_inbound m raw = do
  outcome ← attempt (insert_unique inbound_table (same_message m) (inbound_row m raw))
  recorded outcome

-- `toJob`
abbrev pub to_job : InboundChatMessage → InboundChatMessage
to_job m = record m {
  display_name = truthy m.display_name;
  text = truthy m.text;
  payload = truthy m.payload;
}

abbrev pub enqueue_new : InboundChatMessage → Bool → Action ChatWebhookResult
enqueue_new m true = do
  enqueue (chat_inbound (to_job m))
  pure (record { accepted = 1; duplicate = 0 })
enqueue_new m false = pure (record { accepted = 0; duplicate = 1 })

-- One turn of the loop
unfoldable pub ingest_one : InboundChatMessage → String → Action ChatWebhookResult
ingest_one m raw = do is_new ← record_inbound m raw; enqueue_new m is_new

abbrev pub both : ChatWebhookResult → ChatWebhookResult → ChatWebhookResult
both a b = record { accepted = a.accepted + b.accepted; duplicate = a.duplicate + b.duplicate }

-- The loop
unfoldable pub ingest_all : List InboundChatMessage → String → Action ChatWebhookResult
ingest_all [] raw = pure (record { accepted = 0; duplicate = 0 })
ingest_all (m ∷ ms) raw = do
  first ← ingest_one m raw
  rest ← ingest_all ms raw
  pure (both first rest)

-- The registry of adapters
module _ (registry : ChatPlatform → Option ChatAdapter) where
  abbrev checked_by : ChatAdapter → (raw_body headers body : String) → Action ChatWebhookResult
  checked_by adapter raw_body headers body = do
    throw_if (not (adapter.verify_signature raw_body headers))
        (unauthorized "Invalid chat webhook signature")
    ingest_all (adapter.parse body) body

  -- `ingest`
  unfoldable pub ingest :
      (platform : ChatPlatform) (raw_body headers body : String) → Action ChatWebhookResult
  ingest platform raw_body headers body = do
    adapter ←
        or_throw (registry platform)
          (not_found (concat ("Unconfigured chat platform: " ∷ platform_name platform ∷ [])))
    checked_by adapter raw_body headers body
