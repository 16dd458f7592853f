-- ===== src/Dialog/Sessions.antt =====
-- chat-session.service.ts: where a chat is in its dialog.
use meduman_backend.Prelude.{
  ltb, if◌then◌else◌, or_else, ◌===◌, ℕ, ◌+◌, ◌*◌, String, Bool, Option, none, some,
}
use meduman_backend.Store.ChatRows.{ChatStep, idle, ChatDraft, ChatSession}
use meduman_backend.Store.World.{session_table}
use meduman_backend.Store.Action.{Action, pure, gets, ◌>>=◌, select, insert, update}

-- A field that is left out is `none`; `null` is `some none`.
pub record SessionPatch : Type 0 where
  pub step : Option ChatStep
  pub draft : Option (Option ChatDraft)
  pub transaction_id : Option (Option String)

abbrev pub no_patch : SessionPatch
no_patch = record { step = none; draft = none; transaction_id = none }

abbrev pub session_of : String → ChatSession → Bool
session_of chat_identity_id s = s.chat_identity_id === chat_identity_id

abbrev pub empty_draft : ChatDraft
empty_draft = record { title = none; amount_kobo = none; description = none; dispute_id = none }

-- `readDraft`
abbrev pub read_draft : ChatSession → ChatDraft
read_draft s = or_else s.draft empty_draft

abbrev pub patch_session : SessionPatch → ℕ → ChatSession → ChatSession
patch_session patch expires_at s = record s {
  step = or_else patch.step s.step;
  draft = or_else patch.draft s.draft;
  transaction_id = or_else patch.transaction_id s.transaction_id;
  expires_at = expires_at;
}

abbrev pub fresh_session : String → ℕ → ChatSession
fresh_session chat_identity_id expires_at = record {
  chat_identity_id = chat_identity_id;
  step = idle;
  draft = none;
  transaction_id = none;
  expires_at = expires_at;
}

-- CHAT_SESSION_TTL_SECONDS
module _ (ttl_seconds : ℕ) where
  -- `update`
  unfoldable pub update_session : String → SessionPatch → Action ChatSession
  update_session chat_identity_id patch = do
    now ← gets (λ w. w.now)
    update session_table (session_of chat_identity_id)
        (patch_session patch (now + ttl_seconds * 1000))

  -- `reset`
  unfoldable pub reset_session : String → Action ChatSession
  reset_session chat_identity_id =
      update_session chat_identity_id
        (record { step = some idle; draft = some none; transaction_id = some none })

  abbrev renew_session : String → ℕ → Option ChatSession → Action ChatSession
  renew_session chat_identity_id now none =
      insert session_table (fresh_session chat_identity_id (now + ttl_seconds * 1000))
  renew_session chat_identity_id now (some s) =
      if ltb now s.expires_at
      then pure s
      else update session_table (session_of chat_identity_id) (λ r. record r {
        step = idle;
        draft = none;
        transaction_id = none;
        expires_at = now + ttl_seconds * 1000;
      })

  -- `getOrCreate`
  unfoldable pub get_or_create_session : String → Action ChatSession
  get_or_create_session chat_identity_id = do
    existing ← select session_table (session_of chat_identity_id)
    now ← gets (λ w. w.now)
    renew_session chat_identity_id now existing
