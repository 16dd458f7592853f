-- ===== src/Dialog.antt =====
-- modules/chat: the session of a chat (`Sessions` is chat/session/chat-session.service.ts), and what a buyer or a seller
-- does by a command or a code (`Actions`, `Sale` and `Replies` are chat/dialog/chat-dialog.service.ts, with its amounts
-- in `Money`).
pub mod Money
pub mod Sessions
pub mod Replies
pub mod Actions
pub mod Sale
pub mod Digits
pub mod Amounts
pub mod Laws
mod Examples
