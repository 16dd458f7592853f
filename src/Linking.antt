-- ===== src/Linking.antt =====
-- modules/chat/linking: a chat account is absorbed into the web account that minted a link code. `Guards` and
-- `Merge` are account-merge.service.ts, `Codes` is chat-link.service.ts with chat-link.crypto.ts.
pub mod Guards
pub mod Merge
pub mod Moved
pub mod Folded
pub mod Absorbed
pub mod Parties
pub mod Codes
pub mod Review
pub mod Spent
pub mod CodeLaws
pub mod ReviewLaws
mod Examples
