-- ===== src/Lib.antt =====
-- Verification of the Meduman backend, an escrow service: a buyer's payment is held until the delivery is
-- confirmed, and is then paid out to the seller.
--
-- Parts and files (paths from the repository's root):
--   Prelude            shared names, list and text helpers, signed integers; no code of the repository.
--   Store              prisma/schema.prisma: enums (Store.Enums), rows (Store.Rows, ChatRows, MerchantRows), the
--                      database with queue and clock (Store.World), queries (Store.Table), and methods that return or
--                      throw (Store.Action): `transact` is prisma.$transaction. Store.Keeps has the rules for
--                      invariants.
--   Machine            src/modules/transactions/state-machine: `transition`. Machine.Edges holds the diagram as a
--                      relation, Machine.Safety one step, Machine.Traces sequences of events.
--   Outbound           src/modules/outbound-events: the outbox of merchant webhooks.
--   Transactions       src/modules/transactions/transactions.service.ts: `apply`, the only writer of a status,
--                      and `create_draft` (createDraft).
--   Audit              src/modules/audit: `log`.
--   Disputes           src/modules/disputes/disputes.service.ts: `raise`, `resolve`.
--   Paystack           src/common/paystack/paystack.service.ts over the parameter `Provider`, which is Paystack's
--                      HTTP API.
--   Invoices           src/modules/invoices: the totals and `create_draft_invoice` (createDraft), `edit`; in
--                      Invoices.Lifecycle `send`, `void_invoice` (void), `remind`, `scan_overdue`,
--                      `mark_paid_by_transaction`, `get_public_view`; in Invoices.Final the same as commands.
--   Payments           src/modules/payments/payments.service.ts: `verify_and_protect_payment` and what leads to
--                      it; in Payments.Collect the two ways to open a collection.
--   Payouts            src/modules/payouts/payouts.service.ts: `execute_release` (executeRelease) and its parts,
--                      and in Payouts.Settle `mark_paid`, `mark_failed` and `retry_transfer`.
--   Webhooks           src/modules/webhooks/webhooks.service.ts: `handle_paystack_event` over the parameter
--                      `Platform` (signature check, JSON and dates).
--   Otp                src/modules/otp: `issue` and `verify` over the parameter `OtpConfig` (keyed hash, random
--                      digits, limits).
--   AutoRelease        src/modules/transactions/auto-release.service.ts: `scan_and_release`.
--   Reconcile          src/modules/payments/payment-reconcile.service.ts: `reconcile_pending`.
--   Linking            src/modules/chat/linking: in Linking.Guards and Linking.Merge account-merge.service.ts,
--                      `merge`; in Linking.Codes and Linking.Review chat-link.service.ts, `mint`, `status_for`,
--                      `consume_link` (consume) and `resolve_link_request` (resolve), over the parameter
--                      `LinkConfig` (keyed hash, random letters, upper case, limits).
--   Delivery           src/modules/merchants: in Delivery.Address webhook-ssrf.ts, `url_refusal`
--                      (assertPublicUrl); in Delivery.Endpoints webhook-endpoints.service.ts with
--                      webhook-signing.ts; in Delivery.Deliver webhook-delivery.service.ts, `deliver`, and
--                      outbound-event-relay.service.ts, `redispatch_pending`. The parameter `MerchantConfig` is
--                      the URL parser, the cipher, the keyed hash and what endpoints answer.
--   Dialog             src/modules/chat: in Dialog.Sessions session/chat-session.service.ts; in Dialog.Actions the
--                      actions of dialog/chat-dialog.service.ts (startPayment, markDelivered, tryConfirmOtp,
--                      raiseDispute, showStatus, connectAccount) with their replies in Dialog.Replies, in Dialog.Sale
--                      the steps of /sell, and in Dialog.Money parseNairaToKobo and formatNaira, whose groups
--                      recurse on fuel, one more than the amount.
--   Gateway            src/modules/chat/gateway/chat-inbound.service.ts: `ingest`, over the interface of an adapter.
--   Phone              src/modules/notifications/phone.ts: `normalize_msisdn` (normalizeMsisdn).
--
-- How the parts interact. Payments, disputes, invoices, payouts and the scan change a transaction only by
-- `apply`. Webhooks calls `handle_charge_success`, `mark_paid` and `mark_failed`; a protected payment calls
-- `mark_paid_by_transaction`; the reconciliation scan calls `reconcile_payment`. A transition writes an outbox
-- event, which `deliver` posts. A link code ends in `merge`, which moves the rows of the other parts to
-- another account. Resolving a dispute and the auto-release scan put a release job on the queue, whose worker
-- calls `execute_release`.
--
-- How the state is modelled. A method is a function from the world to a result and the world after it; what
-- was written before a throw stays written, except inside `transact`. A table lists its rows newest first, so
-- the first match of a query is the newest. A clause `where` is a Boolean function of the row. An identifier
-- that the database or randomUUID draws is the next value of the field `uuid`. Each method runs to its end
-- before the next starts, except in Transactions.Race, which interleaves two. Every method ends after a
-- bounded number of steps, and sequences of events and of requests are lists. Decimal numerals recurse on
-- fuel, one more than the number, which has fewer digits than that. Of the column `updatedAt` the model keeps
-- nothing but the choice of the latest row, a parameter. `run_job`, the worker that runs a delivery again
-- while it throws, recurses on a number of runs; as many as there are attempts left are enough. Texts that are
-- read character by character (phone numbers, hosts) are lists of code points.
--
-- The queue is the list of jobs asked for; BullMQ's deduplication is left out, and its retries but for
-- `run_job`. `Math.round` of the invoice tax is exact: the numerator is far below 2^53 for amounts that fit
-- the Int columns, whose bound itself is left out. The same is taken of the price that a seller types; `slice`
-- counts code points, which differs from JavaScript's units only for characters outside the basic plane.
--
-- Not modelled: HTTP controllers, guards and DTO validation, configuration, logging, the sending of
-- notifications, the chat's /setup_payout step, its attachments and its dispatch on a message, the chat
-- adapters, file storage, most of users and seller profiles, merchants and their API keys, and the waitlist,
-- which read or send but do not decide on money; and single reads of modelled parts (listForReview, the
-- merchant's `get`, maskRecipient).
pub mod Prelude
pub mod Store
pub mod Machine
pub mod Outbound
pub mod Transactions
pub mod Audit
pub mod Disputes
pub mod Paystack
pub mod Payouts
pub mod Invoices
pub mod Payments
pub mod Webhooks
pub mod Otp
pub mod AutoRelease
pub mod Reconcile
pub mod Linking
pub mod Dialog
pub mod Gateway
pub mod Phone
pub mod Delivery
