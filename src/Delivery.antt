-- ===== src/Delivery.antt =====
-- The outbound webhooks of modules/merchants: `Address` is webhook-ssrf.ts, `Endpoints` webhook-endpoints.service.ts
-- with webhook-signing.ts, `Deliver` webhook-delivery.service.ts and outbound-event-relay.service.ts.
pub mod Address
pub mod Endpoints
pub mod Deliver
pub mod Due
pub mod Attempt
pub mod Retries
pub mod AddressLaws
pub mod Mapped
pub mod Laws
mod Examples
