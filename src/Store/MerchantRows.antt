-- ===== src/Store/MerchantRows.antt =====
-- The table of merchants' webhook endpoints in prisma/schema.prisma.
use meduman_backend.Prelude.{String, Bool}

pub data WebhookEndpointStatus : Type 0 where
  active disabled : WebhookEndpointStatus

pub record WebhookEndpoint : Type 0 where
  pub id : String
  pub merchant_id : String
  pub url : String
  pub secret_enc : String
  pub livemode : Bool
  pub status : WebhookEndpointStatus
