-- ===== src/Store/Sample.antt =====
-- Data for the tests of the services: an empty database and a few rows.
use meduman_backend.Prelude.{ℕ, String, none, some, [], ◌∷◌}
use meduman_backend.Prelude.Int.{pos}
use meduman_backend.Store.Enums.{TransactionStatus, web, auto_after_window, buyer_pays}
use meduman_backend.Store.Rows.{Transaction}
use meduman_backend.Store.World.{World}

-- The identifier of every draw: the tests below draw few, and compare none.
abbrev pub number_id : ℕ → String
number_id n = "fresh"

abbrev pub empty_world : World
empty_world = record {
  transactions = [];
  disputes = [];
  timeline = [];
  audit = [];
  outbound = [];
  payments = [];
  payouts = [];
  sellers = [];
  users = [];
  otp_codes = [];
  webhook_events = [];
  invoices = [];
  counters = [];
  chat_identities = [];
  link_requests = [];
  profiles = [];
  notifications = [];
  evidence = [];
  sessions = [];
  inbound = [];
  endpoints = [];
  posted = [];
  jobs = [];
  queue_error = none;
  transfers = [];
  now = 1000;
  uuid = number_id;
  drawn = 0;
}

abbrev pub sale : Transaction
sale = record {
  id = "t1";
  public_link_id = "link1";
  seller_id = "ada";
  buyer_id = some "bola";
  title = "shoes";
  description = none;
  amount = pos 5000;
  currency = "NGN";
  status = TransactionStatus.draft;
  release_rule = auto_after_window;
  expected_delivery_date = none;
  fee_model = buyer_pays;
  fee_amount = pos 100;
  merchant_id = some "m1";
  origin = web;
  created_at = 0;
}

abbrev pub with_sale : TransactionStatus → World
with_sale s = record empty_world { transactions = record sale { status = s } ∷ [] }
