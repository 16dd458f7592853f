-- ===== src/Gateway/Examples.antt =====
-- One message, delivered twice.
use meduman_backend.Prelude.{length, ◌≡◌, refl, true, Option, none, some, [], ◌∷◌}
use meduman_backend.Store.ChatRows.{ChatPlatform, InboundChatMessage}
use meduman_backend.Store.Table.{find_first}
use meduman_backend.Store.Action.{ok, world_after, result_of}
use meduman_backend.Store.Sample.{empty_world}
use meduman_backend.Gateway.{ChatAdapter, record_inbound, ingest_one, ingest_all, ingest}
use meduman_backend.Gateway.Laws.{ingest_twice}

abbrev hello : InboundChatMessage
hello = record {
  platform = ChatPlatform.telegram;
  provider_message_id = "m1";
  from_user = "77";
  display_name = none;
  text = some "/help";
  payload = none;
  media = [];
}

-- Every body is signed, and holds this message.
abbrev open_adapter : ChatAdapter
open_adapter = record { verify_signature = λ raw headers. true; parse = λ body. hello ∷ [] }

abbrev one_registry : ChatPlatform → Option ChatAdapter
one_registry p = some open_adapter

taken_once :
    result_of (ingest one_registry ChatPlatform.telegram "{}" "" "{}") empty_world
    ≡ ok (record { accepted = 1; duplicate = 0 })
unfolding ingest ingest_all ingest_one record_inbound find_first
taken_once = refl

ingest_twice_example :
    let w' = world_after (ingest one_registry ChatPlatform.telegram "{}" "" "{}") empty_world in
    ingest one_registry ChatPlatform.telegram "{}" "" "{}" w'
    ≡ (ok (record { accepted = 0; duplicate = length (open_adapter.parse "{}") }), w')
ingest_twice_example =
    ingest_twice one_registry open_adapter ChatPlatform.telegram refl "{}" "" "{}" empty_world
      (record { accepted = 1; duplicate = 0 }) taken_once
