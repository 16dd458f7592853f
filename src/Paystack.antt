-- ===== src/Paystack.antt =====
-- common/paystack/paystack.service.ts: what the client makes of the answers of Paystack's HTTP API. The
-- API itself is the parameter `Provider`; its answer to a request may depend on the transfers that it was
-- asked for before.
use meduman_backend.Prelude.{
  if◌then◌else◌, or_else, String, Bool, ◌&&◌, Option, none, some, List, ◌∷◌,
}
use meduman_backend.Prelude.Int.{ℤ}
use meduman_backend.Store.World.{TransferRequest}
use meduman_backend.Store.Action.{bad_gateway, Result, ok, err, Action, message}

-- What `fetch` and `res.json()` gave: no connection, a body that is no JSON, or Paystack's envelope. An envelope whose
-- `data` is null, which `request` returns and its callers then throw on, is left out.
pub data Reply (T : Type 0) : Type 0 where
  unreachable : Reply T
  unreadable : Reply T
  envelope :
      (res_ok : Bool) (status : Bool) (message : Option String) (payload : Option T) → Reply T

pub record Transfer : Type 0 where
  pub transfer_code : String
  pub status : String

pub record Charge : Type 0 where
  pub status : String
  pub amount : ℤ

pub record DedicatedAccount : Type 0 where
  pub account_number : Option String
  pub bank_name : Option String
  pub dedicated_account_id : Option String

pub record Provider : Type 0 where
  pub post_transfer : List TransferRequest → TransferRequest → Reply Transfer
  pub get_transfer : List TransferRequest → String → Reply Transfer
  pub get_charge : String → Reply Charge
  pub post_charge : (email : String) (amount : ℤ) (reference : String) → Reply String
  pub post_customer : (email : String) → Reply String
  pub post_dedicated_account : (customer_code : String) → Reply DedicatedAccount

-- `request`
unfoldable pub request : {T : Type 0} → Reply T → Result T
request unreachable = err (bad_gateway "Payment provider unreachable")
request unreadable = err (bad_gateway "Payment provider returned an unreadable response")
request (envelope res_ok status message none) =
    err (bad_gateway (or_else message "Payment provider error"))
request (envelope res_ok status message (some payload)) =
    if res_ok && status
    then ok payload
    else err (bad_gateway (or_else message "Payment provider error"))

-- The `try` of `verifyTransfer`: any failure of the request is taken for no such transfer.
abbrev pub found_transfer : Result Transfer → Option Transfer
found_transfer (ok t) = some t
found_transfer (err e) = none

module _ (provider : Provider) where
  -- `initiateTransfer`
  unfoldable pub initiate_transfer : TransferRequest → Action Transfer
  initiate_transfer transfer w = (
    request (provider.post_transfer w.transfers transfer),
    record w { transfers = transfer ∷ w.transfers },
  )

  -- `verifyTransfer`
  unfoldable pub verify_transfer : String → Action (Option Transfer)
  verify_transfer reference w =
      (ok (found_transfer (request (provider.get_transfer w.transfers reference))), w)

  -- `verifyTransaction`
  unfoldable pub verify_transaction : String → Action Charge
  verify_transaction reference w = (request (provider.get_charge reference), w)

  -- `initializeTransaction`, reduced to the authorization url
  unfoldable pub initialize_transaction : String → ℤ → String → Action String
  initialize_transaction email amount reference w =
      (request (provider.post_charge email amount reference), w)

  -- `createCustomer`
  unfoldable pub create_customer : String → Action String
  create_customer email w = (request (provider.post_customer email), w)

  -- `createDedicatedAccount`
  unfoldable pub create_dedicated_account : String → Action DedicatedAccount
  create_dedicated_account customer_code w =
      (request (provider.post_dedicated_account customer_code), w)
