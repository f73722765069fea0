-- ===== src/Orders/Types.antt =====
-- orders/order.rs: the requests, the responses and their wire constants.
use artos_nautilus_server.Prelude.{ℕ, Option, Bytes}
use artos_nautilus_server.Serde.Json.{Json}

-- Intent scopes.
abbrev order_intent_initiate : ℕ
order_intent_initiate = 0

abbrev order_intent_deposit : ℕ
order_intent_deposit = 1

abbrev order_intent_release : ℕ
order_intent_release = 2

abbrev order_intent_refund : ℕ
order_intent_refund = 3

abbrev order_intent_v2_initiate : ℕ
order_intent_v2_initiate = 0x10

abbrev order_intent_v2_deposit : ℕ
order_intent_v2_deposit = 0x11

abbrev order_intent_v2_release : ℕ
order_intent_v2_release = 0x12

abbrev order_intent_v2_refund : ℕ
order_intent_v2_refund = 0x13

-- Action and status codes.
abbrev action_initiate : ℕ
action_initiate = 0

abbrev action_deposit : ℕ
action_deposit = 1

abbrev action_release : ℕ
action_release = 2

abbrev action_refund : ℕ
action_refund = 3

abbrev status_pending : ℕ
status_pending = 0

abbrev status_escrowed : ℕ
status_escrowed = 1

abbrev status_released : ℕ
status_released = 2

abbrev status_refunded : ℕ
status_refunded = 3

abbrev status_rejected : ℕ
status_rejected = 4

pub data OrderAction : Type 0 where
  initiate deposit release refund : OrderAction

-- `OrderAction::to_u8`
unfoldable pub action_to_u8 : OrderAction → ℕ
action_to_u8 initiate = action_initiate
action_to_u8 deposit = action_deposit
action_to_u8 release = action_release
action_to_u8 refund = action_refund

-- `OrderAction::to_intent`
unfoldable pub to_intent : OrderAction → ℕ
to_intent initiate = order_intent_initiate
to_intent deposit = order_intent_deposit
to_intent release = order_intent_release
to_intent refund = order_intent_refund

-- `OrderAction::to_intent_v2`
unfoldable pub to_intent_v2 : OrderAction → ℕ
to_intent_v2 initiate = order_intent_v2_initiate
to_intent_v2 deposit = order_intent_v2_deposit
to_intent_v2 release = order_intent_v2_release
to_intent_v2 refund = order_intent_v2_refund

pub data OrderStatus : Type 0 where
  pending escrowed released refunded rejected : OrderStatus

-- `OrderStatus::to_u8`
unfoldable pub status_to_u8 : OrderStatus → ℕ
status_to_u8 pending = status_pending
status_to_u8 escrowed = status_escrowed
status_to_u8 released = status_released
status_to_u8 refunded = status_refunded
status_to_u8 rejected = status_rejected

pub record OrderV2Fields : Type 0 where
  pub escrow_id : Bytes
  pub recipient : Bytes
  pub nonce : Bytes
  pub expiry_ms : ℕ

pub record OrderRequest : Type 0 where
  pub version : ℕ
  pub order_id : Bytes
  pub customer : Bytes
  pub merchant : Bytes
  pub amount : ℕ
  pub currency : Bytes
  pub action : OrderAction
  pub client_timestamp_ms : Option ℕ
  pub metadata : Option Json
  pub v2 : Option OrderV2Fields

pub record SignableOrderResponse : Type 0 where
  pub version : ℕ
  pub order_id : Bytes
  pub action : OrderAction
  pub status : OrderStatus
  pub amount : ℕ
  pub currency : Bytes
  pub server_timestamp_ms : ℕ
  pub escrow_tx_id : Option Bytes
  pub notes : Option Bytes

pub record SignedOrderResponse : Type 0 where
  pub response : SignableOrderResponse
  pub signature : Bytes
  pub public_key : Bytes
  pub scheme : Bytes
  pub signature_v2 : Option Bytes
  pub v2 : Option OrderV2Fields
