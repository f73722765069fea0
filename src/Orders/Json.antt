-- ===== src/Orders/Json.antt =====
-- orders/order.rs: the derived `Serialize` of the reply, as the JSON that axum writes.
pub mod Reply
pub mod Request
pub mod RoundTrip
use artos_nautilus_server.Prelude.{Option, none, some, Bytes, codes}
use artos_nautilus_server.Serde.Json.{Json, null, pos_int, text, object, Entries, entry, end}
use artos_nautilus_server.Orders.Types.{
  OrderAction, initiate, deposit, release, refund, OrderStatus, pending, escrowed, released,
  refunded, rejected, OrderV2Fields, SignableOrderResponse, SignedOrderResponse,
}

-- `rename_all = "snake_case"`
unfoldable pub action_name : OrderAction → Bytes
action_name initiate = codes "initiate"
action_name deposit = codes "deposit"
action_name release = codes "release"
action_name refund = codes "refund"

unfoldable pub status_name : OrderStatus → Bytes
status_name pending = codes "pending"
status_name escrowed = codes "escrowed"
status_name released = codes "released"
status_name refunded = codes "refunded"
status_name rejected = codes "rejected"

-- An option without an attribute.
unfoldable pub option_json : Option Bytes → Json
option_json none = null
option_json (some t) = text t

-- `skip_serializing_if = "Option::is_none"`
unfoldable pub skip_none : {A : Type 0} → Bytes → (A → Json) → Option A → Entries → Entries
skip_none name write none rest = rest
skip_none name write (some a) rest = entry name (write a) rest

unfoldable pub fields_json : OrderV2Fields → Json
fields_json f = object (
    entry (codes "escrow_id") (text f.escrow_id) (
      entry (codes "recipient") (text f.recipient) (
        entry (codes "nonce") (text f.nonce)
          (entry (codes "expiry_ms") (pos_int f.expiry_ms) end))))

unfoldable pub response_json : SignableOrderResponse → Json
response_json r = object (
    entry (codes "version") (pos_int r.version) (
      entry (codes "order_id") (text r.order_id) (
        entry (codes "action") (text (action_name r.action)) (
          entry (codes "status") (text (status_name r.status)) (
            entry (codes "amount") (pos_int r.amount) (
              entry (codes "currency") (text r.currency) (
                entry (codes "server_timestamp_ms") (pos_int r.server_timestamp_ms) (
                  entry (codes "escrow_tx_id") (option_json r.escrow_tx_id)
                    (entry (codes "notes") (option_json r.notes) end)))))))))

-- The fields of V1, in front of `rest`.
abbrev pub signed_v1_json : SignedOrderResponse → Entries → Json
signed_v1_json s rest = object (
    entry (codes "response") (response_json s.response) (
      entry (codes "signature") (text s.signature) (
        entry (codes "public_key") (text s.public_key)
          (entry (codes "scheme") (text s.scheme) rest))))

unfoldable pub signed_json : SignedOrderResponse → Json
signed_json s = signed_v1_json s (
    skip_none (codes "signature_v2") text s.signature_v2
      (skip_none (codes "v2") fields_json s.v2 end))
