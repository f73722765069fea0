-- ===== src/Orders/Message.antt =====
-- orders/order.rs: the signed structs, `signing_message` and `signing_message_v2`.
pub mod Depth
pub mod Layout
pub mod Limits
pub mod Injective
use artos_nautilus_server.Prelude.{ℕ, Option, Bytes, codes, ◌++◌}
use artos_nautilus_server.Rust.Outcome.{
  Outcome, done, Result, Fallible, ◌>>=?◌ as ◌>>=◌, map_err, map_result_err, expect,
}
use artos_nautilus_server.Serde.Value.{
  Value, u8, u64, struct, Values, nil, cons, vec_u8, array_u8, option_vec_u8, Bcs,
}
use artos_nautilus_server.Orders.Types.{
  SignableOrderResponse, OrderV2Fields, action_to_u8, status_to_u8, to_intent, to_intent_v2,
}
use artos_nautilus_server.Orders.Hex.{parse_hex_bytes}

pub record BcsSignableOrderResponse : Type 0 where
  pub version : ℕ
  pub order_id : Bytes
  pub action : ℕ
  pub status : ℕ
  pub amount : ℕ
  pub currency : Bytes
  pub server_timestamp_ms : ℕ
  pub escrow_tx_id : Option Bytes
  pub notes : Option Bytes

-- `From<&SignableOrderResponse>`; a text is its bytes, so `as_bytes().to_vec()` changes nothing.
unfoldable from_response : SignableOrderResponse → BcsSignableOrderResponse
unfolding action_to_u8 status_to_u8
from_response resp = record {
  version = resp.version;
  order_id = resp.order_id;
  action = action_to_u8 resp.action;
  status = status_to_u8 resp.status;
  amount = resp.amount;
  currency = resp.currency;
  server_timestamp_ms = resp.server_timestamp_ms;
  escrow_tx_id = resp.escrow_tx_id;
  notes = resp.notes;
}

pub record IntentMessage : Type 0 where
  pub intent : ℕ
  pub timestamp_ms : ℕ
  pub payload : BcsSignableOrderResponse

pub record BcsSignableOrderResponseV2 : Type 0 where
  pub version : ℕ
  pub order_id : Bytes
  pub action : ℕ
  pub status : ℕ
  pub amount : ℕ
  pub currency : Bytes
  pub server_timestamp_ms : ℕ
  pub escrow_tx_id : Option Bytes
  pub notes : Option Bytes
  pub escrow_id : Bytes
  pub recipient : Bytes
  pub nonce : Bytes
  pub expiry_ms : ℕ

pub record IntentMessageV2 : Type 0 where
  pub intent : ℕ
  pub timestamp_ms : ℕ
  pub payload : BcsSignableOrderResponseV2

-- The derived `Serialize`: the fields in order.
unfoldable serialize_payload : BcsSignableOrderResponse → Value
serialize_payload p = struct (
    cons (u8 p.version) (
      cons (vec_u8 p.order_id) (
        cons (u8 p.action) (
          cons (u8 p.status) (
            cons (u64 p.amount) (
              cons (vec_u8 p.currency) (
                cons (u64 p.server_timestamp_ms)
                  (cons (option_vec_u8 p.escrow_tx_id) (cons (option_vec_u8 p.notes) nil)))))))))

unfoldable pub serialize_intent : IntentMessage → Value
unfolding serialize_payload
serialize_intent m =
    struct (cons (u8 m.intent) (cons (u64 m.timestamp_ms) (cons (serialize_payload m.payload) nil)))

unfoldable serialize_payload_v2 : BcsSignableOrderResponseV2 → Value
serialize_payload_v2 p = struct (
    cons (u8 p.version) (
      cons (vec_u8 p.order_id) (
        cons (u8 p.action) (
          cons (u8 p.status) (
            cons (u64 p.amount) (
              cons (vec_u8 p.currency) (
                cons (u64 p.server_timestamp_ms) (
                  cons (option_vec_u8 p.escrow_tx_id) (
                    cons (option_vec_u8 p.notes) (
                      cons (array_u8 p.escrow_id) (
                        cons (array_u8 p.recipient)
                          (cons (array_u8 p.nonce) (cons (u64 p.expiry_ms) nil)))))))))))))

unfoldable pub serialize_intent_v2 : IntentMessageV2 → Value
unfolding serialize_payload_v2
serialize_intent_v2 m =
    struct
      (cons (u8 m.intent) (cons (u64 m.timestamp_ms) (cons (serialize_payload_v2 m.payload) nil)))

-- The struct that `signing_message` builds.
unfoldable pub intent_message : SignableOrderResponse → IntentMessage
unfolding from_response to_intent
intent_message resp = record {
  intent = to_intent resp.action;
  timestamp_ms = resp.server_timestamp_ms;
  payload = from_response resp;
}

-- The struct that `signing_message_v2` builds from the parsed arrays.
unfoldable pub intent_message_v2 :
    SignableOrderResponse → (escrow_id recipient nonce : Bytes) → ℕ → IntentMessageV2
unfolding action_to_u8 status_to_u8 to_intent_v2
intent_message_v2 resp escrow_id recipient nonce expiry_ms = record {
  intent = to_intent_v2 resp.action;
  timestamp_ms = resp.server_timestamp_ms;
  payload = record {
    version = resp.version;
    order_id = resp.order_id;
    action = action_to_u8 resp.action;
    status = status_to_u8 resp.status;
    amount = resp.amount;
    currency = resp.currency;
    server_timestamp_ms = resp.server_timestamp_ms;
    escrow_tx_id = resp.escrow_tx_id;
    notes = resp.notes;
    escrow_id = escrow_id;
    recipient = recipient;
    nonce = nonce;
    expiry_ms = expiry_ms;
  };
}

module _ (b : Bcs) where
  unfoldable pub signing_message : SignableOrderResponse → Outcome Bytes
  signing_message resp = expect (b.to_bytes (serialize_intent (intent_message resp)))

  unfoldable pub signing_message_v2 : SignableOrderResponse → OrderV2Fields → Fallible Bytes Bytes
  signing_message_v2 resp v2 = do
    escrow_id ← map_err (λ e. codes "escrow_id: " ++ e) (parse_hex_bytes 32 v2.escrow_id)
    recipient ← map_err (λ e. codes "recipient: " ++ e) (parse_hex_bytes 32 v2.recipient)
    nonce ← map_err (λ e. codes "nonce: " ++ e) (parse_hex_bytes 16 v2.nonce)
    done (
        map_result_err (λ e. codes "BCS serialization failed: " ++ e)
          (b.to_bytes
            (serialize_intent_v2 (intent_message_v2 resp escrow_id recipient nonce v2.expiry_ms))))
