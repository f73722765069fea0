-- ===== src/Orders/Message/Depth.antt =====
-- orders/order.rs: how deep the signed structs are nested.
use artos_nautilus_server.Prelude.{◌≡◌, refl, arith}
use artos_nautilus_server.Serde.Value.{
  Value, struct, Values, nil, depth, depth_values, in_order, Bcs, IsBcs,
}
use artos_nautilus_server.Serde.Encode.{depth_values-u8s, depth-option}
use artos_nautilus_server.Orders.Message.{
  BcsSignableOrderResponse, BcsSignableOrderResponseV2, IntentMessage, IntentMessageV2,
  serialize_payload, serialize_payload_v2, serialize_intent, serialize_intent_v2,
}

abbrev pub fields : Value → Values
fields (struct vs) = vs
fields _ = nil

depth-payload : (p : BcsSignableOrderResponse) → depth (serialize_payload p) ≡ 1
unfolding depth depth_values serialize_payload
depth-payload p =
    rw
      (
        depth_values-u8s p.order_id,
        depth_values-u8s p.currency,
        depth-option p.escrow_tx_id,
        depth-option p.notes,
      )
      refl

depth-payload_v2 : (p : BcsSignableOrderResponseV2) → depth (serialize_payload_v2 p) ≡ 1
unfolding depth depth_values serialize_payload_v2
depth-payload_v2 p =
    rw
      (
        depth_values-u8s p.order_id,
        depth_values-u8s p.currency,
        depth-option p.escrow_tx_id,
        depth-option p.notes,
        depth_values-u8s p.escrow_id,
        depth_values-u8s p.recipient,
        depth_values-u8s p.nonce,
      )
      refl

depth-intent : (m : IntentMessage) → depth (serialize_intent m) ≡ 2
unfolding depth depth_values serialize_intent
depth-intent m = rw (depth-payload m.payload) refl

depth-intent_v2 : (m : IntentMessageV2) → depth (serialize_intent_v2 m) ≡ 2
unfolding depth depth_values serialize_intent_v2
depth-intent_v2 m = rw (depth-payload_v2 m.payload) refl

module _ (b : Bcs) (L : IsBcs b) where
  pub to_bytes-payload :
      (p : BcsSignableOrderResponse)
      → b.to_bytes (serialize_payload p) ≡ in_order b.to_bytes (fields (serialize_payload p))
  unfolding serialize_payload
  to_bytes-payload p =
      L.to_bytes-struct (fields (serialize_payload p)) (omega (arith, depth-payload p))

  pub to_bytes-payload_v2 :
      (p : BcsSignableOrderResponseV2)
      → b.to_bytes (serialize_payload_v2 p) ≡ in_order b.to_bytes (fields (serialize_payload_v2 p))
  unfolding serialize_payload_v2
  to_bytes-payload_v2 p =
      L.to_bytes-struct (fields (serialize_payload_v2 p)) (omega (arith, depth-payload_v2 p))

  pub to_bytes-message :
      (m : IntentMessage)
      → b.to_bytes (serialize_intent m) ≡ in_order b.to_bytes (fields (serialize_intent m))
  unfolding serialize_intent
  to_bytes-message m =
      L.to_bytes-struct (fields (serialize_intent m)) (omega (arith, depth-intent m))

  pub to_bytes-message_v2 :
      (m : IntentMessageV2)
      → b.to_bytes (serialize_intent_v2 m) ≡ in_order b.to_bytes (fields (serialize_intent_v2 m))
  unfolding serialize_intent_v2
  to_bytes-message_v2 m =
      L.to_bytes-struct (fields (serialize_intent_v2 m)) (omega (arith, depth-intent_v2 m))
