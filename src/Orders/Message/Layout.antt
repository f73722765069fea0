-- ===== src/Orders/Message/Layout.antt =====
-- orders/order.rs: the signed bytes, field by field.
use artos_nautilus_server.Prelude.{ℕ, ◌≡◌, [], ◌∷◌, ◌++◌, append-nil, append_assoc, Bytes}
use artos_nautilus_server.Rust.Outcome.{done, ok}
use artos_nautilus_server.Serde.Value.{little_endian, Bcs, IsBcs}
use artos_nautilus_server.Serde.Encode.{
  vec_bytes, option_bytes, Fits, OptionFits, to_bytes-vec, to_bytes-option, to_bytes-array,
}
use artos_nautilus_server.Orders.Types.{
  SignableOrderResponse, OrderV2Fields, action_to_u8, status_to_u8, to_intent, to_intent_v2,
}
use artos_nautilus_server.Orders.Hex.{parse_hex_bytes}
use artos_nautilus_server.Orders.Message.Depth.{
  to_bytes-message, to_bytes-message_v2, to_bytes-payload, to_bytes-payload_v2,
}
use artos_nautilus_server.Orders.Message.{
  signing_message, signing_message_v2, intent_message, intent_message_v2, serialize_intent,
  serialize_intent_v2,
}

-- The fields that V1 and V2 share, behind the intent and in front of `tail`.
unfoldable pub response_bytes : ℕ → SignableOrderResponse → Bytes → Bytes
response_bytes intent r tail =
    intent
    ∷ (little_endian 8 r.server_timestamp_ms
        ++ (r.version
            ∷ (vec_bytes r.order_id
                ++ (action_to_u8 r.action
                    ∷ status_to_u8 r.status
                    ∷ (little_endian 8 r.amount
                        ++ (vec_bytes r.currency
                            ++ (little_endian 8 r.server_timestamp_ms
                                ++ (option_bytes r.escrow_tx_id
                                    ++ (option_bytes r.notes ++ tail)))))))))

unfoldable pub layout : SignableOrderResponse → Bytes
unfolding response_bytes
layout r = response_bytes (to_intent r.action) r []

unfoldable pub layout_v2 : SignableOrderResponse → (escrow_id recipient nonce : Bytes) → ℕ → Bytes
unfolding response_bytes
layout_v2 r escrow_id recipient nonce expiry_ms =
    response_bytes (to_intent_v2 r.action) r
      (escrow_id ++ (recipient ++ (nonce ++ little_endian 8 expiry_ms)))

-- The vectors of a response are no longer than BCS accepts.
pub record ResponseFits (r : SignableOrderResponse) : Type 0 where
  pub order_id : Fits r.order_id
  pub currency : Fits r.currency
  pub escrow_tx_id : OptionFits r.escrow_tx_id
  pub notes : OptionFits r.notes

module _ (b : Bcs) (L : IsBcs b) where
  pub to_bytes-intent :
      (r : SignableOrderResponse)
      → ResponseFits r
      → b.to_bytes (serialize_intent (intent_message r)) ≡ ok (layout r)
  unfolding serialize_intent intent_message layout
  to_bytes-intent r f = simp (
    to_bytes-message b L,
    to_bytes-payload b L,
    L.to_bytes-u8,
    L.to_bytes-u64,
    to_bytes-vec b L r.order_id f.order_id,
    to_bytes-vec b L r.currency f.currency,
    to_bytes-option b L r.escrow_tx_id f.escrow_tx_id,
    to_bytes-option b L r.notes f.notes,
    append-nil,
    append_assoc,
  )

  pub to_bytes-intent_v2 :
      (r : SignableOrderResponse) (escrow_id recipient nonce : Bytes) (expiry_ms : ℕ)
      → ResponseFits r
      → b.to_bytes (serialize_intent_v2 (intent_message_v2 r escrow_id recipient nonce expiry_ms))
        ≡ ok (layout_v2 r escrow_id recipient nonce expiry_ms)
  unfolding serialize_intent_v2 intent_message_v2 layout_v2
  to_bytes-intent_v2 r escrow_id recipient nonce expiry_ms f = simp (
    to_bytes-message_v2 b L,
    to_bytes-payload_v2 b L,
    L.to_bytes-u8,
    L.to_bytes-u64,
    to_bytes-vec b L r.order_id f.order_id,
    to_bytes-vec b L r.currency f.currency,
    to_bytes-option b L r.escrow_tx_id f.escrow_tx_id,
    to_bytes-option b L r.notes f.notes,
    to_bytes-array b L,
    append-nil,
    append_assoc,
  )

  -- With a lawful serializer, and vectors no longer than it accepts, `signing_message` returns the
  -- bytes that `layout` writes field by field.
  pub signing_message-layout :
      (r : SignableOrderResponse) → ResponseFits r → signing_message b r ≡ done (layout r)
  unfolding signing_message
  signing_message-layout r f = rw (to_bytes-intent r f)

  -- With a lawful serializer, vectors no longer than it accepts, and hexadecimal fields that
  -- parse, `signing_message_v2` returns the bytes that `layout_v2` writes: the V1 fields behind
  -- the V2 intent, the three arrays without a length, and the expiry.
  pub signing_message_v2-layout :
      (r : SignableOrderResponse) (v2 : OrderV2Fields) {escrow_id recipient nonce : Bytes}
      → ResponseFits r
      → parse_hex_bytes 32 v2.escrow_id ≡ done (ok escrow_id)
      → parse_hex_bytes 32 v2.recipient ≡ done (ok recipient)
      → parse_hex_bytes 16 v2.nonce ≡ done (ok nonce)
      → signing_message_v2 b r v2 ≡ done (ok (layout_v2 r escrow_id recipient nonce v2.expiry_ms))
  unfolding signing_message_v2
  signing_message_v2-layout r v2 {escrow_id} {recipient} {nonce} f he hr hn =
      rw (he, hr, hn, to_bytes-intent_v2 r escrow_id recipient nonce v2.expiry_ms f)
