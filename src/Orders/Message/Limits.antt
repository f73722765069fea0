-- ===== src/Orders/Message/Limits.antt =====
-- orders/order.rs: when the serialization of a message succeeds.
use artos_nautilus_server.Prelude.{
  ℕ, ◌≡◌, refl, ◌∙◌, Bytes, Option, none, some, length, arith, Bool, Bool-cases, leb, leb→le, true,
  false, ◌&&◌, if◌then◌else◌, inl, inr, codes, ◌++◌,
}
use artos_nautilus_server.Rust.Outcome.{three-eq-ok, done, Result, ok, err, map_result_err}
use artos_nautilus_server.Serde.Value.{
  vec_u8, option_vec_u8, max_sequence_length, prepend, join, Bcs, IsBcs,
}
use artos_nautilus_server.Serde.Encode.{
  vec_bytes, option_bytes, OptionFits, to_bytes-vec, to_bytes-vec_too_long, to_bytes-option,
  to_bytes-array,
}
use artos_nautilus_server.Orders.Types.{SignableOrderResponse, OrderV2Fields}
use artos_nautilus_server.Orders.Hex.{parse_hex_bytes}
use artos_nautilus_server.Orders.Message.Depth.{
  to_bytes-message, to_bytes-message_v2, to_bytes-payload, to_bytes-payload_v2,
}
use artos_nautilus_server.Orders.Message.{
  signing_message, signing_message_v2, intent_message, intent_message_v2, serialize_intent,
  serialize_intent_v2,
}
use artos_nautilus_server.Orders.Message.Layout.{
  ResponseFits, layout, layout_v2, to_bytes-intent, to_bytes-intent_v2,
}

abbrev fits : Bytes → Bool
fits bs = leb (length bs) max_sequence_length

abbrev option_fits : Option Bytes → Bool
option_fits none = true
option_fits (some bs) = fits bs

option_fits→OptionFits : (o : Option Bytes) → option_fits o ≡ true → OptionFits o
option_fits→OptionFits none h = tt
option_fits→OptionFits (some bs) h = leb→le _ _ h

abbrev response_fits : SignableOrderResponse → Bool
response_fits r =
    fits r.order_id && (fits r.currency && (option_fits r.escrow_tx_id && option_fits r.notes))

response_fits→ResponseFits : (r : SignableOrderResponse) → response_fits r ≡ true → ResponseFits r
response_fits→ResponseFits r h = record {
  order_id = ground arith;
  currency = ground arith;
  escrow_tx_id = option_fits→OptionFits r.escrow_tx_id (ground arith);
  notes = option_fits→OptionFits r.notes (ground arith);
}

abbrev is_ok {ℓ κ} : {E : Type κ} {A : Type ℓ} → Result E A → Bool
is_ok (ok a) = true
is_ok (err e) = false

module _ (b : Bcs) (L : IsBcs b) where
  abbrev vec_result : Bytes → Result Bytes Bytes
  vec_result bs = if fits bs then ok (vec_bytes bs) else err (b.exceeded_max_len (length bs))

  vec_result_lem : (bs : Bytes) → b.to_bytes (vec_u8 bs) ≡ vec_result bs
  vec_result_lem bs = elim (Bool-cases (fits bs)) [
    | inl h ↦ rw h (to_bytes-vec b L bs (leb→le _ _ h))
    | inr h ↦ rw h (to_bytes-vec_too_long b L bs (ground arith))
  ]

  abbrev option_result : Option Bytes → Result Bytes Bytes
  option_result none = ok (option_bytes none)
  option_result (some bs) =
      if fits bs then ok (option_bytes (some bs)) else err (b.exceeded_max_len (length bs))

  option_result_lem : (o : Option Bytes) → b.to_bytes (option_vec_u8 o) ≡ option_result o
  option_result_lem none = to_bytes-option b L none tt
  option_result_lem (some bs) = elim (Bool-cases (fits bs)) [
    | inl h ↦ rw h (to_bytes-option b L (some bs) (leb→le _ _ h))
    | inr h ↦ rw h (L.to_bytes-present (vec_u8 bs) ∙ rw (vec_result_lem bs, h))
  ]

  is_ok-vec : (bs : Bytes) → is_ok (b.to_bytes (vec_u8 bs)) ≡ fits bs
  is_ok-vec bs = rw (vec_result_lem bs) (ground arith)

  is_ok-option : (o : Option Bytes) → is_ok (b.to_bytes (option_vec_u8 o)) ≡ option_fits o
  is_ok-option none = rw (option_result_lem none)
  is_ok-option (some bs) = rw (option_result_lem (some bs)) (ground arith)

  is_ok-prepend : (x : Bytes) (p : Result Bytes Bytes) → is_ok (prepend x p) ≡ is_ok p
  is_ok-prepend x (ok y) = refl
  is_ok-prepend x (err y) = refl

  is_ok-join : (p q : Result Bytes Bytes) → is_ok (join p q) ≡ (is_ok p && is_ok q)
  is_ok-join (ok x) (ok y) = refl
  is_ok-join (ok x) (err y) = refl
  is_ok-join (err x) q = refl

  and_true : (x : Bool) → (x && true) ≡ x
  and_true true = refl
  and_true false = refl

  and_assoc : (x y z : Bool) → ((x && y) && z) ≡ (x && (y && z))
  and_assoc true y z = refl
  and_assoc false y z = refl

  is_ok-intent :
      (r : SignableOrderResponse)
      → is_ok (b.to_bytes (serialize_intent (intent_message r))) ≡ response_fits r
  unfolding serialize_intent intent_message
  is_ok-intent r = simp (
    to_bytes-message b L,
    to_bytes-payload b L,
    L.to_bytes-u8,
    L.to_bytes-u64,
    is_ok-prepend,
    is_ok-join,
    is_ok-vec,
    is_ok-option,
    and_true,
  )

  is_ok-intent_v2 :
      (r : SignableOrderResponse) (escrow_id recipient nonce : Bytes) (expiry_ms : ℕ)
      → is_ok (
          b.to_bytes
            (serialize_intent_v2 (intent_message_v2 r escrow_id recipient nonce expiry_ms)))
        ≡ response_fits r
  unfolding serialize_intent_v2 intent_message_v2
  is_ok-intent_v2 r escrow_id recipient nonce expiry_ms = simp (
    to_bytes-message_v2 b L,
    to_bytes-payload_v2 b L,
    L.to_bytes-u8,
    L.to_bytes-u64,
    to_bytes-array b L,
    is_ok-prepend,
    is_ok-join,
    is_ok-vec,
    is_ok-option,
    and_true,
  )

  -- With a lawful serializer, a V1 message is returned only for a response whose vectors are no
  -- longer than BCS accepts, and is its layout.
  pub signing_message_done :
      (r : SignableOrderResponse) {m : Bytes}
      → signing_message b r ≡ done m
      → ResponseFits r × (m ≡ layout r)
  unfolding signing_message
  signing_message_done r {m} h =
      let f : ResponseFits r = response_fits→ResponseFits r (ground (arith, is_ok-intent r)) in
      (f, ground (arith, to_bytes-intent b L r f))

  -- With a lawful serializer, a V2 message is returned only if the three hexadecimal fields parse
  -- and the vectors are no longer than BCS accepts, and is the layout of what they parse to.
  pub signing_message_v2_done :
      (r : SignableOrderResponse) (v2 : OrderV2Fields) {m : Bytes}
      → signing_message_v2 b r v2 ≡ done (ok m)
      → ResponseFits r × (record {
        escrow_id : Bytes;
        recipient : Bytes;
        nonce : Bytes;
        escrow_id_parsed : parse_hex_bytes 32 v2.escrow_id ≡ done (ok escrow_id);
        recipient_parsed : parse_hex_bytes 32 v2.recipient ≡ done (ok recipient);
        nonce_parsed : parse_hex_bytes 16 v2.nonce ≡ done (ok nonce);
        bytes : m ≡ layout_v2 r escrow_id recipient nonce v2.expiry_ms;
      })
  unfolding signing_message_v2
  signing_message_v2_done r v2 {m} h =
      let (escrow_id, recipient, nonce, he, hr, hn, written) =
        three-eq-ok (parse_hex_bytes 32 v2.escrow_id) (parse_hex_bytes 32 v2.recipient)
          (parse_hex_bytes 16 v2.nonce) (λ e. codes "escrow_id: " ++ e)
          (λ e. codes "recipient: " ++ e) (λ e. codes "nonce: " ++ e)
          (λ e r' n. done (
            map_result_err (λ e. codes "BCS serialization failed: " ++ e)
              (b.to_bytes (serialize_intent_v2 (intent_message_v2 r e r' n v2.expiry_ms)))))
          h in
      let f : ResponseFits r =
        response_fits→ResponseFits r
          (ground (arith, is_ok-intent_v2 r escrow_id recipient nonce v2.expiry_ms)) in
      (
        f,
        record {
          escrow_id = escrow_id;
          recipient = recipient;
          nonce = nonce;
          escrow_id_parsed = he;
          recipient_parsed = hr;
          nonce_parsed = hn;
          bytes = ground (arith, to_bytes-intent_v2 b L r escrow_id recipient nonce v2.expiry_ms f);
        },
      )
