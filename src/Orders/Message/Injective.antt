-- ===== src/Orders/Message/Injective.antt =====
-- orders/order.rs: what the signed bytes tell of the response and of the version.
use artos_nautilus_server.Prelude.{
  ℕ, ◌≡◌, ap, ◌∙◌, sym, List, [], ◌∷◌, ◌++◌, append_inj, Bytes, length, arith, IsByte, IsU64, ◌≢◌,
}
use artos_nautilus_server.Rust.Outcome.{done, ok}
use artos_nautilus_server.Serde.Value.{Bcs, IsBcs}
use artos_nautilus_server.Orders.Hex.{parse_hex_bytes}
use artos_nautilus_server.Orders.Hex.Inputs.{parse_hex_bytes_array}
use artos_nautilus_server.Orders.Message.{signing_message, signing_message_v2}
use artos_nautilus_server.Orders.Message.Limits.{signing_message_done, signing_message_v2_done}
use artos_nautilus_server.Serde.Format.{little_endian_inj, vec_bytes_inj, option_bytes_inj}
use artos_nautilus_server.Orders.Types.{
  OrderAction, OrderStatus, SignableOrderResponse, OrderV2Fields, action_to_u8, status_to_u8,
  to_intent, to_intent_v2,
}
use artos_nautilus_server.Orders.Message.Layout.{response_bytes, layout, layout_v2, ResponseFits}

-- The ranges of the `u8` and `u64` fields.
pub record ResponseInRange (r : SignableOrderResponse) : Type 0 where
  pub version : IsByte r.version
  pub amount : IsU64 r.amount
  pub server_timestamp_ms : IsU64 r.server_timestamp_ms

action_to_u8_inj : (a b : OrderAction) → action_to_u8 a ≡ action_to_u8 b → a ≡ b
unfolding action_to_u8
action_to_u8_inj a b h = ground arith

status_to_u8_inj : (a b : OrderStatus) → status_to_u8 a ≡ status_to_u8 b → a ≡ b
unfolding status_to_u8
status_to_u8_inj a b h = ground arith

pub response_eq :
    (r s : SignableOrderResponse)
    → r.version ≡ s.version
    → r.order_id ≡ s.order_id
    → r.action ≡ s.action
    → r.status ≡ s.status
    → r.amount ≡ s.amount
    → r.currency ≡ s.currency
    → r.server_timestamp_ms ≡ s.server_timestamp_ms
    → r.escrow_tx_id ≡ s.escrow_tx_id
    → r.notes ≡ s.notes
    → r ≡ s
response_eq r s h₁ h₂ h₃ h₄ h₅ h₆ h₇ h₈ h₉ = cc

cons_inj {ℓ} : {A : Type ℓ} {x y : A} {xs ys : List A} → x ∷ xs ≡ y ∷ ys → (x ≡ y) × (xs ≡ ys)
cons_inj h = (cc, cc)

-- Equal bytes hold the same intent, the same response and the same tail.
response_bytes_inj :
    (i j : ℕ) (r s : SignableOrderResponse) {x y : Bytes}
    → ResponseFits r
    → ResponseFits s
    → ResponseInRange r
    → ResponseInRange s
    → response_bytes i r x ≡ response_bytes j s y
    → (i ≡ j) × (r ≡ s) × (x ≡ y)
unfolding response_bytes
response_bytes_inj i j r s {x} {y} fr fs tr ts e =
    let (intent, e) = cons_inj e in
    let (time, e) = little_endian_inj 8 _ _ tr.server_timestamp_ms ts.server_timestamp_ms e in
    let (version, e) = cons_inj e in
    let (order_id, e) = vec_bytes_inj _ _ fr.order_id fs.order_id e in
    let (action, e) = cons_inj e in
    let (status, e) = cons_inj e in
    let (amount, e) = little_endian_inj 8 _ _ tr.amount ts.amount e in
    let (currency, e) = vec_bytes_inj _ _ fr.currency fs.currency e in
    let (_, e) = little_endian_inj 8 _ _ tr.server_timestamp_ms ts.server_timestamp_ms e in
    let (tx, e) = option_bytes_inj _ _ fr.escrow_tx_id fs.escrow_tx_id e in
    let (notes, e) = option_bytes_inj _ _ fr.notes fs.notes e in
    (
      intent,
      response_eq r s version order_id (action_to_u8_inj _ _ action) (status_to_u8_inj _ _ status)
          amount currency time tx notes,
      e,
    )

layout_inj :
    (r s : SignableOrderResponse)
    → ResponseFits r
    → ResponseFits s
    → ResponseInRange r
    → ResponseInRange s
    → layout r ≡ layout s
    → r ≡ s
unfolding layout
layout_inj r s fr fs tr ts e = (response_bytes_inj _ _ r s fr fs tr ts e).1

-- The first byte of a V1 message is below 4, and that of a V2 message at least 16.
layout-ne-layout_v2 :
    (r s : SignableOrderResponse) (escrow_id recipient nonce : Bytes) (expiry_ms : ℕ)
    → layout r ≢ layout_v2 s escrow_id recipient nonce expiry_ms
unfolding layout layout_v2 to_intent to_intent_v2
layout-ne-layout_v2 r s escrow_id recipient nonce expiry_ms e = ground (arith, cons_inj e)

same_length :
    (n : ℕ) (s t : Bytes) {x y : Bytes}
    → parse_hex_bytes n s ≡ done (ok x)
    → parse_hex_bytes n t ≡ done (ok y)
    → length x ≡ length y
same_length n s t hx hy =
    (parse_hex_bytes_array n s _ hx).0 ∙ sym (parse_hex_bytes_array n t _ hy).0

module _ (b : Bcs) (L : IsBcs b) where
  -- With a lawful serializer, two V1 responses in the ranges of their fields that have the same
  -- signed bytes are equal.
  pub signing_message_inj :
      (r s : SignableOrderResponse) (m : Bytes)
      → ResponseInRange r
      → ResponseInRange s
      → signing_message b r ≡ done m
      → signing_message b s ≡ done m
      → r ≡ s
  signing_message_inj r s m tr ts er es =
      let (fr, mr) = signing_message_done b L r er in
      let (fs, ms) = signing_message_done b L s es in layout_inj r s fr fs tr ts (sym mr ∙ ms)

  -- With a lawful serializer, no bytes are both the V1 message of one response and the V2 message
  -- of another or the same one, whatever the V2 fields are.
  pub signing_message-ne-signing_message_v2 :
      (r s : SignableOrderResponse) (v2 : OrderV2Fields) (m : Bytes)
      → signing_message b r ≡ done m
      → signing_message_v2 b s v2 ≢ done (ok m)
  signing_message-ne-signing_message_v2 r s v2 m er es =
      let (_, mr) = signing_message_done b L r er in
      let (_, p) = signing_message_v2_done b L s v2 es in
      layout-ne-layout_v2 r s p.escrow_id p.recipient p.nonce v2.expiry_ms (sym mr ∙ p.bytes)

  -- With a lawful serializer and fields in range, equal V2 bytes come from equal responses, V2
  -- fields whose three hexadecimal texts parse alike, and the same expiry.
  pub signing_message_v2_inj :
      (r s : SignableOrderResponse) (v w : OrderV2Fields) (m : Bytes)
      → ResponseInRange r
      → ResponseInRange s
      → IsU64 v.expiry_ms
      → IsU64 w.expiry_ms
      → signing_message_v2 b r v ≡ done (ok m)
      → signing_message_v2 b s w ≡ done (ok m)
      → (r ≡ s)
        × (parse_hex_bytes 32 v.escrow_id ≡ parse_hex_bytes 32 w.escrow_id)
        × (parse_hex_bytes 32 v.recipient ≡ parse_hex_bytes 32 w.recipient)
        × (parse_hex_bytes 16 v.nonce ≡ parse_hex_bytes 16 w.nonce)
        × (v.expiry_ms ≡ w.expiry_ms)
  unfolding layout_v2
  signing_message_v2_inj r s v w m tr ts tv tw er es =
      let (fr, p) = signing_message_v2_done b L r v er in
      let (fs, q) = signing_message_v2_done b L s w es in
      let (_, same, tail) =
        response_bytes_inj (to_intent_v2 r.action) (to_intent_v2 s.action) r s fr fs tr ts
          (sym p.bytes ∙ q.bytes) in
      let (escrow_id, tail) =
        append_inj p.escrow_id q.escrow_id
          (same_length 32 _ _ p.escrow_id_parsed q.escrow_id_parsed) tail in
      let (recipient, tail) =
        append_inj p.recipient q.recipient
          (same_length 32 _ _ p.recipient_parsed q.recipient_parsed) tail in
      let (nonce, tail) =
        append_inj p.nonce q.nonce (same_length 16 _ _ p.nonce_parsed q.nonce_parsed) tail in
      let expiry : v.expiry_ms ≡ w.expiry_ms =
        (little_endian_inj 8 v.expiry_ms w.expiry_ms {x = []} {y = []} tv tw
          (ap (λ l. l ++ []) tail)).0 in
      (
        same,
        cc (p.escrow_id_parsed, q.escrow_id_parsed, escrow_id),
        cc (p.recipient_parsed, q.recipient_parsed, recipient),
        cc (p.nonce_parsed, q.nonce_parsed, nonce),
        expiry,
      )
