-- ===== src/Orders/Json/Reply.antt =====
-- orders/order.rs: what the JSON of a reply tells of the reply.
use artos_nautilus_server.Prelude.{
  ◌≡◌, refl, Option, none, some, Bytes, codes, arith, ◌⊎◌, inl, inr, ap,
}
use artos_nautilus_server.Serde.Json.{text, Entries, entry, end}
use artos_nautilus_server.Orders.Types.{
  OrderAction, OrderStatus, OrderV2Fields, SignableOrderResponse, SignedOrderResponse,
}
use artos_nautilus_server.Orders.Message.Injective.{response_eq}
use artos_nautilus_server.Rust.Outcome.{done}
use artos_nautilus_server.External.{Libraries}
use artos_nautilus_server.Orders.Signing.{sign_response_with_v2}
use artos_nautilus_server.Orders.Signing.Verified.{sign_response_with_v2_done}
use artos_nautilus_server.Orders.Json.{
  action_name, status_name, option_json, skip_none, fields_json, response_json, signed_v1_json,
  signed_json,
}

action_name_inj : (a b : OrderAction) → action_name a ≡ action_name b → a ≡ b
unfolding action_name
action_name_inj a b h = ground arith

status_name_inj : (a b : OrderStatus) → status_name a ≡ status_name b → a ≡ b
unfolding status_name
status_name_inj a b h = ground arith

option_json_inj : (a b : Option Bytes) → option_json a ≡ option_json b → a ≡ b
unfolding option_json
option_json_inj a b h = ground arith

fields_json_inj : (f g : OrderV2Fields) → fields_json f ≡ fields_json g → f ≡ g
unfolding fields_json
fields_json_inj f g h = ground arith

text_inj : (s t : Bytes) → text s ≡ text t → s ≡ t
text_inj s t h = ground arith

response_json_inj : (r s : SignableOrderResponse) → response_json r ≡ response_json s → r ≡ s
unfolding response_json
response_json_inj r s h =
    response_eq r s (ground arith) (ground arith) (action_name_inj r.action s.action (ground arith))
      (status_name_inj r.status s.status (ground arith)) (ground arith) (ground arith)
      (ground arith) (option_json_inj r.escrow_tx_id s.escrow_tx_id (ground arith))
      (option_json_inj r.notes s.notes (ground arith))

abbrev v2_entries : Option Bytes → Option OrderV2Fields → Entries
v2_entries signature v2 =
    skip_none (codes "signature_v2") text signature (skip_none (codes "v2") fields_json v2 end)

v2_entries_inj :
    (s t : Option Bytes) (v w : Option OrderV2Fields)
    → v2_entries s v ≡ v2_entries t w
    → (s ≡ t) × (v ≡ w)
unfolding skip_none
v2_entries_inj none none none none h = (refl, refl)
v2_entries_inj none none none (some w) h = absurd (ground arith)
v2_entries_inj none none (some v) none h = absurd (ground arith)
v2_entries_inj none none (some v) (some w) h = (refl, ap some (fields_json_inj v w (ground arith)))
v2_entries_inj none (some t) none w h = absurd (ground arith)
v2_entries_inj none (some t) (some v) w h = absurd (ground arith)
v2_entries_inj (some s) none v none h = absurd (ground arith)
v2_entries_inj (some s) none v (some w) h = absurd (ground arith)
v2_entries_inj (some s) (some t) none none h = (ground arith, refl)
v2_entries_inj (some s) (some t) none (some w) h = absurd (ground arith)
v2_entries_inj (some s) (some t) (some v) none h = absurd (ground arith)
v2_entries_inj (some s) (some t) (some v) (some w) h =
    (ground arith, ap some (fields_json_inj v w (ground arith)))

signed_eq :
    (s t : SignedOrderResponse)
    → s.response ≡ t.response
    → s.signature ≡ t.signature
    → s.public_key ≡ t.public_key
    → s.scheme ≡ t.scheme
    → s.signature_v2 ≡ t.signature_v2
    → s.v2 ≡ t.v2
    → s ≡ t
signed_eq s t h₁ h₂ h₃ h₄ h₅ h₆ = cc

-- Two signed responses with the same JSON are equal, in every field of the response and in the
-- optional V2 parts.
pub signed_json_inj : (s t : SignedOrderResponse) → signed_json s ≡ signed_json t → s ≡ t
unfolding signed_json
signed_json_inj s t h =
    let (signature_v2, v2) =
      v2_entries_inj s.signature_v2 t.signature_v2 s.v2 t.v2 (ground arith) in
    signed_eq s t (response_json_inj s.response t.response (ground arith)) (ground arith)
      (ground arith) (ground arith) signature_v2 v2

-- With a key, the JSON of a response that `sign_response_with_v2` returns has the four entries of
-- V1 and no other, or these followed by both `signature_v2` and `v2`, where the request has V2
-- fields, and `v2` holds them.
pub signed_json_entries :
    (l : Libraries) (sk : l.ed25519.SigningKey) (resp : SignableOrderResponse)
    (v2 : Option OrderV2Fields) (s : SignedOrderResponse)
    → sign_response_with_v2 l (some sk) resp v2 ≡ done s
    → (signed_json s ≡ signed_v1_json s end)
      ⊎ ((f : OrderV2Fields) × (t : Bytes) × (v2 ≡ some f)
          × (signed_json s
              ≡ signed_v1_json s
                  (entry (codes "signature_v2") (text t) (entry (codes "v2") (fields_json f) end))))
unfolding signed_json skip_none
signed_json_entries l sk resp v2 s h = elim (sign_response_with_v2_done l sk resp v2 s h).1 [
  | inl (no_signature, no_fields) ↦ inl (rw (no_signature, no_fields) refl)
  | inr (f, t, given, echoed, signature, _) ↦ inr (f, t, given, rw (signature, echoed) refl)
]
