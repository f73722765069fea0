-- ===== src/Server/Handlers/Available.antt =====
-- main.rs: when the order handler returns, and what.
use artos_nautilus_server.Prelude.{◌≡◌, Option, none, some, inl, inr}
use artos_nautilus_server.Rust.Outcome.{done}
use artos_nautilus_server.Serde.Encode.{Fits, OptionFits}
use artos_nautilus_server.External.{Libraries}
use artos_nautilus_server.Serde.Value.{IsBcs}
use artos_nautilus_server.Orders.Types.{
  OrderAction, initiate, deposit, release, refund, OrderRequest, OrderV2Fields,
  SignableOrderResponse, SignedOrderResponse,
}
use artos_nautilus_server.Orders.Message.Layout.{ResponseFits, layout, signing_message-layout}
use artos_nautilus_server.Orders.Crypto.{public_key_base64, sign}
use artos_nautilus_server.Orders.Signing.{
  Duration, status_and_notes, make_response, sign_response, sign_response_with_v2,
}
use artos_nautilus_server.Orders.Signing.Shadow.{FieldsAreAscii, sign_response_with_v2_ascii}
use artos_nautilus_server.Orders.Signing.Verified.{
  sign_response_keeps, sign_response_with_v2_done, signed_as,
}
use artos_nautilus_server.Server.Handlers.{ServerState, process_order_http}

abbrev pub V2IsAscii : Option OrderV2Fields → Type 0
V2IsAscii none = Unit {0}
V2IsAscii (some f) = FieldsAreAscii f

-- An order that a client can send: no text is longer than BCS allows, and the V2 fields, if there
-- are any, are ASCII.
pub record OrderIsPlain (req : OrderRequest) : Type 0 where
  pub order_id : Fits req.order_id
  pub currency : Fits req.currency
  pub ascii : V2IsAscii req.v2

no_notes : (a : OrderAction) → OptionFits (status_and_notes a).1
unfolding status_and_notes
no_notes initiate = tt
no_notes deposit = tt
no_notes release = tt
no_notes refund = tt

make_response-ResponseFits :
    (now : Option Duration) (req : OrderRequest)
    → Fits req.order_id
    → Fits req.currency
    → ResponseFits (make_response now req)
unfolding make_response status_and_notes
make_response-ResponseFits now req h k = record {
  order_id = h;
  currency = k;
  escrow_tx_id = tt;
  notes = no_notes req.action;
}

module _ (l : Libraries) (L : IsBcs l.bcs) (sk : l.ed25519.SigningKey) where
  sign_response_returns :
      (resp : SignableOrderResponse)
      → ResponseFits resp
      → (v1 : SignedOrderResponse) × (sign_response l (some sk) resp ≡ done v1)
  unfolding sign_response sign public_key_base64
  sign_response_returns resp f =
      (signed_as l sk resp (layout resp), rw (signing_message-layout l.bcs L resp f))

  sign_response_with_v2_returns :
      (resp : SignableOrderResponse) (v2 : Option OrderV2Fields)
      → ResponseFits resp
      → V2IsAscii v2
      → (s : SignedOrderResponse) × (sign_response_with_v2 l (some sk) resp v2 ≡ done s)
  sign_response_with_v2_returns resp none f h =
      unfold sign_response_with_v2 in sign_response_returns resp f
  sign_response_with_v2_returns resp (some v2) f h =
      let (v1, e) = sign_response_returns resp f in
      elim (sign_response_with_v2_ascii l sk resp v2 v1 h e) [
        | inl (_, _, r) ↦ (_, r)
        | inr (_, _, r) ↦ (_, r)
      ]

  -- With a lawful serializer and a signing key, the order handler returns, without a panic, on
  -- every order whose `order_id` and `currency` are no longer than BCS accepts and whose V2
  -- fields, if there are any, are ASCII; the response in the reply is the one that `make_response`
  -- built.
  pub process_order_http_returns :
      (state : ServerState l) (now : Option Duration) (req : OrderRequest)
      → state.key ≡ some sk
      → OrderIsPlain req
      → (s : SignedOrderResponse) × (process_order_http l state now req ≡ done s)
        × (s.response ≡ make_response now req)
  unfolding process_order_http
  process_order_http_returns state now req set p =
      let resp = make_response now req in
      let (s, e) =
        sign_response_with_v2_returns resp req.v2
          (make_response-ResponseFits now req p.order_id p.currency) p.ascii in
      let (v1, _) = sign_response_with_v2_done l sk resp req.v2 s e in
      (s, rw set e, sign_response_keeps l sk resp v1)
