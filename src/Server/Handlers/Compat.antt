-- ===== src/Server/Handlers/Compat.antt =====
-- main.rs and orders/order.rs: an order in JSON without `v2`, and the JSON of its reply.
use artos_nautilus_server.Prelude.{◌≡◌, Option, none, some, [], codes, arith, inl, inr}
use artos_nautilus_server.Rust.Outcome.{done}
use artos_nautilus_server.Serde.Json.{object, Entries, end}
use artos_nautilus_server.External.{Libraries}
use artos_nautilus_server.Orders.Types.{OrderRequest, SignedOrderResponse}
use artos_nautilus_server.Orders.Signing.{Duration, make_response}
use artos_nautilus_server.Orders.Json.{signed_json, signed_v1_json}
use artos_nautilus_server.Orders.Json.Request.{occurrences, optional, read_request, decode_request}
use artos_nautilus_server.Orders.Json.Reply.{signed_json_entries}
use artos_nautilus_server.Server.Handlers.{ServerState, process_order_http}

read_request-v2 :
    (es : Entries) (r : OrderRequest)
    → occurrences (codes "v2") es ≡ []
    → read_request es ≡ some r
    → r.v2 ≡ none
unfolding read_request optional
read_request-v2 es r h e = let e₂ = rw h at e in ground arith

-- With a key, if the body of an order is a JSON object without the key `v2` that decodes, then the
-- JSON of the reply has the four entries of V1 and no other.
pub process_order_http_compat :
    (l : Libraries) (sk : l.ed25519.SigningKey) (state : ServerState l) (now : Option Duration)
    (es : Entries) (req : OrderRequest) (s : SignedOrderResponse)
    → state.key ≡ some sk
    → occurrences (codes "v2") es ≡ []
    → decode_request (object es) ≡ some req
    → process_order_http l state now req ≡ done s
    → signed_json s ≡ signed_v1_json s end
unfolding process_order_http decode_request make_response
process_order_http_compat l sk state now es req s set h d p =
    let no_fields = read_request-v2 es req h d in
    elim (signed_json_entries l sk (make_response now req) none s (rw (set, no_fields) at p)) [
      | inl same ↦ same
      | inr (f, t, given, _) ↦ cc given
    ]
