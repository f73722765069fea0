-- ===== src/Server/Handlers.antt =====
-- main.rs: the handlers and the routes of the build with the `orders` feature.
pub mod Served
pub mod Available
pub mod Compat
use artos_nautilus_server.Prelude.{
  ℕ, ◌≡◌, Bool, Option, none, some, List, [], ◌∷◌, Bytes, codes, ◌&&◌, if◌then◌else◌,
}
use artos_nautilus_server.Rust.Outcome.{Outcome, done, panicked, Result, ◌>>=◌}
use artos_nautilus_server.Serde.Json.{Json, text, object, entry, end}
use artos_nautilus_server.External.{Libraries}
use artos_nautilus_server.Orders.Types.{OrderRequest, SignedOrderResponse}
use artos_nautilus_server.Orders.Crypto.{Cell, public_key_base64}
use artos_nautilus_server.Orders.Signing.{Duration, make_response, sign_response_with_v2}
use artos_nautilus_server.Server.Errors.{EnclaveError}
use artos_nautilus_server.Server.Attestation.{AppState, Attested, get_attestation_stub}
use artos_nautilus_server.Server.Health.{Yaml, Network, HealthCheckResponse, health_check}
use artos_nautilus_server.Server.Health.Map.{bytes_eq}

-- The shared state: `AppState` and the static signing key.
pub record ServerState (l : Libraries) : Type 0 where
  pub app : AppState l.fastcrypto
  pub key : Cell l.ed25519

unfoldable pub ping : Bytes
ping = codes "Pong!"

module _ (l : Libraries) where
  unfoldable pub process_order_http :
      ServerState l → Option Duration → OrderRequest → Outcome SignedOrderResponse
  process_order_http state now req =
      sign_response_with_v2 l state.key (make_response now req) req.v2

  unfoldable pub orders_health : ServerState l → Outcome Json
  orders_health state = do
    pk_b64 ← public_key_base64 l.ed25519 l.base64 state.key
    done (
        object (
          entry (codes "status") (text (codes "ok"))
            (entry (codes "ed25519_pubkey_b64") (text pk_b64) end)))

pub data Method : Type 0 where
  get post other_method : Method

pub data Handler : Type 0 where
  ping_handler attestation_handler health_handler order_handler orders_health_handler : Handler

-- The chain of `.route` calls.
unfoldable pub routes : List (Bytes × Method × Handler)
routes =
    (codes "/", get, ping_handler)
    ∷ (codes "/get_attestation", get, attestation_handler)
    ∷ (codes "/health_check", get, health_handler)
    ∷ (codes "/orders/process", post, order_handler)
    ∷ (codes "/orders/health", get, orders_health_handler)
    ∷ []

-- axum's dispatch: the handler of a path and a method in a table of routes.
abbrev pub Router : Type 0
Router = List (Bytes × Method × Handler) → Bytes → Method → Option Handler

unfoldable pub same_method : Method → Method → Bool
same_method get get = Bool.true
same_method post post = Bool.true
same_method other_method other_method = Bool.true
same_method _ _ = Bool.false

-- The first route with the path and the method.
unfoldable pub find_route : Router
unfolding same_method
find_route [] path method = none
find_route ((p, m, h) ∷ rs) path method =
    if bytes_eq p path && same_method m method then some h else find_route rs path method

-- axum's documentation: a route without parameters takes the calls of its method on exactly its
-- path. The table is that of `main`, in which no two routes overlap. What axum does with other
-- calls (`HEAD` goes to the handler of `GET`) is left open.
pub record IsRouter (router : Router) : Type 0 where
  pub routed :
      (path : Bytes) (method : Method) (h : Handler)
      → find_route routes path method ≡ some h
      → router routes path method ≡ some h

-- What a call brings along: the body of an order, the clock, and the outside of the health check.
pub record Call (net : Network) : Type 0 where
  pub path : Bytes
  pub method : Method
  -- The body, if axum's `Json` extractor accepts it.
  pub order : Option OrderRequest
  pub now : Option Duration
  pub client : Result Bytes (Unit {0})
  pub file : Result Bytes Bytes

pub data Reply : Type 0 where
  -- The answer of axum where no route fits, and where the extractor refuses the body.
  not_routed bad_body : Reply
  plain : Bytes → Reply
  attestation : Attested → Reply
  health : Result EnclaveError HealthCheckResponse → Reply
  signed_order : SignedOrderResponse → Reply
  json : Json → Reply

module _ (l : Libraries) (y : Yaml) (net : Network) where
  -- One handler, without the `nitro` feature. A panic ends the task of this call only.
  unfoldable pub run_handler :
      ServerState l → Call net → Handler → net.World → Outcome Reply × net.World
  run_handler state call ping_handler w = (done (plain ping), w)
  run_handler state call attestation_handler w =
      (done (attestation (get_attestation_stub l.fastcrypto state.app)), w)
  run_handler state call health_handler w =
      let (result, w') = health_check y net l.fastcrypto l.hex call.client call.file state.app w in
      (done (health result), w')
  run_handler state call order_handler w = elim call.order [
    | none ↦ (done bad_body, w)
    | some req ↦
        (process_order_http l state call.now req >>= (λ signed. done (signed_order signed)), w)
  ]
  run_handler state call orders_health_handler w =
      (orders_health l state >>= (λ value. done (json value)), w)

  module _ (router : Router) where
    unfoldable pub respond : ServerState l → Call net → net.World → Outcome Reply × net.World
    respond state call w = elim (router routes call.path call.method) [
      | none ↦ (done not_routed, w)
      | some handler ↦ run_handler state call handler w
    ]

    -- The calls that reach the server, in the order in which they are answered.
    unfoldable pub respond_all : ServerState l → List (Call net) → net.World → List (Outcome Reply)
    respond_all state [] w = []
    respond_all state (call ∷ calls) w =
        let (reply, w') = respond state call w in reply ∷ respond_all state calls w'
