-- ===== src/Server/Handlers/Served.antt =====
-- main.rs: the answers of a server with a signing key to a sequence of calls.
use artos_nautilus_server.Prelude.{
  ◌≡◌, refl, Option, none, some, List, [], ◌∷◌, Bytes, codes, Option-cases, inl, inr, ◌⊎◌, Bool,
  true, false, ◌&&◌,
}
use artos_nautilus_server.Rust.Outcome.{Outcome, done, panicked, ok, ◌>>=◌, Outcome-cases}
use artos_nautilus_server.Serde.Json.{Json, text, object, entry, end}
use artos_nautilus_server.External.{Libraries, AreLawful}
use artos_nautilus_server.Orders.Types.{
  OrderV2Fields, SignableOrderResponse, SignedOrderResponse, OrderRequest,
}
use artos_nautilus_server.Orders.Message.{signing_message, signing_message_v2}
use artos_nautilus_server.Orders.Crypto.{public_key_base64}
use artos_nautilus_server.Orders.Signing.{make_response, sign_response_with_v2}
use artos_nautilus_server.Orders.Signing.Verified.{
  Signs, sign_response_keeps, sign_response_verified, sign_response_with_v2_done,
  sign_response_with_v2_verified,
}
use artos_nautilus_server.Server.Handlers.Available.{OrderIsPlain, process_order_http_returns}
use artos_nautilus_server.Server.Health.{Yaml, Network}
use artos_nautilus_server.Server.Health.Map.{bytes_eq, bytes_eq_iff}
use artos_nautilus_server.Server.Handlers.{
  ServerState, process_order_http, orders_health, Handler, ping_handler, attestation_handler,
  health_handler, order_handler, orders_health_handler, Call, Reply, not_routed, bad_body, plain,
  attestation, health, signed_order, json, run_handler, Router, routes, respond, respond_all,
  Method, get, post, other_method, same_method, find_route, IsRouter,
}

-- The body of `/orders/health`.
abbrev pub health_json : Bytes → Json
health_json printed = object (
    entry (codes "status") (text (codes "ok"))
      (entry (codes "ed25519_pubkey_b64") (text printed) end))

same_method_lem : (m n : Method) → same_method m n ≡ true → m ≡ n
unfolding same_method
same_method_lem get get h = refl
same_method_lem post post h = refl
same_method_lem other_method other_method h = refl
same_method_lem get post h = cc
same_method_lem get other_method h = cc
same_method_lem post get h = cc
same_method_lem post other_method h = cc
same_method_lem other_method get h = cc
same_method_lem other_method post h = cc

-- The call has this path and this method.
abbrev pub asks : {net : Network} → Call net → Bytes → Method → Bool
asks call path method = bytes_eq path call.path && same_method method call.method

module _ (l : Libraries) (sk : l.ed25519.SigningKey) where
  -- A signed order verifies under the key, and so does its V2 part if it has one.
  pub record OrderIsSound (s : SignedOrderResponse) : Type 0 where
    pub key : l.base64.decode s.public_key ≡ some (l.ed25519.verifying_key sk)
    pub v1 :
        (msg : Bytes) × (signing_message l.bcs s.response ≡ done msg)
        × Signs l (l.ed25519.verifying_key sk) msg s.signature
    pub v2 :
        (s.signature_v2 ≡ none)
        ⊎ ((f : OrderV2Fields) × (msg : Bytes) × (t : Bytes) × (s.signature_v2 ≡ some t)
            × (s.v2 ≡ some f)
            × (signing_message_v2 l.bcs s.response f ≡ done (ok msg))
            × Signs l (l.ed25519.verifying_key sk) msg t)

  -- A JSON reply is the health of the orders, and prints the same key.
  abbrev pub ReplyIsSound : Outcome Reply → Type 0
  ReplyIsSound (done (signed_order s)) = OrderIsSound s
  ReplyIsSound (done (json value)) =
      (printed : Bytes) × (value ≡ health_json printed)
      × (l.base64.decode printed ≡ some (l.ed25519.verifying_key sk))
  ReplyIsSound (done not_routed) = Unit {0}
  ReplyIsSound (done bad_body) = Unit {0}
  ReplyIsSound (done (plain t)) = Unit {0}
  ReplyIsSound (done (attestation a)) = Unit {0}
  ReplyIsSound (done (health h)) = Unit {0}
  ReplyIsSound panicked = Unit {0}

  -- The reply of `/orders/health`, and of `/orders/process` to an order, by what the call asks for.
  abbrev pub Expected : (health order : Bool) {net : Network} → Call net → Outcome Reply → Type 0
  Expected true order call o =
      (printed : Bytes) × (o ≡ done (json (health_json printed)))
      × (l.base64.decode printed ≡ some (l.ed25519.verifying_key sk))
  Expected false true call o =
      ((call.order ≡ none) × (o ≡ done bad_body))
      ⊎ ((req : OrderRequest) × (call.order ≡ some req)
          × (((o ≡ panicked) × ¬ (OrderIsPlain req))
              ⊎ ((s : SignedOrderResponse) × (o ≡ done (signed_order s))
                  × (s.response ≡ make_response call.now req)
                  × OrderIsSound s)))
  Expected false false call o = Unit {0}

  abbrev pub CallIsSound : {net : Network} → Call net → Outcome Reply → Type 0
  CallIsSound call o =
      Expected (asks call (codes "/orders/health") get) (asks call (codes "/orders/process") post)
        call o
      × ReplyIsSound o

  -- One sound reply for each call, in order.
  abbrev pub RunIsSound : {net : Network} → List (Call net) → List (Outcome Reply) → Type 0
  RunIsSound [] [] = Unit {0}
  RunIsSound (call ∷ calls) (o ∷ os) = CallIsSound call o × RunIsSound calls os
  RunIsSound [] (o ∷ os) = ⊥
  RunIsSound (call ∷ calls) [] = ⊥

module _ (l : Libraries) (L : AreLawful l) (sk : l.ed25519.SigningKey) where
  pub sign_response_with_v2-OrderIsSound :
      (resp : SignableOrderResponse) (v2 : Option OrderV2Fields) (s : SignedOrderResponse)
      → sign_response_with_v2 l (some sk) resp v2 ≡ done s
      → OrderIsSound l sk s
  sign_response_with_v2-OrderIsSound resp v2 s h =
      let (v1, added) = sign_response_with_v2_done l sk resp v2 s h in
      let (same, key, signs) = sign_response_verified l L sk resp _ v1 in
      record {
        key = key;
        v1 = rw same signs;
        v2 = elim (Option-cases s.signature_v2) [
          | inl e ↦ inl e
          | inr (t, e) ↦
              let (f, msg, _, e₂, written, signs, _) =
                sign_response_with_v2_verified l L sk resp v2 s t h e in
              inr (f, msg, t, e, e₂, rw same written, signs)
        ];
      }

  module _ (y : Yaml) (net : Network) (router : Router) (state : ServerState l)
      (set : state.key ≡ some sk) where
    order_reply :
        (o : Outcome SignedOrderResponse)
        → ((s : SignedOrderResponse) → o ≡ done s → OrderIsSound l sk s)
        → ReplyIsSound l sk (o >>= λ s. done (signed_order s))
    order_reply (done s) h = h s refl
    order_reply panicked h = tt

    run_handler-ReplyIsSound :
        (call : Call net) (handler : Handler) (w : net.World)
        → ReplyIsSound l sk (run_handler l y net state call handler w).0
    unfolding run_handler process_order_http orders_health public_key_base64
    run_handler-ReplyIsSound call ping_handler w = tt
    run_handler-ReplyIsSound call attestation_handler w = tt
    run_handler-ReplyIsSound call health_handler w = tt
    run_handler-ReplyIsSound call orders_health_handler w =
        rw set (_, refl, L.base64.decode-encode _)
    run_handler-ReplyIsSound call order_handler w = elim (Option-cases call.order) [
      | inl e ↦ rw (e, run_handler) tt
      | inr (req, e) ↦
          rw (e, set)
            (order_reply _ (sign_response_with_v2-OrderIsSound (make_response call.now req) req.v2))
    ]

    respond-ReplyIsSound :
        (call : Call net) (w : net.World)
        → ReplyIsSound l sk (respond l y net router state call w).0
    unfolding respond
    respond-ReplyIsSound call w = elim (Option-cases (router routes call.path call.method)) [
      | inl e ↦ rw (e, respond) tt
      | inr (handler, e) ↦ rw (e, respond) (run_handler-ReplyIsSound call handler w)
    ]

    asks-eq :
        (call : Call net) (path : Bytes) (method : Method)
        → asks call path method ≡ true
        → (path ≡ call.path) × (method ≡ call.method)
    asks-eq call path method h =
        let (p, m) = and_true (bytes_eq path call.path) (same_method method call.method) h in
        ((bytes_eq_iff path call.path).0 p, same_method_lem method call.method m)
      where
        and_true : (a b : Bool) → (a && b) ≡ true → (a ≡ true) × (b ≡ true)
        and_true true true h = (refl, refl)
        and_true true false h = cc
        and_true false b h = cc

    routed :
        (R : IsRouter router) (call : Call net) (path : Bytes) (method : Method) (h : Handler)
        (w : net.World)
        → asks call path method ≡ true
        → find_route routes path method ≡ some h
        → respond l y net router state call w ≡ run_handler l y net state call h w
    unfolding respond
    routed R call path method h w asked found =
        let (p, m) = asks-eq call path method asked in
        let taken : router routes call.path call.method ≡ some h =
          R.routed call.path call.method h (rw (← p, ← m) found) in
        rw (taken, respond)

    taken_order :
        (call : Call net) (req : OrderRequest) (w : net.World)
        → call.order ≡ some req
        → respond l y net router state call w ≡ run_handler l y net state call order_handler w
        → let o = (respond l y net router state call w).0 in
          ((o ≡ panicked) × ¬ (OrderIsPlain req))
          ⊎ ((s : SignedOrderResponse) × (o ≡ done (signed_order s))
              × (s.response ≡ make_response call.now req)
              × OrderIsSound l sk s)
    unfolding run_handler process_order_http
    taken_order call req w e taken =
        let resp = make_response call.now req in
        elim (Outcome-cases (sign_response_with_v2 l (some sk) resp req.v2)) [
          | inl (s, h) ↦
              let (v1, _) = sign_response_with_v2_done l sk resp req.v2 s h in
              inr (
                s,
                rw (taken, e, run_handler, set, h) refl,
                sign_response_keeps l sk resp v1,
                sign_response_with_v2-OrderIsSound resp req.v2 s h,
              )
          | inr h ↦ inl (
            rw (taken, e, run_handler, set, h) refl,
            λ p.
                let (s, returned, _) =
                  process_order_http_returns l L.bcs sk state call.now req set p in
                let same : sign_response_with_v2 l (some sk) resp req.v2 ≡ done s =
                  rw (← set) returned in
                cc,
          )
        ]

    respond-Expected :
        (R : IsRouter router) (call : Call net) (w : net.World) (health order : Bool)
        → asks call (codes "/orders/health") get ≡ health
        → asks call (codes "/orders/process") post ≡ order
        → Expected l sk health order call (respond l y net router state call w).0
    unfolding run_handler orders_health public_key_base64 process_order_http find_route same_method
        bytes_eq routes
    respond-Expected R call w true order h o =
        let taken = routed R call (codes "/orders/health") get orders_health_handler w h refl in
        (
          l.base64.encode (l.ed25519.verifying_key sk),
          rw (taken, set) refl,
          L.base64.decode-encode _,
        )
    respond-Expected R call w false true h o =
        let taken = routed R call (codes "/orders/process") post order_handler w o refl in
        elim (Option-cases call.order) [
          | inl e ↦ inl (e, rw (taken, e, run_handler) refl)
          | inr (req, e) ↦ inr (req, e, taken_order call req w e taken)
        ]
    respond-Expected R call w false false h o = tt

    pub respond_all_sound :
        (R : IsRouter router) (calls : List (Call net)) (w : net.World)
        → RunIsSound l sk calls (respond_all l y net router state calls w)
    unfolding respond_all
    respond_all_sound R [] w = tt
    respond_all_sound R (call ∷ calls) w = (
      (respond-Expected R call w _ _ refl refl, respond-ReplyIsSound call w),
      respond_all_sound R calls _,
    )
