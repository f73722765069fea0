-- ===== src/Tests/Server.antt =====
-- The theorems on main.rs, common.rs and lib.rs.
use artos_nautilus_server.Prelude.{
  ℕ, suc, ◌≡◌, ◌≢◌, ◌⊎◌, inl, refl, true, none, some, List, [], ◌∷◌, ◌++◌, map, Bytes, codes, arith,
  pos,
}
use artos_nautilus_server.Rust.Outcome.{done, ok, err}
use artos_nautilus_server.Rust.Num.{show_nat, show_digits, from_str_radix, parse_digits, to_digit}
use artos_nautilus_server.Orders.Types.{SignedOrderResponse}
use artos_nautilus_server.Serde.Json.{null, pos_int, text, object, Entries, entry, end}
use artos_nautilus_server.Orders.Json.{action_name, signed_json, signed_v1_json}
use artos_nautilus_server.Orders.Json.Request.{
  decode_number, decode_text, decode_action_name, decode_action, occurrences, required, optional,
  read_request, decode_request,
}
use artos_nautilus_server.Server.Handlers.Compat.{process_order_http_compat}
use artos_nautilus_server.Orders.Crypto.{ensure_initialized, generate_key, public_key_base64}
use artos_nautilus_server.Orders.Signing.{make_response}
use artos_nautilus_server.Server.Attestation.{
  AppState, NsmRequest, NsmDriver, attestation_document, nsm_init, nsm_process_request, nsm_exit,
  get_attestation,
}
use artos_nautilus_server.Server.Health.{Yaml, Network}
use artos_nautilus_server.Server.Health.Map.{bytes_eq}
use artos_nautilus_server.Server.Handlers.{
  ServerState, process_order_http, get as get_method, post, Call, respond_all, find_route, IsRouter,
}
use artos_nautilus_server.Server.Handlers.Served.{RunIsSound}
use artos_nautilus_server.Server.Handlers.Available.{OrderIsPlain, process_order_http_returns}
use artos_nautilus_server.Server.Startup.{Environment, Server, start, listen, parse_port, main}
use artos_nautilus_server.Server.Startup.Ready.{Started, start_sound, start_returns, start-Started}
use artos_nautilus_server.Server.Startup.Errors.{main_errors}
use artos_nautilus_server.Server.Startup.Keys.{attested_key-ne-order_key}
use artos_nautilus_server.Tests.Reference.{
  once_cell_reference-IsOnceCell, ed25519_reference, encoding_reference, libraries,
  libraries-AreLawful, bcs_reference-IsBcs,
}
use artos_nautilus_server.Tests.Orders.{request}

-- A document is a list of texts, and a file one text.
abbrev pub yaml : Yaml
yaml = record {
  Node = List Bytes;
  from_str = λ content. ok (content ∷ []);
  get = λ node name. some node;
  as_sequence = λ node. some (map (λ name. name ∷ []) node);
  as_str = λ node. elim node [ [] ↦ none | name ∷ rest ↦ some name ];
}

-- The state is the number of requests so far.
abbrev pub network : Network
network = record {
  World = ℕ;
  send = λ url w. (ok (record { is_success = true; body = ok (codes "Healthy") }), suc w);
}

abbrev pub key : Bytes
key = 1 ∷ 2 ∷ 3 ∷ []

abbrev environment : Environment libraries
environment = record {
  eph_kp = 9 ∷ [];
  seed = some key;
  port = some (codes "80");
  bind = λ addr. ok tt;
  local_addr = ok (codes "0.0.0.0:80");
  serve = ok tt;
}

abbrev pub app : AppState ed25519_reference
app = record { eph_kp = 9 ∷ []; api_key = [] }

abbrev state : ServerState libraries
state = record { app = app; key = some key }

abbrev server : Server libraries
server = record { state = state; addr = codes "0.0.0.0:80" }

started : start libraries environment ≡ done (ok server)
unfolding start listen ensure_initialized generate_key public_key_base64 parse_port from_str_radix
    parse_digits to_digit show_nat show_digits
started = refl

find_route-IsRouter : IsRouter find_route
find_route-IsRouter = record { routed = λ path method h found. found }

abbrev calls : List (Call network)
calls =
    record {
      path = codes "/orders/process";
      method = post;
      order = some request;
      now = none;
      client = ok tt;
      file = ok (codes "seal.example");
    }
    ∷ record {
      path = codes "/orders/health";
      method = get_method;
      order = none;
      now = none;
      client = ok tt;
      file = ok (codes "seal.example");
    }
    ∷ []

start_sound_example :
    (seed : Bytes) × (environment.seed ≡ some seed)
    × RunIsSound libraries seed calls (respond_all libraries yaml network find_route state calls 0)
start_sound_example =
    start_sound libraries libraries-AreLawful yaml network find_route find_route-IsRouter
      environment server calls 0 started

port_text : environment.port ≡ some (show_nat 80)
unfolding show_nat show_digits
port_text = refl

start_returns_example :
    (s : Server libraries) × (start libraries environment ≡ done (ok s))
    × Started libraries environment s
start_returns_example =
    start_returns libraries once_cell_reference-IsOnceCell environment key 80 (codes "0.0.0.0:80")
      refl (inl (port_text, omega arith)) refl refl

start-Started_example : Started libraries environment server
start-Started_example =
    start-Started libraries once_cell_reference-IsOnceCell environment server started

request-OrderIsPlain : OrderIsPlain request
request-OrderIsPlain = record { order_id = omega arith; currency = omega arith; ascii = tt }

process_order_http_returns_example :
    (s : SignedOrderResponse) × (process_order_http libraries state none request ≡ done s)
    × (s.response ≡ make_response none request)
process_order_http_returns_example =
    process_order_http_returns libraries bcs_reference-IsBcs key state none request refl
      request-OrderIsPlain

abbrev pub driver : NsmDriver
driver = record { fd = pos 3; answer = λ fd request. attestation_document (codes "doc") }

-- The answer to the order of `calls`.
served :
    (s : SignedOrderResponse) × (process_order_http libraries state none request ≡ done s)
    × (s.response ≡ make_response none request)
served =
    process_order_http_returns libraries bcs_reference-IsBcs key state none request refl
      request-OrderIsPlain

ephemeral-ne-order :
    libraries.fastcrypto.verifying_key environment.eph_kp
    ≢ libraries.ed25519.verifying_key (libraries.ed25519.from_bytes key)
ephemeral-ne-order same = cc

attested_key-ne-order_key_example :
    (request : NsmRequest) × ((get_attestation ed25519_reference encoding_reference driver app).0
      ≡ nsm_init (pos 3) ∷ nsm_process_request (pos 3) request ∷ nsm_exit (pos 3) ∷ [])
    × (request.public_key ≢ encoding_reference.decode served.0.public_key)
attested_key-ne-order_key_example =
    attested_key-ne-order_key libraries libraries-AreLawful environment server driver none request
      served.0 key started served.1 refl ephemeral-ne-order

abbrev failing : Environment libraries
failing = record environment { serve = err (codes "EMFILE") }

failed : main libraries failing ≡ done (err (codes "Server error: EMFILE"))
unfolding main start listen ensure_initialized generate_key public_key_base64 parse_port
    from_str_radix parse_digits to_digit show_nat show_digits
failed = refl

main_errors_example :
    (seed : Bytes) × (port : ℕ) × (failing.seed ≡ some seed)
    × (parse_port failing.port ≡ done port)
    × ((failing.bind (codes "0.0.0.0:" ++ show_nat port) ≡ err (codes "Server error: EMFILE"))
        ⊎ ((failing.bind (codes "0.0.0.0:" ++ show_nat port) ≡ ok tt)
            × ((x : Bytes) × (failing.serve ≡ err x)
                × (codes "Server error: EMFILE" ≡ codes "Server error: " ++ x))))
main_errors_example =
    main_errors libraries once_cell_reference-IsOnceCell failing (codes "Server error: EMFILE")
      failed

-- The body of `request`, with a key that is not known.
abbrev body : Entries
body = entry (codes "hint") null (
    entry (codes "version") (pos_int 1) (
      entry (codes "order_id") (text (codes "ord-1")) (
        entry (codes "customer") (text (codes "c")) (
          entry (codes "merchant") (text (codes "m")) (
            entry (codes "amount") (pos_int 500) (
              entry (codes "currency") (text (codes "USD"))
                (entry (codes "action") (text (codes "deposit")) end)))))))

body_decoded : decode_request (object body) ≡ some request
unfolding decode_request read_request occurrences required optional decode_number decode_text
    decode_action decode_action_name action_name bytes_eq
body_decoded = refl

body-v2 : occurrences (codes "v2") body ≡ []
unfolding occurrences bytes_eq
body-v2 = refl

process_order_http_compat_example : signed_json served.0 ≡ signed_v1_json served.0 end
process_order_http_compat_example =
    process_order_http_compat libraries key state none body request served.0 refl body-v2
      body_decoded served.1
