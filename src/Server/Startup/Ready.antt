-- ===== src/Server/Startup/Ready.antt =====
-- main.rs: when `main` comes to serve, and what it serves.
use artos_nautilus_server.Prelude.{
  ℕ, ◌≡◌, ◌<◌, ◌^◌, refl, sym, ◌∙◌, none, some, Bytes, codes, ◌++◌, List, [], Option-cases, arith,
  inl, inr, ◌⊎◌,
}
use artos_nautilus_server.Rust.Outcome.{
  done, panicked, ok, ◌>>=◌, ◌>>=?◌, expect, >>=-eq-done, >>=?-eq-ok,
}
use artos_nautilus_server.Rust.Num.{from_str_radix, show_nat, to_digit}
use artos_nautilus_server.Rust.Num.RoundTrip.{from_str_radix-show_nat}
use artos_nautilus_server.External.{Libraries, AreLawful, IsOnceCell}
use artos_nautilus_server.Orders.Crypto.{public_key_base64}
use artos_nautilus_server.Orders.Crypto.Once.{ensure_initialized_fresh, ensure_initialized_empty}
use artos_nautilus_server.Server.Health.{Yaml, Network}
use artos_nautilus_server.Server.Handlers.{Call, Router, IsRouter, respond_all}
use artos_nautilus_server.Server.Handlers.Served.{RunIsSound, respond_all_sound}
use artos_nautilus_server.Server.Startup.{Environment, Server, parse_port, listen, start}

port_read : (n : ℕ) → n < 2 ^ 16 → parse_port (some (show_nat n)) ≡ done n
unfolding parse_port
port_read n h = rw (from_str_radix-show_nat 65535 n (omega arith) (omega arith))

port_default : parse_port none ≡ done 3100
unfolding parse_port from_str_radix to_digit
port_default = refl

module _ (l : Libraries) where
  -- What must have gone well before `axum::serve`, and the server that is served then.
  pub record Started (env : Environment l) (s : Server l) : Type 0 where
    pub seed : Bytes
    pub port : ℕ
    pub seed_given : env.seed ≡ some seed
    port_parsed : parse_port env.port ≡ done port
    pub bound : env.bind s.addr ≡ ok tt
    pub addr : s.addr ≡ codes "0.0.0.0:" ++ show_nat port
    pub key : s.state.key ≡ some (l.ed25519.from_bytes seed)
    pub eph_kp : s.state.app.eph_kp ≡ env.eph_kp

  pub start_seeded :
      (O : IsOnceCell l.once_cell) (env : Environment l) (seed : Bytes)
      → env.seed ≡ some seed
      → start l env ≡ listen l env (some (l.ed25519.from_bytes seed))
  unfolding start
  start_seeded O env seed h = rw (h, start, ensure_initialized_fresh l.ed25519 l.once_cell O seed)

  pub start_unseeded :
      (O : IsOnceCell l.once_cell) (env : Environment l) → env.seed ≡ none → start l env ≡ panicked
  unfolding start
  start_unseeded O env h = rw (h, start, ensure_initialized_empty l.ed25519 l.once_cell O)

  abbrev pub address : ℕ → Bytes
  address port = codes "0.0.0.0:" ++ show_nat port

  abbrev pub server : Environment l → l.ed25519.SigningKey → ℕ → Server l
  server env sk port = record {
    state = record { app = record { eph_kp = env.eph_kp; api_key = [] }; key = some sk };
    addr = address port;
  }

  pub listen_lem :
      (env : Environment l) (sk : l.ed25519.SigningKey)
      → listen l env (some sk) ≡ (
          parse_port env.port >>= λ port. done (env.bind (address port)) >>=? λ _.
          expect env.local_addr >>= λ _. done (ok (server env sk port)))
  unfolding listen public_key_base64
  listen_lem env sk = refl

  listen_done :
      (env : Environment l) (sk : l.ed25519.SigningKey) (s : Server l)
      → listen l env (some sk) ≡ done (ok s)
      → (port : ℕ) × (parse_port env.port ≡ done port)
        × (env.bind (address port) ≡ ok tt)
        × (server env sk port ≡ s)
  listen_done env sk s h =
      let (port, e, h₁) =
        >>=-eq-done (parse_port env.port)
          (λ port. done (env.bind (address port)) >>=? λ _.
            expect env.local_addr >>= λ _. done (ok (server env sk port)))
          (sym (listen_lem env sk) ∙ h) in
      let (u, b, h₂) =
        >>=?-eq-ok (done (env.bind (address port)))
          (λ _. expect env.local_addr >>= λ _. done (ok (server env sk port))) h₁ in
      let (a, _, h₃) =
        >>=-eq-done (expect env.local_addr) (λ _. done (ok (server env sk port))) h₂ in
      (port, e, cc b, cc h₃)

  -- With a lawful cell, a server that is served has the signing key made from the random seed and
  -- the generated ephemeral key, and its address was bound and is that of the parsed port.
  pub start-Started :
      (O : IsOnceCell l.once_cell) (env : Environment l) (s : Server l)
      → start l env ≡ done (ok s)
      → Started env s
  start-Started O env s h = elim (Option-cases env.seed) [
    | inl e ↦ cc (start_unseeded O env e)
    | inr (seed, e) ↦
        let (port, parsed, bound, same) =
          listen_done env (l.ed25519.from_bytes seed) s (sym (start_seeded O env seed e) ∙ h) in
        record {
          seed = seed;
          port = port;
          seed_given = e;
          port_parsed = parsed;
          bound = rw (← same) bound;
          addr = cc same;
          key = cc same;
          eph_kp = cc same;
        }
  ]

  -- With a lawful cell, randomness, a `PORT` that is a decimal number below 65536 or is not set, a
  -- listener that can be bound on that port (3100 where it is not set) and tells its address,
  -- `main` comes to serve there.
  pub start_returns :
      (O : IsOnceCell l.once_cell) (env : Environment l) (seed : Bytes) (port : ℕ) (local : Bytes)
      → env.seed ≡ some seed
      → ((env.port ≡ some (show_nat port)) × (port < 2 ^ 16)) ⊎ ((env.port ≡ none) × (port ≡ 3100))
      → env.bind (codes "0.0.0.0:" ++ show_nat port) ≡ ok tt
      → env.local_addr ≡ ok local
      → (s : Server l) × (start l env ≡ done (ok s)) × Started env s
  start_returns O env seed port local e p b a =
      let parsed : parse_port env.port ≡ done port = port_parsed env port p in
      let sk = l.ed25519.from_bytes seed in
      let returned : start l env ≡ done (ok (server env sk port)) =
        start_seeded O env seed e ∙ (listen_lem env sk ∙ rw (parsed, b, a)) in
      (server env sk port, returned, start-Started O env _ returned)
    where
      port_parsed :
          (env : Environment l) (port : ℕ)
          → ((env.port ≡ some (show_nat port)) × (port < 2 ^ 16))
            ⊎ ((env.port ≡ none) × (port ≡ 3100))
          → parse_port env.port ≡ done port
      port_parsed env port (inl (h, lt)) = rw h (port_read port lt)
      port_parsed env port (inr (h, same)) = rw (h, same) port_default

  -- If `main` comes to serve, with lawful libraries and a router that follows the documentation of
  -- axum, then in every run each `GET /orders/health` is answered by the JSON that prints the key
  -- made from the random seed; each `POST /orders/process` by the refusal of a body that does not
  -- decode, by a signed order for the response that `make_response` built from the call, or by a
  -- panic, this only for an order with V2 fields that are not ASCII or with an `order_id` or
  -- `currency` longer than BCS accepts; and every signed order in a reply verifies under that key,
  -- in V1 and, where it is there, in V2.
  pub start_sound :
      (L : AreLawful l) (y : Yaml) (net : Network) (router : Router) (R : IsRouter router)
      (env : Environment l) (s : Server l) (calls : List (Call net)) (w : net.World)
      → start l env ≡ done (ok s)
      → (seed : Bytes) × (env.seed ≡ some seed)
        × RunIsSound l
            (l.ed25519.from_bytes seed)
            calls
            (respond_all l y net router s.state calls w)
  start_sound L y net router R env s calls w h =
      let st = start-Started L.once_cell env s h in
      (
        st.seed,
        st.seed_given,
        respond_all_sound l L (l.ed25519.from_bytes st.seed) y net router s.state st.key R calls w,
      )
