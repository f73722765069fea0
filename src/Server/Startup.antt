-- ===== src/Server/Startup.antt =====
-- main.rs: `main`, in the build with the `orders` feature.
pub mod Ready
pub mod Keys
pub mod Errors
use artos_nautilus_server.Prelude.{ℕ, Option, none, some, List, [], Bytes, codes, ◌++◌}
use artos_nautilus_server.Rust.Outcome.{
  Outcome, done, panicked, Result, ok, err, Fallible, ◌>>=◌, ◌>>=?◌, expect, map_err,
}
use artos_nautilus_server.Rust.Text.{unwrap_or}
use artos_nautilus_server.Rust.Num.{from_str_radix, show_nat}
use artos_nautilus_server.External.{Libraries}
use artos_nautilus_server.Orders.Crypto.{Cell, ensure_initialized, public_key_base64}
use artos_nautilus_server.Server.Attestation.{AppState}
use artos_nautilus_server.Server.Handlers.{ServerState}

-- What the process finds: the ephemeral key pair that is generated, what `getrandom` gives, the
-- variable `PORT` if it is set, and how the listener behaves.
pub record Environment (l : Libraries) : Type 0 where
  pub eph_kp : l.fastcrypto.SigningKey
  pub seed : Option Bytes
  pub port : Option Bytes
  pub bind : Bytes → Result Bytes (Unit {0})
  pub local_addr : Result Bytes Bytes
  pub serve : Result Bytes (Unit {0})

-- The server that `axum::serve` is called for.
pub record Server (l : Libraries) : Type 0 where
  pub state : ServerState l
  pub addr : Bytes

-- `.unwrap_or_else(..).parse::<u16>().expect(..)`
unfoldable pub parse_port : Option Bytes → Outcome ℕ
parse_port port = expect (from_str_radix 65535 10 (unwrap_or port (codes "3100")))

module _ (l : Libraries) where
  -- `main` up to `axum::serve`, given the first call of `ensure_initialized`.
  unfoldable pub listen : Environment l → Cell l.ed25519 → Fallible Bytes (Server l)
  listen env key = public_key_base64 l.ed25519 l.base64 key >>= λ public_key.
      parse_port env.port >>= λ port.
      let addr = codes "0.0.0.0:" ++ show_nat port in
      done (env.bind addr) >>=? λ _. expect env.local_addr >>= λ _. done (
        ok (record {
          state = record { app = record { eph_kp = env.eph_kp; api_key = [] }; key = key };
          addr = addr;
        }))

  unfoldable pub start : Environment l → Fallible Bytes (Server l)
  start env =
      let (key, initialized) = ensure_initialized l.ed25519 l.once_cell env.seed none in
      expect initialized >>= λ _. listen env key

  unfoldable pub main : Environment l → Fallible Bytes (Unit {0})
  main env = start env >>=? λ _. map_err (λ e. codes "Server error: " ++ e) (done env.serve)
