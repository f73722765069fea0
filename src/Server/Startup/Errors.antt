-- ===== src/Server/Startup/Errors.antt =====
-- main.rs: the errors of `main`.
use artos_nautilus_server.Prelude.{
  ℕ, ◌≡◌, refl, ◌∙◌, some, Bytes, codes, ◌++◌, Option-cases, inl, inr, ◌⊎◌, arith,
}
use artos_nautilus_server.Rust.Outcome.{
  Outcome, done, panicked, Result, ok, err, ◌>>=◌, ◌>>=?◌, expect, map_err,
}
use artos_nautilus_server.Rust.Num.{show_nat}
use artos_nautilus_server.External.{Libraries, IsOnceCell}
use artos_nautilus_server.Server.Startup.{Environment, parse_port, main}
use artos_nautilus_server.Server.Startup.Ready.{
  address, server, start_seeded, start_unseeded, listen_lem,
}

-- Behind the port: binding, the local address and serving.
served_errors {ℓ} :
    {S : Type ℓ} (s : S) (bound : Result Bytes (Unit {0})) (local : Result Bytes Bytes)
    (serve : Result Bytes (Unit {0})) (e : Bytes)
    → ((done bound >>=? λ _. expect local >>= λ _. done (ok s)) >>=? λ _.
        map_err (λ e. codes "Server error: " ++ e) (done serve))
      ≡ done (err e)
    → (bound ≡ err e)
      ⊎ ((bound ≡ ok tt) × ((x : Bytes) × (serve ≡ err x) × (e ≡ codes "Server error: " ++ x)))
served_errors s (err e) local serve e' h = inl (ground arith)
served_errors s (ok u) (err x) serve e h = cc
served_errors s (ok u) (ok a) (ok v) e h = cc
served_errors s (ok u) (ok a) (err x) e h = inr (refl, (x, refl, ground arith))

port_errors {ℓ} :
    {S : Type ℓ} (s : ℕ → S) (port : Outcome ℕ) (bind : ℕ → Result Bytes (Unit {0}))
    (local : Result Bytes Bytes) (serve : Result Bytes (Unit {0})) (e : Bytes)
    → ((port >>= λ n. done (bind n) >>=? λ _. expect local >>= λ _. done (ok (s n))) >>=? λ _.
        map_err (λ e. codes "Server error: " ++ e) (done serve))
      ≡ done (err e)
    → (n : ℕ) × (port ≡ done n)
      × ((bind n ≡ err e)
          ⊎ ((bind n ≡ ok tt)
              × ((x : Bytes) × (serve ≡ err x) × (e ≡ codes "Server error: " ++ x))))
port_errors s panicked bind local serve e h = cc
port_errors s (done n) bind local serve e h =
    (n, refl, served_errors (s n) (bind n) local serve e h)

-- With a lawful cell, `main` returns an error only after the key was made and the port parsed, and
-- it is that of the listener that could not be bound, or `Server error: ` and that of the server.
pub main_errors :
    (l : Libraries) (O : IsOnceCell l.once_cell) (env : Environment l) (e : Bytes)
    → main l env ≡ done (err e)
    → (seed : Bytes) × (port : ℕ) × (env.seed ≡ some seed)
      × (parse_port env.port ≡ done port)
      × ((env.bind (codes "0.0.0.0:" ++ show_nat port) ≡ err e)
          ⊎ ((env.bind (codes "0.0.0.0:" ++ show_nat port) ≡ ok tt)
              × ((x : Bytes) × (env.serve ≡ err x) × (e ≡ codes "Server error: " ++ x))))
unfolding main
main_errors l O env e h = elim (Option-cases env.seed) [
  | inl none_given ↦ let stopped = rw (start_unseeded l O env none_given) at h in cc stopped
  | inr (seed, given) ↦
      let listening =
        start_seeded l O env seed given ∙ listen_lem l env (l.ed25519.from_bytes seed) in
      let (port, parsed, rest) =
        port_errors (server l env (l.ed25519.from_bytes seed)) (parse_port env.port)
          (λ port. env.bind (address l port)) env.local_addr env.serve e (rw (← listening) h) in
      (seed, port, given, parsed, rest)
]
