-- ===== src/Orders/Crypto/Once.antt =====
-- orders/crypto.rs: the life of the signing key.
use artos_nautilus_server.Prelude.{◌≡◌, ◌≢◌, refl, ap, Option, none, some, Bytes, codes, ◌↔◌, true}
use artos_nautilus_server.Rust.Outcome.{done, ok, err}
use artos_nautilus_server.External.{Ed25519, IsEd25519, OnceCell, IsOnceCell, Encoding, IsEncoding}
use artos_nautilus_server.Orders.Crypto.{
  Cell, generate_key, ensure_initialized, public_key_base64, sign,
}

module _ (e : Ed25519) (o : OnceCell e.SigningKey) (O : IsOnceCell o) where
  ensure_initialized-set :
      (seed : Option Bytes) (sk : e.SigningKey)
      → ensure_initialized e o seed (some sk) ≡ (some sk, ok tt)
  unfolding ensure_initialized
  ensure_initialized-set seed sk = rw (O.get_or_try_init-set (generate_key e seed) sk)

  pub ensure_initialized_fresh :
      (s : Bytes) → ensure_initialized e o (some s) none ≡ (some (e.from_bytes s), ok tt)
  unfolding ensure_initialized generate_key
  ensure_initialized_fresh s = rw (O.get_or_try_init-ok (e.from_bytes s))

  pub ensure_initialized_empty :
      ensure_initialized e o none none ≡ (none, err (codes "rng_unavailable"))
  unfolding ensure_initialized generate_key
  ensure_initialized_empty = rw (O.get_or_try_init-err (codes "rng_unavailable"))

  -- What a call leaves in the cell if it succeeds.
  ensure_initialized_done :
      (seed : Option Bytes) (cell : Cell e)
      → (ensure_initialized e o seed cell).1 ≡ ok tt
      → (sk : e.SigningKey) × ((ensure_initialized e o seed cell).0 ≡ some sk)
  ensure_initialized_done seed (some sk) h = (sk, rw (ensure_initialized-set seed sk) refl)
  ensure_initialized_done (some s) none h = (e.from_bytes s, rw (ensure_initialized_fresh s) refl)
  ensure_initialized_done none none h = cc (ap (λ r. r.1) ensure_initialized_empty)

  -- With a lawful cell, `ensure_initialized` fails exactly on an empty cell without randomness.
  ensure_initialized_fails :
      (seed : Option Bytes) (cell : Cell e)
      → ((ensure_initialized e o seed cell).1 ≢ ok tt) ↔ ((cell ≡ none) × (seed ≡ none))
  ensure_initialized_fails seed (some sk) =
      rw (ensure_initialized-set seed sk) (λ h. absurd (h refl), λ h. cc)
  ensure_initialized_fails (some s) none =
      rw (ensure_initialized_fresh s) (λ h. absurd (h refl), λ h. cc)
  ensure_initialized_fails none none = rw ensure_initialized_empty (λ h. (refl, refl), λ h e. cc)

  -- After a call of `ensure_initialized` that succeeded, `sign` and `public_key_base64` return,
  -- and the signature verifies under the printed key, if the cell, the scheme and the encoding are
  -- lawful.
  pub sign-verify :
      IsEd25519 e
      → (base64 : Encoding) → IsEncoding base64
      → (seed : Option Bytes) (cell : Cell e) (msg : Bytes)
      → (ensure_initialized e o seed cell).1 ≡ ok tt
      → let key = (ensure_initialized e o seed cell).0 in
        (sig : Bytes) × (printed : Bytes) × (pk : Bytes) × (sign e key msg ≡ done sig)
        × (public_key_base64 e base64 key ≡ done printed)
        × (base64.decode printed ≡ some pk)
        × (e.verify pk msg sig ≡ true)
  unfolding sign public_key_base64
  sign-verify E base64 B seed cell msg h =
      let (sk, set) = ensure_initialized_done seed cell h in
      rw set
        (e.sign sk msg, _, e.verifying_key sk, refl, refl, B.decode-encode _, E.verify-sign sk msg)
