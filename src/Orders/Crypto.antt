-- ===== src/Orders/Crypto.antt =====
-- orders/crypto.rs. The static `SIGNING_KEY` is an explicit cell, empty at first; it is given by
-- what its `get` returns.
pub mod Once
use artos_nautilus_server.Prelude.{Option, none, some, Bytes, codes}
use artos_nautilus_server.Rust.Outcome.{Outcome, done, panicked, Result, ok, err}
use artos_nautilus_server.External.{Ed25519, OnceCell, Encoding}

module _ (e : Ed25519) where
  -- `OnceCell<SigningKey>`
  abbrev pub Cell : Type 0
  Cell = Option e.SigningKey

  -- The closure of `get_or_try_init`. `seed` is what `getrandom` fills in, or `none` if it fails.
  unfoldable pub generate_key : Option Bytes → Result Bytes e.SigningKey
  generate_key none = err (codes "rng_unavailable")
  generate_key (some seed) = ok (e.from_bytes seed)

  -- The `?` behind `get_or_try_init`, and `Ok(())`.
  abbrev discard : Cell × Result Bytes e.SigningKey → Cell × Result Bytes (Unit {0})
  discard (cell, ok sk) = (cell, ok tt)
  discard (cell, err x) = (cell, err x)

  unfoldable pub ensure_initialized :
      OnceCell e.SigningKey → Option Bytes → Cell → Cell × Result Bytes (Unit {0})
  unfolding generate_key
  ensure_initialized o seed cell = discard (o.get_or_try_init (generate_key seed) cell)

  unfoldable pub public_key_base64 : Encoding → Cell → Outcome Bytes
  public_key_base64 base64 none = panicked
  public_key_base64 base64 (some sk) = done (base64.encode (e.verifying_key sk))

  unfoldable pub sign : Cell → Bytes → Outcome Bytes
  sign none message = panicked
  sign (some sk) message = done (e.sign sk message)
