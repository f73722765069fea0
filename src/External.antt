-- ===== src/External.antt =====
-- Third-party code that the program calls, as interfaces: operations, and the documented behaviour
-- that the program relies on.
use artos_nautilus_server.Prelude.{◌≡◌, Bool, true, Option, none, some, Bytes}
use artos_nautilus_server.Rust.Outcome.{Result, ok, err}
use artos_nautilus_server.Serde.Value.{Bcs, IsBcs}

-- ed25519, as `ed25519_dalek` (order signatures) and `fastcrypto` (the ephemeral key) give it.
pub record Ed25519 : Type 1 where
  pub SigningKey : Type 0
  -- `SigningKey::from_bytes`
  pub from_bytes : Bytes → SigningKey
  -- The bytes of the public key.
  pub verifying_key : SigningKey → Bytes
  -- The bytes of the signature.
  pub sign : SigningKey → Bytes → Bytes
  -- public key, message, signature
  pub verify : Bytes → Bytes → Bytes → Bool

pub record IsEd25519 (e : Ed25519) : Type 0 where
  pub verify-sign :
      (k : e.SigningKey) (msg : Bytes) → e.verify (e.verifying_key k) msg (e.sign k msg) ≡ true

-- A text encoding of bytes: base64's `STANDARD` engine, or fastcrypto's `Hex`.
pub record Encoding : Type 0 where
  pub encode : Bytes → Bytes
  pub decode : Bytes → Option Bytes

pub record IsEncoding (c : Encoding) : Type 0 where
  pub decode-encode : (bs : Bytes) → c.decode (c.encode bs) ≡ some bs

-- `once_cell::sync::OnceCell`. A cell is given by what its `get` returns, and the function that is
-- called on an empty cell by its result.
pub record OnceCell (T : Type 0) : Type 0 where
  pub get_or_try_init : Result Bytes T → Option T → Option T × Result Bytes T

-- The first value stays, and an error leaves the cell empty.
pub record IsOnceCell {T : Type 0} (o : OnceCell T) : Type 0 where
  pub get_or_try_init-set :
      (r : Result Bytes T) (t : T) → o.get_or_try_init r (some t) ≡ (some t, ok t)
  pub get_or_try_init-ok : (t : T) → o.get_or_try_init (ok t) none ≡ (some t, ok t)
  pub get_or_try_init-err : (x : Bytes) → o.get_or_try_init (err x) none ≡ (none, err x)

-- What the server is linked against. `ed25519`, `once_cell` and `base64` serve the orders, `fastcrypto` and `hex`
-- the ephemeral key.
pub record Libraries : Type 1 where
  pub bcs : Bcs
  pub ed25519 : Ed25519
  pub once_cell : OnceCell ed25519.SigningKey
  pub base64 : Encoding
  pub fastcrypto : Ed25519
  pub hex : Encoding

pub record AreLawful (l : Libraries) : Type 0 where
  pub bcs : IsBcs l.bcs
  pub ed25519 : IsEd25519 l.ed25519
  pub once_cell : IsOnceCell l.once_cell
  pub base64 : IsEncoding l.base64
  pub fastcrypto : IsEd25519 l.fastcrypto
  pub hex : IsEncoding l.hex
