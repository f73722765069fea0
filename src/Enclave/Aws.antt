-- ===== src/Enclave/Aws.antt =====
-- src/aws/src/lib.rs
pub mod Entropy
pub mod Heartbeat
use artos_nautilus_server.Prelude.{
  ℕ, zero, suc, ◌+◌, ◌-◌, Option, none, some, List, [], ◌∷◌, ◌++◌, Bytes, codes, length, ltb,
  if◌then◌else◌, replicate, take, true, false, ℤ,
}
use artos_nautilus_server.Rust.Outcome.{Result, ok, err}
use artos_nautilus_server.Enclave.System.{
  System, State, M, ◌>>=◌ as bind, ◌>>◌ as seq, ask, tell, socket_connect, insmod, dmesg, eprintln,
  write, read, close,
}

-- `AF_VSOCK` of libc.
abbrev pub af_vsock : ℕ
af_vsock = 40

abbrev pub heartbeat : ℕ
heartbeat = 0xB7

module _ (sys : System) where
  infixl 5 ◌>>=◌ ◌>>◌
  abbrev ◌>>=◌ : {A B : Type 0} → M sys A → (A → M sys B) → M sys B
  m >>= f = bind sys m f

  abbrev ◌>>◌ : {A B : Type 0} → M sys A → M sys B → M sys B
  m >> k = seq sys m k

  -- The `match` on the socket.
  unfoldable pub send_heartbeat : Result Bytes ℤ → M sys (Unit {0})
  send_heartbeat (err e) = tell sys (eprintln e)
  send_heartbeat (ok fd) = do
    tell sys (write fd (heartbeat ∷ []))
    tell sys (read fd 1)
    tell sys (close fd)
    tell sys (dmesg (codes "Sent NSM heartbeat"))

  unfoldable pub nitro_heartbeat : M sys (Unit {0})
  nitro_heartbeat = do
    socket ← ask sys (socket_connect af_vsock 9000 3) (sys.on_socket_connect af_vsock 9000 3)
    send_heartbeat socket

  unfoldable pub loaded : Result Bytes (Unit {0}) → M sys (Unit {0})
  loaded (ok _) = tell sys (dmesg (codes "Loaded nsm.ko"))
  loaded (err e) = tell sys (eprintln e)

  unfoldable pub init_platform : M sys (Unit {0})
  init_platform = do
    nitro_heartbeat
    module_result ← ask sys (insmod (codes "/nsm.ko")) (sys.on_insmod (codes "/nsm.ko"))
    loaded module_result

-- The NSM device: whether `nsm_lib_init` gives a descriptor, and one call of `nsm_get_random`: the
-- bytes that it writes to the front of the buffer, or `none` on any status but success.
pub record Nsm : Type 1 where
  pub Device : Type 0
  pub init : Option Device
  pub get_random : Device → Option Bytes × Device

abbrev buf_len : ℕ
buf_len = 256

-- `[0u8; 256]` after the call: what was written, and zeros. No more than the buffer is written.
unfoldable pub fill_buffer : Bytes → Bytes
fill_buffer written = take buf_len (written ++ replicate buf_len 0)

module _ (nsm : Nsm) where
  -- `while dest.len() < size`; `none` means that the fuel ran out.
  unfoldable pub entropy_loop : ℕ → ℕ → Bytes → nsm.Device → Option (Result Bytes Bytes)
  entropy_loop zero size dest device = if ltb (length dest) size then none else some (ok dest)
  entropy_loop (suc fuel) size dest device = elim (ltb (length dest) size) [
    | false ↦ some (ok dest)
    | true ↦ elim (nsm.get_random device).0 [
      | none ↦ some (err (codes "Failed to get entropy from NSM device"))
      | some written ↦
          entropy_loop fuel size (dest ++ fill_buffer written) (nsm.get_random device).1
    ]
  ]

  -- Each round adds 256 bytes, so `size` rounds are enough.
  unfoldable pub get_entropy : ℕ → Option (Result Bytes Bytes)
  get_entropy size = elim nsm.init [
    | none ↦ some (err (codes "Failed to connect to NSM device"))
    | some device ↦ entropy_loop size size [] device
  ]
