-- ===== src/Enclave/System.antt =====
-- What the enclave asks of the system: the crate `system`, libc, the NSM device and `std`, as functions on
-- the state of a world that nothing is known of, and the record of the calls that were made.
use artos_nautilus_server.Prelude.{ℕ, ℤ, Bool, List, [], ◌∷◌, ◌++◌, Bytes}
use artos_nautilus_server.Rust.Outcome.{Result}

-- The flags of a mount: `MS_NODEV`, `MS_NOSUID`, `MS_NOEXEC`.
pub record Flags : Type 0 where
  pub nodev : Bool
  pub nosuid : Bool
  pub noexec : Bool

pub record Mount : Type 0 where
  pub src : Bytes
  pub target : Bytes
  pub fstype : Bytes
  pub flags : Flags
  pub options : Bytes

pub data Call : Type 0 where
  -- `std::fs`
  exists : Bytes → Call
  create_dir_all : Bytes → Call
  -- crate `system`
  mount : Mount → Call
  freopen : Bytes → Bytes → ℕ → Call
  -- address family, port, context id
  socket_connect : ℕ → ℕ → ℕ → Call
  insmod : Bytes → Call
  seed_entropy : ℕ → Call
  dmesg : Bytes → Call
  reboot : Call
  -- libc, on the descriptor of the socket
  write : ℤ → Bytes → Call
  read : ℤ → ℕ → Call
  close : ℤ → Call
  -- `std`
  eprintln : Bytes → Call
  println : Bytes → Call
  set_var : Bytes → Bytes → Call
  spawn : Bytes → Bytes → Call
  wait : Call

-- The answers, and how each call changes the world.
pub record System : Type 1 where
  pub World : Type 0
  pub on_exists : Bytes → World → Result Bytes Bool × World
  pub on_create_dir_all : Bytes → World → Result Bytes (Unit {0}) × World
  pub on_mount : Mount → World → Result Bytes (Unit {0}) × World
  pub on_freopen : Bytes → Bytes → ℕ → World → Result Bytes (Unit {0}) × World
  pub on_socket_connect : ℕ → ℕ → ℕ → World → Result Bytes ℤ × World
  pub on_insmod : Bytes → World → Result Bytes (Unit {0}) × World
  -- `seed_entropy size get_entropy`: how many bytes were seeded.
  pub on_seed_entropy : ℕ → World → Result Bytes ℕ × World
  pub on_spawn : Bytes → Bytes → World → Result Bytes (Unit {0}) × World
  -- The exit status as text.
  pub on_wait : World → Result Bytes Bytes × World

module _ (sys : System) where
  -- The world and the calls so far.
  pub record State : Type 0 where
    pub world : sys.World
    pub calls : List Call

  abbrev pub M : Type 0 → Type 0
  M A = State → A × State

  infixl 5 ◌>>=◌ ◌>>◌
  unfoldable pub ◌>>=◌ : {A B : Type 0} → M A → (A → M B) → M B
  ◌>>=◌ m f s = let (a, t) = m s in f a t

  unfoldable pub ◌>>◌ : {A B : Type 0} → M A → M B → M B
  ◌>>◌ m k s = k (m s).1

  -- A call that gives an answer, and one that does not.
  unfoldable pub ask : {A : Type 0} → Call → (sys.World → A × sys.World) → M A
  ask c on s = let (a, w) = on s.world in (a, record { world = w; calls = s.calls ++ (c ∷ []) })

  unfoldable pub tell : Call → M (Unit {0})
  tell c s = (tt, record s { calls = s.calls ++ (c ∷ []) })
