-- ===== src/Enclave/Init.antt =====
-- src/init/init.rs
pub mod Trace
pub mod Boot
pub mod Rootfs
use artos_nautilus_server.Prelude.{
  ℕ, Bool, true, false, Option, List, [], ◌∷◌, ◌++◌, Bytes, codes, String,
}
use artos_nautilus_server.Rust.Outcome.{Result, ok, err}
use artos_nautilus_server.Rust.Num.{show_nat}
use artos_nautilus_server.Enclave.System.{
  Flags, Mount, System, State, M, ◌>>=◌ as bind, ◌>>◌ as seq, ask, tell, exists, create_dir_all,
  mount, freopen, seed_entropy, dmesg, eprintln, println, set_var, spawn, wait, reboot,
}
use artos_nautilus_server.Enclave.Aws.{init_platform}

abbrev no_dse : Flags
no_dse = record { nodev = true; nosuid = true; noexec = true }

abbrev no_se : Flags
no_se = record { nodev = false; nosuid = true; noexec = true }

abbrev entry : String → String → String → Flags → String → Mount
entry src target fstype flags options = record {
  src = codes src;
  target = codes target;
  fstype = codes fstype;
  flags = flags;
  options = codes options;
}

-- The array `args` of `init_rootfs`.
unfoldable pub mounts : List Mount
mounts =
    entry "devtmpfs" "/dev" "devtmpfs" no_se "mode=0755"
    ∷ entry "devpts" "/dev/pts" "devpts" no_se ""
    ∷ entry "shm" "/dev/shm" "tmpfs" no_dse "mode=0755"
    ∷ entry "proc" "/proc" "proc" no_dse "hidepid=2"
    ∷ entry "tmpfs" "/run" "tmpfs" no_dse "mode=0755"
    ∷ entry "tmpfs" "/tmp" "tmpfs" no_dse ""
    ∷ entry "sysfs" "/sys" "sysfs" no_dse ""
    ∷ entry "cgroup_root" "/sys/fs/cgroup" "tmpfs" no_dse "mode=0755"
    ∷ []

-- `unwrap_or(false)`
abbrev pub is_true : Result Bytes Bool → Bool
is_true (ok b) = b
is_true (err e) = false

module _ (sys : System) where
  infixl 5 ◌>>=◌ ◌>>◌
  abbrev ◌>>=◌ : {A B : Type 0} → M sys A → (A → M sys B) → M sys B
  m >>= f = bind sys m f

  abbrev ◌>>◌ : {A B : Type 0} → M sys A → M sys B → M sys B
  m >> k = seq sys m k

  unfoldable pub skip : M sys (Unit {0})
  skip s = (tt, s)

  -- A `match` that logs a success as `text` by `dmesg`, and an error on standard error.
  unfoldable pub report : Bytes → Result Bytes (Unit {0}) → M sys (Unit {0})
  report text (ok _) = tell sys (dmesg text)
  report text (err e) = tell sys (eprintln e)

  unfoldable pub create_target : Bytes → Bool → M sys (Unit {0})
  create_target target false = skip
  create_target target true = do
    created ← ask sys (create_dir_all target) (sys.on_create_dir_all target)
    report (codes "Created mount point " ++ target) created

  -- The body of the loop behind the test whether the target exists.
  unfoldable pub mount_rest : Mount → Bool → M sys (Unit {0})
  mount_rest m there = do
    create_target m.target there
    mounted ← ask sys (mount m) (sys.on_mount m)
    report (codes "Mounted " ++ m.target) mounted

  unfoldable pub mount_one : Mount → M sys (Unit {0})
  mount_one m = do
    there ← ask sys (exists m.target) (sys.on_exists m.target)
    mount_rest m (is_true there)

  unfoldable pub mount_all : List Mount → M sys (Unit {0})
  mount_all [] = skip
  mount_all (m ∷ ms) = mount_one m >> mount_all ms

  unfoldable pub init_rootfs : M sys (Unit {0})
  init_rootfs = mount_all mounts

  unfoldable pub reopened : Result Bytes (Unit {0}) → M sys (Unit {0})
  reopened (ok _) = skip
  reopened (err e) = tell sys (eprintln e)

  unfoldable pub reopen : Bytes → Bytes → ℕ → M sys (Unit {0})
  reopen filename mode file = do
    result ← ask sys (freopen filename mode file) (sys.on_freopen filename mode file)
    reopened result

  unfoldable pub init_console : M sys (Unit {0})
  init_console = do
    reopen (codes "/dev/console") (codes "r") 0
    reopen (codes "/dev/console") (codes "w") 1
    reopen (codes "/dev/console") (codes "w") 2

  unfoldable pub seeded : Result Bytes ℕ → M sys (Unit {0})
  seeded (ok size) = tell sys (dmesg (codes "Seeded kernel with entropy: " ++ show_nat size))
  seeded (err e) = tell sys (eprintln e)

  unfoldable pub boot : M sys (Unit {0})
  boot = do
    init_rootfs
    init_console
    init_platform sys
    result ← ask sys (seed_entropy 4096) (sys.on_seed_entropy 4096)
    seeded result

  unfoldable pub waited : Result Bytes Bytes → M sys (Unit {0})
  waited (ok status) = tell sys (dmesg (codes "run.sh exited with status: " ++ status))
  waited (err e) = tell sys (eprintln (codes "Error waiting for run.sh: " ++ e))

  unfoldable pub spawned : Result Bytes (Unit {0}) → M sys (Unit {0})
  spawned (err e) = tell sys (eprintln (codes "Failed to execute run.sh: " ++ e))
  spawned (ok _) = do
    tell sys (dmesg (codes "Spawned run.sh script"))
    status ← ask sys wait sys.on_wait
    waited status

  unfoldable pub main : M sys (Unit {0})
  main = do
    boot
    tell sys (dmesg (codes "EnclaveOS Booted"))
    tell sys (set_var (codes "SSL_CERT_FILE") (codes "/ca-certificates.crt"))
    tell sys (set_var (codes "PATH") (codes "/bin:/sbin:/usr/bin:/usr/sbin:/"))
    tell sys (println (codes "SSL_CERT_FILE set to ca-certificates.crt"))
    child ←
        ask sys (spawn (codes "/sh") (codes "/run.sh"))
          (sys.on_spawn (codes "/sh") (codes "/run.sh"))
    spawned child
    tell sys reboot
