-- ===== src/Enclave/Init/Boot.antt =====
-- src/init/init.rs: the calls of the first process, and their order.
use artos_nautilus_server.Enclave.Init.Trace.{
  project, Adds, Adds-ask, Adds-tell, Adds-skip, Adds-bind, Adds-seq,
}
use artos_nautilus_server.Prelude.{
  ℕ, ℤ, ◌≡◌, refl, Bool, true, false, List, [], ◌∷◌, ◌++◌, Bytes, codes, map, String,
}
use artos_nautilus_server.Rust.Outcome.{Result, ok, err}
use artos_nautilus_server.Enclave.System.{
  Mount, System, M, ◌>>=◌, ◌>>◌, Call, tell, exists, create_dir_all, mount, freopen, socket_connect,
  insmod, seed_entropy, dmesg, reboot, write, read, close, eprintln, println, set_var, spawn, wait,
}
use artos_nautilus_server.Enclave.Aws.{
  af_vsock, send_heartbeat, nitro_heartbeat, loaded, init_platform,
}
use artos_nautilus_server.Enclave.Init.{
  mounts, is_true, report, create_target, mount_rest, mount_one, mount_all, init_rootfs, reopened,
  reopen, init_console, seeded, boot, waited, spawned, main,
}

-- The calls that make up the boot, without tests, logs and the creation of directories.
pub data Stage : Type 0 where
  mounting : Mount → Stage
  console : Bytes → Bytes → ℕ → Stage
  kernel_module : Bytes → Stage
  entropy : ℕ → Stage
  variable : Bytes → Bytes → Stage
  script : Bytes → Bytes → Stage
  restart : Stage

abbrev pub stage : Call → List Stage
stage (mount m) = mounting m ∷ []
stage (freopen filename mode file) = console filename mode file ∷ []
stage (insmod path) = kernel_module path ∷ []
stage (seed_entropy size) = entropy size ∷ []
stage (spawn command arg) = script command arg ∷ []
stage reboot = restart ∷ []
stage (exists path) = []
stage (create_dir_all path) = []
stage (socket_connect family port cid) = []
stage (dmesg text) = []
stage (write fd bytes) = []
stage (read fd count) = []
stage (close fd) = []
stage (eprintln text) = []
stage (println text) = []
stage (set_var name value) = variable name value ∷ []
stage wait = []

-- A file system that is mounted without set-user-id programs and without programs.
abbrev restricted : String → String → String → (nodev : Bool) → String → Stage
restricted src target fstype nodev options = mounting (record {
  src = codes src;
  target = codes target;
  fstype = codes fstype;
  flags = record { nodev = nodev; nosuid = true; noexec = true };
  options = codes options;
})

abbrev console_stages : List Stage
console_stages =
    console (codes "/dev/console") (codes "r") 0
    ∷ console (codes "/dev/console") (codes "w") 1
    ∷ console (codes "/dev/console") (codes "w") 2
    ∷ []

-- What a boot consists of, written out: `/dev` comes before the mounts inside it, and `/sys` too.
abbrev pub boot_stages : List Stage
boot_stages =
    restricted "devtmpfs" "/dev" "devtmpfs" false "mode=0755"
    ∷ restricted "devpts" "/dev/pts" "devpts" false ""
    ∷ restricted "shm" "/dev/shm" "tmpfs" true "mode=0755"
    ∷ restricted "proc" "/proc" "proc" true "hidepid=2"
    ∷ restricted "tmpfs" "/run" "tmpfs" true "mode=0755"
    ∷ restricted "tmpfs" "/tmp" "tmpfs" true ""
    ∷ restricted "sysfs" "/sys" "sysfs" true ""
    ∷ restricted "cgroup_root" "/sys/fs/cgroup" "tmpfs" true "mode=0755"
    ∷ console (codes "/dev/console") (codes "r") 0
    ∷ console (codes "/dev/console") (codes "w") 1
    ∷ console (codes "/dev/console") (codes "w") 2
    ∷ kernel_module (codes "/nsm.ko")
    ∷ entropy 4096
    ∷ []

-- What follows the boot.
abbrev pub run_stages : List Stage
run_stages =
    variable (codes "SSL_CERT_FILE") (codes "/ca-certificates.crt")
    ∷ variable (codes "PATH") (codes "/bin:/sbin:/usr/bin:/usr/sbin:/")
    ∷ script (codes "/sh") (codes "/run.sh")
    ∷ restart
    ∷ []

module _ (sys : System) where
  abbrev Stages : {A : Type 0} → M sys A → List Stage → Type 0
  Stages m xs = Adds stage sys m xs

  report-Stages : (text : Bytes) (r : Result Bytes (Unit {0})) → Stages (report sys text r) []
  unfolding report
  report-Stages text (ok u) = Adds-tell stage sys (dmesg text)
  report-Stages text (err e) = Adds-tell stage sys (eprintln e)

  create_target-Stages : (target : Bytes) (b : Bool) → Stages (create_target sys target b) []
  unfolding create_target
  create_target-Stages target false = Adds-skip stage sys
  create_target-Stages target true =
      Adds-bind stage sys [] [] (Adds-ask stage sys (create_dir_all target) _) (report-Stages _)

  mount_rest-Stages : (m : Mount) (there : Bool) → Stages (mount_rest sys m there) (mounting m ∷ [])
  unfolding mount_rest
  mount_rest-Stages m there =
      Adds-seq stage sys [] _ (create_target-Stages m.target there) (
        Adds-bind stage sys (mounting m ∷ []) [] (Adds-ask stage sys (mount m) _) (report-Stages _))

  mount_one-Stages : (m : Mount) → Stages (mount_one sys m) (mounting m ∷ [])
  unfolding mount_one
  mount_one-Stages m =
      Adds-bind stage sys [] _ (Adds-ask stage sys (exists m.target) _)
        λ there. mount_rest-Stages m (is_true there)

  mount_all-Stages : (ms : List Mount) → Stages (mount_all sys ms) (map mounting ms)
  unfolding mount_all
  mount_all-Stages [] = Adds-skip stage sys
  mount_all-Stages (m ∷ ms) =
      Adds-seq stage sys (mounting m ∷ []) _ (mount_one-Stages m) (mount_all-Stages ms)

  reopen-Stages :
      (filename mode : Bytes) (file : ℕ)
      → Stages (reopen sys filename mode file) (console filename mode file ∷ [])
  unfolding reopen reopened
  reopen-Stages filename mode file =
      Adds-bind stage sys (console filename mode file ∷ []) []
        (Adds-ask stage sys (freopen filename mode file) _) go
    where
      go : (r : Result Bytes (Unit {0})) → Stages (reopened sys r) []
      go (ok u) = Adds-skip stage sys
      go (err e) = Adds-tell stage sys (eprintln e)

  init_console-Stages : Stages (init_console sys) console_stages
  unfolding init_console
  init_console-Stages =
      Adds-seq stage sys (console (codes "/dev/console") (codes "r") 0 ∷ []) _ (reopen-Stages _ _ 0)
        (Adds-seq stage sys (console (codes "/dev/console") (codes "w") 1 ∷ []) _
          (reopen-Stages _ _ 1) (reopen-Stages _ _ 2))

  nitro_heartbeat-Stages : Stages (nitro_heartbeat sys) []
  unfolding nitro_heartbeat send_heartbeat
  nitro_heartbeat-Stages =
      Adds-bind stage sys [] [] (Adds-ask stage sys (socket_connect af_vsock 9000 3) _) go
    where
      go : (r : Result Bytes ℤ) → Stages (send_heartbeat sys r) []
      go (err e) = Adds-tell stage sys (eprintln e)
      go (ok fd) = Adds-seq stage sys [] [] (Adds-tell stage sys _) (
          Adds-seq stage sys [] [] (Adds-tell stage sys _)
            (Adds-seq stage sys [] [] (Adds-tell stage sys _) (Adds-tell stage sys _)))

  init_platform-Stages : Stages (init_platform sys) (kernel_module (codes "/nsm.ko") ∷ [])
  unfolding init_platform loaded
  init_platform-Stages = Adds-seq stage sys [] _ nitro_heartbeat-Stages (
      Adds-bind stage sys (kernel_module (codes "/nsm.ko") ∷ []) []
        (Adds-ask stage sys (insmod (codes "/nsm.ko")) _) go)
    where
      go : (r : Result Bytes (Unit {0})) → Stages (loaded sys r) []
      go (ok u) = Adds-tell stage sys _
      go (err e) = Adds-tell stage sys _

  boot-Stages : Stages (boot sys) boot_stages
  unfolding boot init_rootfs seeded mounts
  boot-Stages = Adds-seq stage sys (map mounting mounts) _ (mount_all-Stages mounts) (
      Adds-seq stage sys console_stages _ init_console-Stages (
        Adds-seq stage sys (kernel_module (codes "/nsm.ko") ∷ []) _ init_platform-Stages (
          Adds-bind stage sys (entropy 4096 ∷ []) [] (Adds-ask stage sys (seed_entropy 4096) _)
            go)))
    where
      go : (r : Result Bytes ℕ) → Stages (seeded sys r) []
      go (ok size) = Adds-tell stage sys _
      go (err e) = Adds-tell stage sys _

  spawned-Stages : (r : Result Bytes (Unit {0})) → Stages (spawned sys r) []
  unfolding spawned waited
  spawned-Stages (err e) = Adds-tell stage sys _
  spawned-Stages (ok u) =
      Adds-seq stage sys [] [] (Adds-tell stage sys _)
        (Adds-bind stage sys [] [] (Adds-ask stage sys wait _) go)
    where
      go : (r : Result Bytes Bytes) → Stages (waited sys r) []
      go (ok status) = Adds-tell stage sys _
      go (err e) = Adds-tell stage sys _

  main-Stages : Stages (main sys) (boot_stages ++ run_stages)
  unfolding main
  main-Stages = Adds-seq stage sys boot_stages _ boot-Stages (
      Adds-seq stage sys [] _ (Adds-tell stage sys _) (
        Adds-seq stage sys (variable _ _ ∷ []) _ (Adds-tell stage sys _) (
          Adds-seq stage sys (variable _ _ ∷ []) _ (Adds-tell stage sys _) (
            Adds-seq stage sys [] _ (Adds-tell stage sys _) (
              Adds-bind stage sys (script (codes "/sh") (codes "/run.sh") ∷ []) _
                (Adds-ask stage sys (spawn (codes "/sh") (codes "/run.sh")) _)
                λ child.
                  Adds-seq stage sys [] _ (spawned-Stages child) (Adds-tell stage sys reboot))))))

  -- Whatever the system answers, a run of `init` does the listed steps in this order, each once:
  -- the eight mounts with their sources, targets, types, flags and data, the three streams
  -- reopened on `/dev/console`, the module, 4096 bytes of entropy, the two variables, `run.sh` and
  -- the reboot, which is its last call.
  pub main_stages :
      (w : sys.World)
      → let final = (main sys (record { world = w; calls = [] })).1.calls in
        (project stage final ≡ boot_stages ++ run_stages)
        × ((front : List Call) × (final ≡ front ++ (reboot ∷ [])))
  unfolding project main ◌>>=◌ ◌>>◌ tell
  main_stages w = ((main-Stages).adds _, (_, refl))
