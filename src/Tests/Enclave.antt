-- ===== src/Tests/Enclave.antt =====
-- The theorems on the crates `aws` and `init`.
use artos_nautilus_server.Prelude.{
  ℕ, suc, ◌-◌, ◌≡◌, ◌⊎◌, refl, true, if◌then◌else◌, none, some, List, [], ◌∷◌, ◌++◌, Bytes, codes,
  replicate, arith, pos, ℤ,
}
use artos_nautilus_server.Rust.Outcome.{Result, ok, err}
use artos_nautilus_server.Enclave.System.{
  System, State, Call, reboot, write, read, close, dmesg, eprintln, socket_connect,
}
use artos_nautilus_server.Enclave.Aws.{Nsm, fill_buffer, entropy_loop, get_entropy, nitro_heartbeat}
use artos_nautilus_server.Enclave.Aws.Entropy.{
  EntropyResult, get_entropy_returns, get_entropy_short,
}
use artos_nautilus_server.Enclave.Aws.Heartbeat.{nitro_heartbeat_calls}
use artos_nautilus_server.Enclave.Init.{mounts, init_rootfs, main}
use artos_nautilus_server.Enclave.Init.Trace.{project}
use artos_nautilus_server.Enclave.Init.Boot.{stage, boot_stages, main_stages, run_stages}
use artos_nautilus_server.Enclave.Init.Rootfs.{creates, all_wanted, init_rootfs-creates}

-- A device that fills the first three bytes of the buffer.
abbrev nsm : Nsm
nsm = record { Device = ℕ; init = some 0; get_random = λ d. (some (d ∷ 8 ∷ 9 ∷ []), suc d) }

get_entropy_returns_example :
    ((nsm.init ≡ none) × (get_entropy nsm 4 ≡ some (err (codes "Failed to connect to NSM device"))))
    ⊎ ((device : ℕ) × (r : Result Bytes Bytes) × (nsm.init ≡ some device)
        × (get_entropy nsm 4 ≡ some r)
        × EntropyResult nsm 4 r)
get_entropy_returns_example = get_entropy_returns nsm 4

entropy : get_entropy nsm 4 ≡ some (ok (0 ∷ 8 ∷ 9 ∷ replicate 253 0))
unfolding get_entropy entropy_loop fill_buffer
entropy = refl

get_entropy_short_example :
    (rest : Bytes) × ((0 ∷ 8 ∷ 9 ∷ replicate 253 0)
      ≡ ((0 ∷ 8 ∷ 9 ∷ []) ++ replicate (256 - 3) 0) ++ rest)
get_entropy_short_example =
    get_entropy_short nsm 4 0 (0 ∷ 8 ∷ 9 ∷ []) (0 ∷ 8 ∷ 9 ∷ replicate 253 0) (omega arith)
      (omega arith) refl refl entropy

-- Every directory exists, the parent answers on descriptor 5, and every mount fails.
abbrev system : System
system = record {
  World = ℕ;
  on_exists = λ path w. (ok true, suc w);
  on_create_dir_all = λ path w. (ok tt, suc w);
  on_mount = λ m w. (err (codes "EBUSY"), suc w);
  on_freopen = λ filename mode file w. (ok tt, suc w);
  on_socket_connect = λ family port cid w. (ok (pos 5), suc w);
  on_insmod = λ path w. (ok tt, suc w);
  on_seed_entropy = λ size w. (ok size, suc w);
  on_spawn = λ command arg w. (ok tt, suc w);
  on_wait = λ w. (ok (codes "exit status: 0"), suc w);
}

abbrev first : State system
first = record { world = 0; calls = [] }

main_stages_example :
    let final = (main system first).1.calls in
    (project stage final ≡ boot_stages ++ run_stages)
    × ((front : List Call) × (final ≡ front ++ (reboot ∷ [])))
main_stages_example = main_stages system 0

init_rootfs-creates_example :
    project (creates (codes "/proc")) (init_rootfs system first).1.calls
    ≡ project (creates (codes "/proc")) []
      ++ (if true then all_wanted system (codes "/proc") mounts else [])
init_rootfs-creates_example = init_rootfs-creates system (codes "/proc") true first (λ w. refl)

nitro_heartbeat_calls_example :
    ((fd : ℤ) × ((system.on_socket_connect 40 9000 3 0).0 ≡ ok fd)
      × ((nitro_heartbeat system first).1.calls
          ≡ []
            ++ (socket_connect 40 9000 3
                ∷ write fd (0xB7 ∷ [])
                ∷ read fd 1
                ∷ close fd
                ∷ dmesg (codes "Sent NSM heartbeat")
                ∷ [])))
    ⊎ ((e : Bytes) × ((system.on_socket_connect 40 9000 3 0).0 ≡ err e)
        × ((nitro_heartbeat system first).1.calls
            ≡ [] ++ (socket_connect 40 9000 3 ∷ eprintln e ∷ [])))
nitro_heartbeat_calls_example = nitro_heartbeat_calls system first
