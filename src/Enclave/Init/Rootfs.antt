-- ===== src/Enclave/Init/Rootfs.antt =====
-- src/init/init.rs: the mount points that `init_rootfs` creates.
use artos_nautilus_server.Prelude.{
  ◌≡◌, refl, ap, ◌∙◌, Bool, true, false, List, [], ◌∷◌, ◌++◌, append-nil, Bytes, if◌then◌else◌,
  Bool-cases, inl, inr, subst,
}
use artos_nautilus_server.Rust.Outcome.{Result, ok, err}
use artos_nautilus_server.Server.Health.Map.{bytes_eq, bytes_eq_iff}
use artos_nautilus_server.Enclave.System.{
  Mount, System, State, M, ◌>>=◌, Call, ask, exists, create_dir_all, mount, freopen, socket_connect,
  insmod, seed_entropy, dmesg, reboot, write, read, close, eprintln, println, set_var, spawn, wait,
}
use artos_nautilus_server.Enclave.Init.{
  mounts, is_true, report, create_target, mount_rest, mount_one, mount_all, init_rootfs,
}
use artos_nautilus_server.Enclave.Init.Trace.{
  project, project-snoc, Adds, Adds-ask, Adds-tell, Adds-skip, Adds-bind, Adds-seq,
}

-- The creation of the directory `target`.
abbrev pub creates : Bytes → Call → List Bytes
creates target (create_dir_all path) = if bytes_eq path target then path ∷ [] else []
creates target (mount m) = []
creates target (freopen filename mode file) = []
creates target (insmod path) = []
creates target (seed_entropy size) = []
creates target (spawn command arg) = []
creates target reboot = []
creates target (exists path) = []
creates target (socket_connect family port cid) = []
creates target (dmesg text) = []
creates target (write fd bytes) = []
creates target (read fd count) = []
creates target (close fd) = []
creates target (eprintln text) = []
creates target (println text) = []
creates target (set_var name value) = []
creates target wait = []

module _ (sys : System) (target : Bytes) where
  abbrev Quiet : {A : Type 0} → M sys A → Type 0
  Quiet m = Adds (creates target) sys m []

  report-Quiet : (text : Bytes) (r : Result Bytes (Unit {0})) → Quiet (report sys text r)
  unfolding report
  report-Quiet text (ok u) = Adds-tell (creates target) sys (dmesg text)
  report-Quiet text (err e) = Adds-tell (creates target) sys (eprintln e)

  mount_rest-Quiet :
      (m : Mount) (there : Bool)
      → Quiet (create_target sys m.target there)
      → Quiet (mount_rest sys m there)
  unfolding mount_rest
  mount_rest-Quiet m there h = Adds-seq (creates target) sys [] [] h (
      Adds-bind (creates target) sys [] [] (Adds-ask (creates target) sys (mount m) _)
        (report-Quiet _))

  create_other_Quiet :
      (path : Bytes) (there : Bool)
      → bytes_eq path target ≡ false
      → Quiet (create_target sys path there)
  unfolding create_target
  create_other_Quiet path false h = Adds-skip (creates target) sys
  create_other_Quiet path true h =
      Adds-bind (creates target) sys [] []
        (rw h at (Adds-ask (creates target) sys (create_dir_all path) (sys.on_create_dir_all path)))
        (report-Quiet _)

  mount_one_other : (m : Mount) → bytes_eq m.target target ≡ false → Quiet (mount_one sys m)
  unfolding mount_one
  mount_one_other m other =
      Adds-bind (creates target) sys [] [] (Adds-ask (creates target) sys (exists m.target) _)
        λ there.
          mount_rest-Quiet m (is_true there) (create_other_Quiet m.target (is_true there) other)

  -- The creation that a mount would need.
  abbrev pub wanted : Mount → List Bytes
  wanted m = if bytes_eq m.target target then m.target ∷ [] else []

  -- The mounts on `target`.
  abbrev pub all_wanted : List Mount → List Bytes
  all_wanted [] = []
  all_wanted (m ∷ ms) = wanted m ++ all_wanted ms

  abbrev if_there : Bool → List Bytes → List Bytes
  if_there there paths = if there then paths else []

  if_there-append :
      (there : Bool) (ps qs : List Bytes)
      → if_there there ps ++ if_there there qs ≡ if_there there (ps ++ qs)
  if_there-append true ps qs = refl
  if_there-append false ps qs = refl

  create_target-Adds :
      (m : Mount) (there : Bool)
      → Adds (creates target) sys (create_target sys m.target there) (if_there there (wanted m))
  unfolding create_target
  create_target-Adds m false = Adds-skip (creates target) sys
  create_target-Adds m true = subst (Adds (creates target) sys _) (append-nil (wanted m)) (
      Adds-bind (creates target) sys (wanted m) []
        (Adds-ask (creates target) sys (create_dir_all m.target) _) (report-Quiet _))

  mount_rest-Adds :
      (m : Mount) (there : Bool)
      → Adds (creates target) sys (mount_rest sys m there) (if_there there (wanted m))
  unfolding mount_rest
  mount_rest-Adds m there =
      subst (Adds (creates target) sys _) (append-nil (if_there there (wanted m))) (
        Adds-seq (creates target) sys (if_there there (wanted m)) [] (create_target-Adds m there) (
          Adds-bind (creates target) sys [] [] (Adds-ask (creates target) sys (mount m) _)
            (report-Quiet _)))

  module _ (there : Bool)
      (tested : (w : sys.World) → is_true (sys.on_exists target w).0 ≡ there) where
    mount_one_tested :
        (m : Mount)
        → m.target ≡ target
        → Adds (creates target) sys (mount_one sys m) (if_there there (wanted m))
    unfolding mount_one ◌>>=◌ ask
    mount_one_tested m same = record {
      adds = λ s.
          let test : is_true (sys.on_exists m.target s.world).0 ≡ there =
            rw same (tested s.world) in
          let asked : project (creates target) (s.calls ++ (exists m.target ∷ []))
              ≡ project (creates target) s.calls =
            project-snoc (creates target) s.calls (exists m.target) ∙ append-nil _ in
          rw test
            ((mount_rest-Adds m there).adds _ ∙ ap (λ l. l ++ if_there there (wanted m)) asked);
    }

    if_there_nothing : (there : Bool) → if_there there [] ≡ []
    if_there_nothing true = refl
    if_there_nothing false = refl

    mount_one-Adds :
        (m : Mount) → Adds (creates target) sys (mount_one sys m) (if_there there (wanted m))
    mount_one-Adds m = elim (Bool-cases (bytes_eq m.target target)) [
      | inl same ↦ mount_one_tested m ((bytes_eq_iff _ _).0 same)
      | inr other ↦
          let nothing : if_there there (wanted m) ≡ [] = rw other (if_there_nothing there) in
          rw nothing (mount_one_other m other)
    ]

    mount_all-Adds :
        (ms : List Mount)
        → Adds (creates target) sys (mount_all sys ms) (if_there there (all_wanted ms))
    unfolding mount_all
    mount_all-Adds [] = rw (if_there_nothing there) (Adds-skip (creates target) sys)
    mount_all-Adds (m ∷ ms) =
        subst (Adds (creates target) sys _) (if_there-append there (wanted m) (all_wanted ms)) (
          Adds-seq (creates target) sys (if_there there (wanted m)) (if_there there (all_wanted ms))
            (mount_one-Adds m) (mount_all-Adds ms))

  -- With an existence test that always answers `there` for a path, `init_rootfs` creates that
  -- directory once for each mount on it if `there` is true, and never if it is false.
  pub init_rootfs-creates :
      (there : Bool) (s : State sys)
      → ((w : sys.World) → is_true (sys.on_exists target w).0 ≡ there)
      → project (creates target) (init_rootfs sys s).1.calls
        ≡ project (creates target) s.calls ++ (if there then all_wanted mounts else [])
  unfolding init_rootfs
  init_rootfs-creates there s tested = (mount_all-Adds there tested mounts).adds s
