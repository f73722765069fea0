-- ===== src/Enclave/Aws/Heartbeat.antt =====
-- src/aws/src/lib.rs: the calls of `nitro_heartbeat`.
use artos_nautilus_server.Prelude.{
  ℤ, ◌≡◌, ◌∙◌, ◌⊎◌, inl, inr, [], ◌∷◌, ◌++◌, append_assoc, Bytes, codes,
}
use artos_nautilus_server.Rust.Outcome.{ok, err, Result-cases}
use artos_nautilus_server.Enclave.System.{
  System, State, ◌>>=◌, ◌>>◌, ask, tell, socket_connect, write, read, close, dmesg, eprintln,
}
use artos_nautilus_server.Enclave.Aws.{heartbeat, send_heartbeat, nitro_heartbeat}

module _ (sys : System) where
  send_heartbeat_calls :
      (fd : ℤ) (s : State sys)
      → (send_heartbeat sys (ok fd) s).1.calls
        ≡ s.calls
          ++ (write fd (heartbeat ∷ [])
              ∷ read fd 1
              ∷ close fd
              ∷ dmesg (codes "Sent NSM heartbeat")
              ∷ [])
  unfolding send_heartbeat ◌>>◌ tell
  send_heartbeat_calls fd s = simp append_assoc

  -- `nitro_heartbeat` connects a socket of the family AF_VSOCK (40) to port 9000 of the context 3;
  -- on the descriptor that it gets it writes the byte 0xB7, reads one byte and closes it, in this
  -- order, and logs `Sent NSM heartbeat`, and without a descriptor it prints the error; it makes
  -- no other call.
  pub nitro_heartbeat_calls :
      (s : State sys)
      → ((fd : ℤ) × ((sys.on_socket_connect 40 9000 3 s.world).0 ≡ ok fd)
          × ((nitro_heartbeat sys s).1.calls
              ≡ s.calls
                ++ (socket_connect 40 9000 3
                    ∷ write fd (0xB7 ∷ [])
                    ∷ read fd 1
                    ∷ close fd
                    ∷ dmesg (codes "Sent NSM heartbeat")
                    ∷ [])))
        ⊎ ((e : Bytes) × ((sys.on_socket_connect 40 9000 3 s.world).0 ≡ err e)
            × ((nitro_heartbeat sys s).1.calls
                ≡ s.calls ++ (socket_connect 40 9000 3 ∷ eprintln e ∷ [])))
  unfolding nitro_heartbeat ◌>>=◌ ask
  nitro_heartbeat_calls s = elim (Result-cases (sys.on_socket_connect 40 9000 3 s.world).0) [
    | inl (fd, h) ↦ inl (
      fd,
      h,
      rw h (send_heartbeat_calls fd _ ∙ append_assoc s.calls (socket_connect 40 9000 3 ∷ []) _),
    )
    | inr (e, h) ↦ inr (
      e,
      h,
      rw h (unfold send_heartbeat tell in append_assoc s.calls (socket_connect 40 9000 3 ∷ []) _),
    )
  ]
