-- ===== src/Server/Startup/Keys.antt =====
-- main.rs, common.rs and orders/crypto.rs: the two keys of a running server.
use mathlib.Core.Option.{some-injective}
use artos_nautilus_server.Prelude.{◌≡◌, ◌≢◌, sym, ap, ◌∙◌, Option, some, ◌∷◌, Bytes, []}
use artos_nautilus_server.Rust.Outcome.{done, ok}
use artos_nautilus_server.External.{Libraries, AreLawful}
use artos_nautilus_server.Orders.Types.{OrderRequest, SignedOrderResponse}
use artos_nautilus_server.Orders.Signing.{Duration, make_response}
use artos_nautilus_server.Server.Attestation.{
  NsmRequest, NsmDriver, nsm_init, nsm_process_request, nsm_exit, get_attestation,
}
use artos_nautilus_server.Server.Attestation.Calls.{get_attestation_calls}
use artos_nautilus_server.Server.Handlers.{process_order_http}
use artos_nautilus_server.Server.Handlers.Served.{sign_response_with_v2-OrderIsSound}
use artos_nautilus_server.Server.Startup.{Environment, Server, start}
use artos_nautilus_server.Server.Startup.Ready.{start-Started}

-- In a server that came up, with lawful libraries and an ephemeral public key that differs from
-- the one made of the random seed, the key that `get_attestation` asks to be bound is not the key
-- beside the signature of any order that the same server returns.
pub attested_key-ne-order_key :
    (l : Libraries) (L : AreLawful l) (env : Environment l) (s : Server l) (driver : NsmDriver)
    (now : Option Duration) (req : OrderRequest) (signed : SignedOrderResponse) (seed : Bytes)
    → start l env ≡ done (ok s)
    → process_order_http l s.state now req ≡ done signed
    → env.seed ≡ some seed
    → l.fastcrypto.verifying_key env.eph_kp ≢ l.ed25519.verifying_key (l.ed25519.from_bytes seed)
    → (request : NsmRequest) × ((get_attestation l.fastcrypto l.hex driver s.state.app).0
        ≡ nsm_init driver.fd ∷ nsm_process_request driver.fd request ∷ nsm_exit driver.fd ∷ [])
      × (request.public_key ≢ l.base64.decode signed.public_key)
unfolding process_order_http
attested_key-ne-order_key l L env s driver now req signed seed h p given differ =
    let st = start-Started l L.once_cell env s h in
    let same_seed : st.seed ≡ seed = some-injective _ _ (sym st.seed_given ∙ given) in
    let (request, asks, _, _, calls, _) =
      get_attestation_calls l.fastcrypto l.hex driver s.state.app L.hex in
    let sound =
      sign_response_with_v2-OrderIsSound l L (l.ed25519.from_bytes st.seed) (make_response now req)
        req.v2 signed (rw st.key at p) in
    (
      request,
      calls,
      λ same. differ (
          some-injective _ _ (
            ap (λ k. some (l.fastcrypto.verifying_key k)) (sym st.eph_kp)
            ∙ (sym asks ∙ (same ∙ sound.key)))
          ∙ ap (λ x. l.ed25519.verifying_key (l.ed25519.from_bytes x)) same_seed),
    )
