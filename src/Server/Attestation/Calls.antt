-- ===== src/Server/Attestation/Calls.antt =====
-- common.rs: the calls of `get_attestation` to the driver, and its answers.
use artos_nautilus_server.Prelude.{◌≡◌, refl, ◌⊎◌, inl, inr, none, some, [], ◌∷◌, Bytes, codes}
use artos_nautilus_server.Rust.Outcome.{ok, err}
use artos_nautilus_server.External.{Ed25519, Encoding, IsEncoding}
use artos_nautilus_server.Server.Errors.{generic_error}
use artos_nautilus_server.Server.Attestation.{
  AppState, GetAttestationResponse, NsmRequest, NsmResponse, attestation_document, other_response,
  nsm_init, nsm_process_request, nsm_exit, NsmDriver, get_attestation, answered,
}

-- With a lawful hex encoding, whatever descriptor `nsm_init` returns, the -1 of a failure
-- included, and whatever the driver answers, `get_attestation` opens the driver, sends one request
-- with the ephemeral public key and nothing else, and closes the same descriptor last; an
-- attestation document is returned in hex, and any other answer is an error.
pub get_attestation_calls :
    (e : Ed25519) (hex : Encoding) (driver : NsmDriver) (state : AppState e)
    → IsEncoding hex
    → (request : NsmRequest) × (request.public_key ≡ some (e.verifying_key state.eph_kp))
      × (request.user_data ≡ none)
      × (request.nonce ≡ none)
      × ((get_attestation e hex driver state).0
          ≡ nsm_init driver.fd ∷ nsm_process_request driver.fd request ∷ nsm_exit driver.fd ∷ [])
      × (((document : Bytes) × (r : GetAttestationResponse) × (driver.answer driver.fd request
              ≡ attestation_document document)
            × ((get_attestation e hex driver state).1 ≡ ok r)
            × (hex.decode r.attestation ≡ some document))
          ⊎ ((driver.answer driver.fd request ≡ other_response)
              × ((get_attestation e hex driver state).1
                  ≡ err (generic_error (codes "unexpected response")))))
unfolding get_attestation answered
get_attestation_calls e hex driver state H = (
  request,
  refl,
  refl,
  refl,
  calls (driver.answer driver.fd request),
  outcome (driver.answer driver.fd request) refl,
)
  where
    request : NsmRequest
    request = record {
      user_data = none;
      nonce = none;
      public_key = some (e.verifying_key state.eph_kp);
    }

    calls :
        (a : NsmResponse)
        → nsm_init driver.fd
            ∷ nsm_process_request driver.fd request
            ∷ (answered e hex driver.fd a).0
          ≡ nsm_init driver.fd ∷ nsm_process_request driver.fd request ∷ nsm_exit driver.fd ∷ []
    calls (attestation_document document) = refl
    calls other_response = refl

    outcome :
        (a : NsmResponse)
        → driver.answer driver.fd request ≡ a
        → ((document : Bytes) × (r : GetAttestationResponse) × (driver.answer driver.fd request
              ≡ attestation_document document)
            × ((answered e hex driver.fd (driver.answer driver.fd request)).1 ≡ ok r)
            × (hex.decode r.attestation ≡ some document))
          ⊎ ((driver.answer driver.fd request ≡ other_response)
              × ((answered e hex driver.fd (driver.answer driver.fd request)).1
                  ≡ err (generic_error (codes "unexpected response"))))
    outcome (attestation_document document) h =
        inl (
          document,
          record { attestation = hex.encode document },
          h,
          rw h,
          H.decode-encode document,
        )
    outcome other_response h = inr (h, rw h)
