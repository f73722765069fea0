-- ===== src/Tests/Common.antt =====
-- The theorems on common.rs.
use artos_nautilus_server.Prelude.{
  ◌≡◌, ◌⊎◌, refl, true, false, if◌then◌else◌, none, some, [], ◌∷◌, ◌++◌, Bytes, codes, ◌<◌, ◌≤◌,
  pos,
}
use artos_nautilus_server.Rust.Outcome.{done, Result, ok, err, panicked}
use artos_nautilus_server.Rust.Text.{contains, starts_with}
use artos_nautilus_server.Serde.Value.{Value, vec_u8, little_endian, depth}
use artos_nautilus_server.Server.Errors.{generic_error}
use artos_nautilus_server.Server.Attestation.{
  GetAttestationResponse, NsmRequest, attestation_document, other_response, nsm_init,
  nsm_process_request, nsm_exit, get_attestation,
}
use artos_nautilus_server.Server.Attestation.Calls.{get_attestation_calls}
use artos_nautilus_server.Server.Health.{
  HttpResponse, HealthCheckResponse, health_check, is_reachable, endpoint_url, check_endpoints,
  check_endpoint, endpoints_of, listed_endpoints, to_lowercase,
}
use artos_nautilus_server.Server.Health.Map.{get, insert}
use artos_nautilus_server.Server.Health.Status.{
  is_some, listed, file_endpoints, health_check_keys, health_check_status, is_reachable_unhealthy,
}
use artos_nautilus_server.Server.Processed.{process_data, IntentMessage, to_signed_response}
use artos_nautilus_server.Server.Processed.Verified.{to_signed_response_verified}
use artos_nautilus_server.Tests.Reference.{
  bcs_reference, bcs_reference-IsBcs, ed25519_reference, ed25519_reference-IsEd25519,
  encoding_reference, encoding_reference-IsEncoding,
}
use artos_nautilus_server.Tests.Server.{yaml, network, key, app, driver}

get_attestation_calls_example :
    (request : NsmRequest) × (request.public_key ≡ some (9 ∷ []))
    × (request.user_data ≡ none)
    × (request.nonce ≡ none)
    × ((get_attestation ed25519_reference encoding_reference driver app).0
        ≡ nsm_init (pos 3) ∷ nsm_process_request (pos 3) request ∷ nsm_exit (pos 3) ∷ [])
    × (((document : Bytes) × (r : GetAttestationResponse) × (driver.answer (pos 3) request
            ≡ attestation_document document)
          × ((get_attestation ed25519_reference encoding_reference driver app).1 ≡ ok r)
          × (encoding_reference.decode r.attestation ≡ some document))
        ⊎ ((driver.answer (pos 3) request ≡ other_response)
            × ((get_attestation ed25519_reference encoding_reference driver app).1
                ≡ err (generic_error (codes "unexpected response")))))
get_attestation_calls_example =
    get_attestation_calls ed25519_reference encoding_reference driver app
      encoding_reference-IsEncoding

abbrev endpoint : Bytes
endpoint = codes "seal.example"

abbrev built : Result Bytes (Unit {0})
built = ok tt

health_check_keys_example :
    ((built ≡ ok tt)
      × ((r : HealthCheckResponse) × ((health_check yaml network ed25519_reference
              encoding_reference built
              (ok endpoint)
              app
              0).0
            ≡ ok r)
          × (r.pk ≡ 9 ∷ [])
          × ((k : Bytes)
              → is_some (get k r.endpoints_status)
                ≡ listed yaml k (file_endpoints yaml (ok endpoint)))))
    ⊎ ((x : Bytes) × (built ≡ err x)
        × ((health_check yaml network ed25519_reference encoding_reference built
              (ok endpoint)
              app
              0).0
            ≡ err (generic_error (codes "Failed to create HTTP client: " ++ x))))
health_check_keys_example =
    health_check_keys yaml network ed25519_reference encoding_reference (ok tt) (ok endpoint) app 0

abbrev health_answer : HealthCheckResponse
health_answer = record { pk = 9 ∷ []; endpoints_status = (endpoint, true) ∷ [] }

health_answer_lem :
    (health_check yaml network ed25519_reference encoding_reference (ok tt) (ok endpoint) app 0).0
    ≡ ok health_answer
unfolding health_check endpoints_of listed_endpoints check_endpoints check_endpoint is_reachable
    endpoint_url insert contains
health_answer_lem = refl

abbrev answer : Bytes → Result Bytes HttpResponse
answer url = ok (record { is_success = true; body = ok (codes "Healthy") })

health_check_status_example : get endpoint health_answer.endpoints_status ≡ (
    if listed yaml endpoint (file_endpoints yaml (ok endpoint))
    then some (is_reachable endpoint (answer (endpoint_url endpoint)))
    else none)
health_check_status_example =
    health_check_status yaml network ed25519_reference encoding_reference answer (ok endpoint) app 0
      health_answer endpoint (λ url w. refl) health_answer_lem

aws_name : contains (codes "s.amazonaws.com") (codes ".amazonaws.com") ≡ true
unfolding contains starts_with
aws_name = refl

lower_word : to_lowercase (codes "UNHEALTHY") ≡ codes "unhealthy"
unfolding to_lowercase
lower_word = refl

is_reachable_unhealthy_example :
    is_reachable (codes "s.amazonaws.com") (
      ok (record {
        is_success = false;
        body = ok (codes "status: " ++ (codes "UNHEALTHY" ++ codes "!"));
      }))
    ≡ true
is_reachable_unhealthy_example =
    is_reachable_unhealthy (codes "s.amazonaws.com") (codes "status: ") (codes "UNHEALTHY")
      (codes "!") false aws_name lower_word

abbrev serialize : Bytes → Value
serialize payload = vec_u8 payload

to_signed_response_verified_example :
    let response : IntentMessage Bytes = record {
      intent = process_data;
      timestamp_ms = 7;
      payload = codes "hi";
    } in
    let result =
      to_signed_response bcs_reference ed25519_reference encoding_reference serialize key
        (codes "hi")
        7
        process_data in
    (record {
      p : Bytes;
      serialized : bcs_reference.to_bytes (serialize (codes "hi")) ≡ ok p;
      shallow : depth (serialize (codes "hi")) < 500;
      text : Bytes;
      sig : Bytes;
      returned : result ≡ done (record { response = response; signature = text });
      decoded : encoding_reference.decode text ≡ some sig;
      verified : ed25519_reference.verify key (0 ∷ (little_endian 8 7 ++ p)) sig ≡ true;
    })
    ⊎ ((result ≡ panicked)
        × ((500 ≤ depth (serialize (codes "hi")))
            ⊎ ((x : Bytes) × (bcs_reference.to_bytes (serialize (codes "hi")) ≡ err x))))
to_signed_response_verified_example =
    to_signed_response_verified bcs_reference bcs_reference-IsBcs serialize ed25519_reference
      encoding_reference key (codes "hi") 7 process_data ed25519_reference-IsEd25519
      encoding_reference-IsEncoding
