-- ===== src/Server/Attestation.antt =====
-- common.rs: `get_attestation`, with and without the `nitro` feature.
pub mod Calls
use artos_nautilus_server.Prelude.{ℤ, Option, none, some, List, [], ◌∷◌, Bytes, codes}
use artos_nautilus_server.Rust.Outcome.{Result, ok, err}
use artos_nautilus_server.External.{Ed25519, Encoding}
use artos_nautilus_server.Server.Errors.{EnclaveError, generic_error}

-- lib.rs: `AppState`
pub record AppState (e : Ed25519) : Type 0 where
  pub eph_kp : e.SigningKey
  pub api_key : Bytes

pub record GetAttestationResponse : Type 0 where
  pub attestation : Bytes

-- `nsm_api::api::Request::Attestation`
pub record NsmRequest : Type 0 where
  pub user_data : Option Bytes
  pub nonce : Option Bytes
  pub public_key : Option Bytes

-- `nsm_api::api::Response`: an attestation document, or any other answer.
pub data NsmResponse : Type 0 where
  attestation_document : Bytes → NsmResponse
  other_response : NsmResponse

-- The calls of the driver that the handler makes, in order.
pub data NsmCall : Type 0 where
  nsm_init : ℤ → NsmCall
  nsm_process_request : ℤ → NsmRequest → NsmCall
  nsm_exit : ℤ → NsmCall

-- The driver: what `nsm_init` returns, a descriptor or -1, and the answer to a request, on any
-- descriptor.
pub record NsmDriver : Type 0 where
  pub fd : ℤ
  pub answer : ℤ → NsmRequest → NsmResponse

abbrev pub Attested : Type 0
Attested = Result EnclaveError GetAttestationResponse

module _ (e : Ed25519) (hex : Encoding) where
  -- The `match` on the driver's answer, with the call that each arm makes first.
  unfoldable pub answered : ℤ → NsmResponse → List NsmCall × Attested
  answered fd (attestation_document document) =
      (nsm_exit fd ∷ [], ok (record { attestation = hex.encode document }))
  answered fd other_response = (nsm_exit fd ∷ [], err (generic_error (codes "unexpected response")))

  unfoldable pub get_attestation : NsmDriver → AppState e → List NsmCall × Attested
  unfolding answered
  get_attestation driver state =
      let pk = e.verifying_key state.eph_kp in
      let fd = driver.fd in
      let request : NsmRequest = record { user_data = none; nonce = none; public_key = some pk } in
      let (calls, result) = answered fd (driver.answer fd request) in
      (nsm_init fd ∷ nsm_process_request fd request ∷ calls, result)

-- Without the feature.
module _ (e : Ed25519) where
  unfoldable pub get_attestation_stub : AppState e → Attested
  get_attestation_stub state =
      err (generic_error (codes "attestation not available in non-nitro builds"))
