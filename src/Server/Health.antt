-- ===== src/Server/Health.antt =====
-- common.rs: `health_check`.
pub mod Map
pub mod Status
use artos_nautilus_server.Prelude.{
  ℕ, ◌+◌, Bool, true, false, Option, none, some, List, [], ◌∷◌, ◌++◌, map, Bytes, leb, ◌&&◌,
  if◌then◌else◌, codes,
}
use artos_nautilus_server.Rust.Outcome.{Result, ok, err}
use artos_nautilus_server.Rust.Text.{contains}
use artos_nautilus_server.External.{Ed25519, Encoding}
use artos_nautilus_server.Server.Errors.{EnclaveError, generic_error}
use artos_nautilus_server.Server.Attestation.{AppState}
use artos_nautilus_server.Server.Health.Map.{StatusMap, insert}

-- `serde_yaml`: a parser and the accessors of its `Value`.
pub record Yaml : Type 1 where
  pub Node : Type 0
  pub from_str : Bytes → Result Bytes Node
  pub get : Node → Bytes → Option Node
  pub as_sequence : Node → Option (List Node)
  pub as_str : Node → Option Bytes

-- A `reqwest` response: `status().is_success()`, and what reading the body gives.
pub record HttpResponse : Type 0 where
  pub is_success : Bool
  pub body : Result Bytes Bytes

-- `client.get(url).send()` against the state of the network.
pub record Network : Type 1 where
  pub World : Type 0
  pub send : Bytes → World → Result Bytes HttpResponse × World

-- `str::to_lowercase`, for the search below: only the letters of `healthy` matter there, and none of
-- them is the lower case of a character outside ASCII.
unfoldable pub to_lowercase : Bytes → Bytes
to_lowercase = map (λ c. if leb b'A' c && leb c b'Z' then c + 32 else c)

abbrev is_aws : Bytes → Bool
is_aws endpoint_str = contains endpoint_str (codes ".amazonaws.com")

unfoldable pub endpoint_url : Bytes → Bytes
endpoint_url endpoint_str =
    if is_aws endpoint_str
    then codes "https://" ++ (endpoint_str ++ codes "/ping")
    else codes "https://" ++ endpoint_str

abbrev says_healthy : Result Bytes Bytes → Bool
says_healthy (ok body) = contains (to_lowercase body) (codes "healthy")
says_healthy (err e) = false

-- The `match` on the answer of `send`.
unfoldable pub is_reachable : Bytes → Result Bytes HttpResponse → Bool
is_reachable endpoint_str (ok response) =
    if is_aws endpoint_str then says_healthy response.body else response.is_success
is_reachable endpoint_str (err e) = false

pub record HealthCheckResponse : Type 0 where
  pub pk : Bytes
  pub endpoints_status : StatusMap

module _ (y : Yaml) where
  -- `yaml_value.get("endpoints").and_then(|e| e.as_sequence())`
  unfoldable pub listed_endpoints : y.Node → Option (List y.Node)
  listed_endpoints yaml_value = elim (y.get yaml_value (codes "endpoints")) [
    | none ↦ none
    | some e ↦ y.as_sequence e
  ]

module _ (y : Yaml) (net : Network) where
  -- The body of the loop for one string endpoint.
  unfoldable pub check_endpoint : Bytes → StatusMap → net.World → StatusMap × net.World
  check_endpoint endpoint_str status_map w =
      let (answer, w') = net.send (endpoint_url endpoint_str) w in
      (insert endpoint_str (is_reachable endpoint_str answer) status_map, w')

  unfoldable pub check_endpoints : List y.Node → StatusMap → net.World → StatusMap × net.World
  check_endpoints [] status_map w = (status_map, w)
  check_endpoints (endpoint ∷ endpoints) status_map w = elim (y.as_str endpoint) [
    | none ↦ check_endpoints endpoints status_map w
    | some endpoint_str ↦
        let (status_map', w') = check_endpoint endpoint_str status_map w in
        check_endpoints endpoints status_map' w'
  ]

  -- The `match` on the file. Its error is only logged.
  unfoldable pub endpoints_of : Result Bytes Bytes → net.World → StatusMap × net.World
  endpoints_of (err e) w = ([], w)
  endpoints_of (ok yaml_content) w = elim (y.from_str yaml_content) [
    | err e ↦ ([], w)
    | ok yaml_value ↦ elim (listed_endpoints y yaml_value) [
      | none ↦ ([], w)
      | some endpoints ↦ check_endpoints endpoints [] w
    ]
  ]

  module _ (e : Ed25519) (hex : Encoding) where
    -- `client` is the result of the builder, and `file` that of `read_to_string`.
    unfoldable pub health_check :
        Result Bytes (Unit {0})
        → Result Bytes Bytes
        → AppState e
        → net.World
        → Result EnclaveError HealthCheckResponse × net.World
    health_check (err x) file state w =
        (err (generic_error (codes "Failed to create HTTP client: " ++ x)), w)
    health_check (ok _) file state w =
        let (endpoints_status, w') = endpoints_of file w in
        (
          ok (record {
            pk = hex.encode (e.verifying_key state.eph_kp);
            endpoints_status = endpoints_status;
          }),
          w',
        )
