-- ===== src/Server/Errors.antt =====
-- lib.rs: `EnclaveError` and its HTTP response.
use artos_nautilus_server.Prelude.{ℕ, Bytes, codes, ◌++◌}
use artos_nautilus_server.Serde.Json.{Json, text, object, entry, end}

pub data EnclaveError : Type 0 where
  generic_error : Bytes → EnclaveError

-- An HTTP response with a JSON body.
pub record Response : Type 0 where
  pub status : ℕ
  pub body : Json

-- `StatusCode::INTERNAL_SERVER_ERROR`
abbrev internal_server_error : ℕ
internal_server_error = 500

-- `IntoResponse`
unfoldable into_response : EnclaveError → Response
into_response (generic_error msg) = record {
  status = internal_server_error;
  body = object (entry (codes "error") (text msg) end);
}

-- `Display`
unfoldable show_error : EnclaveError → Bytes
show_error (generic_error msg) = codes "Enclave error: " ++ msg
