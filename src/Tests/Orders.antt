-- ===== src/Tests/Orders.antt =====
-- The theorems on orders/.
use artos_nautilus_server.Prelude.{
  ℕ, zero, suc, ◌<◌, ◌≡◌, ◌≢◌, refl, none, some, [], ◌∷◌, Bytes, codes, All, replicate, arith,
}
use artos_nautilus_server.Rust.Outcome.{done, ok}
use artos_nautilus_server.Orders.Types.{
  deposit, escrowed, OrderRequest, OrderV2Fields, SignableOrderResponse,
}
use artos_nautilus_server.Orders.Hex.{parse_hex_bytes}
use artos_nautilus_server.Orders.Hex.Inputs.{parse_hex_bytes-hex_encode}
use artos_nautilus_server.Orders.Message.{signing_message, signing_message_v2}
use artos_nautilus_server.Orders.Message.Layout.{
  layout, layout_v2, ResponseFits, signing_message-layout, signing_message_v2-layout,
}
use artos_nautilus_server.Orders.Message.Injective.{
  ResponseInRange, signing_message_inj, signing_message-ne-signing_message_v2,
  signing_message_v2_inj,
}
use artos_nautilus_server.Orders.Json.Request.{request_json, decode_request}
use artos_nautilus_server.Orders.Json.RoundTrip.{RequestInRange, decode_request-request_json}
use artos_nautilus_server.Orders.Signing.Shadow.{FieldsAreAscii}
use artos_nautilus_server.Tests.Reference.{bcs_reference, bcs_reference-IsBcs}

abbrev pub request : OrderRequest
request = record {
  version = 1;
  order_id = codes "ord-1";
  customer = codes "c";
  merchant = codes "m";
  amount = 500;
  currency = codes "USD";
  action = deposit;
  client_timestamp_ms = none;
  metadata = none;
  v2 = none;
}

abbrev pub response : SignableOrderResponse
response = record {
  version = 1;
  order_id = codes "ord-1";
  action = deposit;
  status = escrowed;
  amount = 500;
  currency = codes "USD";
  server_timestamp_ms = 7;
  escrow_tx_id = none;
  notes = some (codes "n");
}

-- Zeros in hexadecimal.
abbrev pub fields : OrderV2Fields
fields = record {
  escrow_id = replicate 64 b'0';
  recipient = replicate 64 b'0';
  nonce = replicate 32 b'0';
  expiry_ms = 9;
}

abbrev pub key : Bytes
key = 1 ∷ 2 ∷ 3 ∷ []

All-replicate : (k b m : ℕ) → b < m → All (λ x. x < m) (replicate k b)
All-replicate zero b m h = tt
All-replicate (suc k) b m h = (h, All-replicate k b m h)

response-ResponseFits : ResponseFits response
response-ResponseFits = record {
  order_id = omega arith;
  currency = omega arith;
  escrow_tx_id = tt;
  notes = omega arith;
}

response-ResponseInRange : ResponseInRange response
response-ResponseInRange = record {
  version = omega arith;
  amount = omega arith;
  server_timestamp_ms = omega arith;
}

pub fields-FieldsAreAscii : FieldsAreAscii fields
fields-FieldsAreAscii = record {
  escrow_id = All-replicate 64 b'0' 128 (omega arith);
  recipient = All-replicate 64 b'0' 128 (omega arith);
  nonce = All-replicate 32 b'0' 128 (omega arith);
}

zeros_32 : parse_hex_bytes 32 (replicate 64 b'0') ≡ done (ok (replicate 32 0))
zeros_32 =
    (parse_hex_bytes-hex_encode 32 (replicate 32 0) refl (All-replicate 32 0 256 (omega arith))).0

zeros_16 : parse_hex_bytes 16 (replicate 32 b'0') ≡ done (ok (replicate 16 0))
zeros_16 =
    (parse_hex_bytes-hex_encode 16 (replicate 16 0) refl (All-replicate 16 0 256 (omega arith))).0

abbrev pub v2_layout : Bytes
v2_layout = layout_v2 response (replicate 32 0) (replicate 32 0) (replicate 16 0) 9

signing_message-layout_example : signing_message bcs_reference response ≡ done (layout response)
signing_message-layout_example =
    signing_message-layout bcs_reference bcs_reference-IsBcs response response-ResponseFits

signing_message_v2-layout_example :
    signing_message_v2 bcs_reference response fields ≡ done (ok v2_layout)
signing_message_v2-layout_example =
    signing_message_v2-layout bcs_reference bcs_reference-IsBcs response fields
      response-ResponseFits zeros_32 zeros_32 zeros_16

pub v1_message : signing_message bcs_reference response ≡ done (layout response)
v1_message = signing_message-layout bcs_reference bcs_reference-IsBcs response response-ResponseFits

pub v2_message : signing_message_v2 bcs_reference response fields ≡ done (ok v2_layout)
v2_message =
    signing_message_v2-layout bcs_reference bcs_reference-IsBcs response fields
      response-ResponseFits zeros_32 zeros_32 zeros_16

signing_message_inj_example : response ≡ response
signing_message_inj_example =
    signing_message_inj bcs_reference bcs_reference-IsBcs response response (layout response)
      response-ResponseInRange response-ResponseInRange v1_message v1_message

signing_message-ne-signing_message_v2_example :
    signing_message_v2 bcs_reference response fields ≢ done (ok (layout response))
signing_message-ne-signing_message_v2_example =
    signing_message-ne-signing_message_v2 bcs_reference bcs_reference-IsBcs response response fields
      (layout response) v1_message

signing_message_v2_inj_example :
    (response ≡ response)
    × (parse_hex_bytes 32 fields.escrow_id ≡ parse_hex_bytes 32 fields.escrow_id)
    × (parse_hex_bytes 32 fields.recipient ≡ parse_hex_bytes 32 fields.recipient)
    × (parse_hex_bytes 16 fields.nonce ≡ parse_hex_bytes 16 fields.nonce)
    × (fields.expiry_ms ≡ fields.expiry_ms)
signing_message_v2_inj_example =
    signing_message_v2_inj bcs_reference bcs_reference-IsBcs response response fields fields
      v2_layout response-ResponseInRange response-ResponseInRange (omega arith) (omega arith)
      v2_message v2_message

request-RequestInRange : RequestInRange request
request-RequestInRange = record {
  version = omega arith;
  amount = omega arith;
  client_timestamp_ms = tt;
  metadata = λ h. cc h;
  v2 = tt;
}

decode_request-request_json_example : decode_request (request_json request) ≡ some request
decode_request-request_json_example = decode_request-request_json request request-RequestInRange
