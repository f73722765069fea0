-- ===== src/Tests/Signing.antt =====
-- The theorems on signing and on the signing key.
use artos_nautilus_server.Prelude.{
  ◌+◌, ◌*◌, ◌<◌, ◌≤◌, ◌≡◌, ◌≢◌, ◌⊎◌, refl, true, none, some, [], ◌∷◌, ◌++◌, Bytes, codes, replicate,
  arith,
}
use artos_nautilus_server.Rust.Outcome.{done, panicked, ok, err}
use artos_nautilus_server.Orders.Types.{
  rejected, OrderV2Fields, SignedOrderResponse, action_to_u8, status_to_u8, to_intent, to_intent_v2,
}
use artos_nautilus_server.Orders.Message.{signing_message, signing_message_v2}
use artos_nautilus_server.Orders.Message.Layout.{layout}
use artos_nautilus_server.Serde.Json.{text, entry, end}
use artos_nautilus_server.Orders.Json.{signed_json, signed_v1_json, fields_json}
use artos_nautilus_server.Orders.Json.Reply.{signed_json_inj, signed_json_entries}
use artos_nautilus_server.Orders.Crypto.{generate_key, ensure_initialized, sign, public_key_base64}
use artos_nautilus_server.Orders.Crypto.Once.{sign-verify}
use artos_nautilus_server.Orders.Signing.{
  Duration, make_response, sign_response, sign_v2, sign_response_with_v2,
}
use artos_nautilus_server.Orders.Signing.Responses.{
  make_response-codes, server_timestamp_ms-make_response,
}
use artos_nautilus_server.Orders.Signing.Verified.{
  Signs, Added, signed_as, sign_response_verified, sign_response_with_v2_done,
  sign_response_with_v2_verified,
}
use artos_nautilus_server.Orders.Signing.Shadow.{
  sign_response_with_v2_ascii, sign_response_with_v2_panics,
}
use artos_nautilus_server.Tests.Reference.{
  ed25519_reference, ed25519_reference-IsEd25519, once_cell_reference,
  once_cell_reference-IsOnceCell, encoding_reference, encoding_reference-IsEncoding, libraries,
  libraries-AreLawful,
}
use artos_nautilus_server.Tests.Orders.{
  request, response, fields, key, fields-FieldsAreAscii, v2_layout, v1_message, v2_message,
}

make_response-codes_example :
    let r = make_response none request in
    (status_to_u8 r.status ≡ action_to_u8 request.action)
    × (to_intent r.action ≡ action_to_u8 request.action)
    × (to_intent_v2 r.action ≡ action_to_u8 request.action + 0x10)
    × (r.status ≢ rejected)
make_response-codes_example = make_response-codes none request

server_timestamp_ms-make_response_example :
    let d : Duration = record { secs = 5; subsec_nanos = 2_999_999 } in
    let ts = (make_response (some d) request).server_timestamp_ms in
    (ts * 1_000_000 ≤ 5_002_999_999)
    × (5_002_999_999 < (ts + 1) * 1_000_000)
    × ((make_response none request).server_timestamp_ms ≡ 0)
server_timestamp_ms-make_response_example =
    server_timestamp_ms-make_response (record { secs = 5; subsec_nanos = 2_999_999 }) request
      (omega arith) (omega arith)

seeded : (ensure_initialized ed25519_reference once_cell_reference (some key) none).1 ≡ ok tt
unfolding ensure_initialized generate_key
seeded = refl

sign-verify_example :
    let k = (ensure_initialized ed25519_reference once_cell_reference (some key) none).0 in
    (sig : Bytes) × (printed : Bytes) × (public : Bytes) × (sign ed25519_reference k (4 ∷ [])
      ≡ done sig)
    × (public_key_base64 ed25519_reference encoding_reference k ≡ done printed)
    × (encoding_reference.decode printed ≡ some public)
    × (ed25519_reference.verify public (4 ∷ []) sig ≡ true)
sign-verify_example =
    sign-verify ed25519_reference once_cell_reference once_cell_reference-IsOnceCell
      ed25519_reference-IsEd25519 encoding_reference encoding_reference-IsEncoding (some key) none
      (4 ∷ []) seeded

-- The signed response of the reference libraries.
abbrev signed_v1 : SignedOrderResponse
signed_v1 = signed_as libraries key response (layout response)

signed_v1_lem : sign_response libraries (some key) response ≡ done signed_v1
unfolding sign_response sign public_key_base64
signed_v1_lem = rw v1_message

abbrev signature_v2 : Bytes
signature_v2 = key ++ v2_layout

v2_signature : sign_v2 libraries (some key) response fields ≡ done (ok signature_v2)
unfolding sign_v2 sign
v2_signature = rw v2_message

abbrev signed_both : SignedOrderResponse
signed_both = record signed_v1 { signature_v2 = some signature_v2; v2 = some fields }

signed_both_lem :
    sign_response_with_v2 libraries (some key) response (some fields) ≡ done signed_both
unfolding sign_response_with_v2
signed_both_lem = rw (signed_v1_lem, v2_signature)

sign_response_verified_example :
    (signed_v1.response ≡ response)
    × (libraries.base64.decode signed_v1.public_key ≡ some key)
    × ((msg : Bytes) × (signing_message libraries.bcs response ≡ done msg)
        × Signs libraries key msg signed_v1.signature)
sign_response_verified_example =
    sign_response_verified libraries libraries-AreLawful key response signed_v1 signed_v1_lem

sign_response_with_v2_done_example :
    (sign_response libraries (some key) response
      ≡ done (record signed_both { signature_v2 = none; v2 = none }))
    × Added libraries key response (some fields) signed_both
sign_response_with_v2_done_example =
    sign_response_with_v2_done libraries key response (some fields) signed_both signed_both_lem

sign_response_with_v2_verified_example :
    (f : OrderV2Fields) × (msg : Bytes) × (some fields ≡ some f)
    × (signed_both.v2 ≡ some f)
    × (signing_message_v2 libraries.bcs response f ≡ done (ok msg))
    × Signs libraries key msg signature_v2
    × (libraries.base64.decode signed_both.public_key ≡ some key)
sign_response_with_v2_verified_example =
    sign_response_with_v2_verified libraries libraries-AreLawful key response (some fields)
      signed_both signature_v2 signed_both_lem refl

sign_response_with_v2_ascii_example :
    ((e : Bytes) × (sign_v2 libraries (some key) response fields ≡ done (err e))
      × (sign_response_with_v2 libraries (some key) response (some fields) ≡ done signed_v1))
    ⊎ ((text : Bytes) × (sign_v2 libraries (some key) response fields ≡ done (ok text))
        × (sign_response_with_v2 libraries (some key) response (some fields)
            ≡ done (record signed_v1 { signature_v2 = some text; v2 = some fields })))
sign_response_with_v2_ascii_example =
    sign_response_with_v2_ascii libraries key response fields signed_v1 fields-FieldsAreAscii
      signed_v1_lem

-- `0x`, the euro sign (E2 82 AC) and 61 zeros.
abbrev euro_fields : OrderV2Fields
euro_fields = record fields { escrow_id = codes "0x" ++ (0xE2 ∷ 0x82 ∷ 0xAC ∷ replicate 61 b'0') }

sign_response_with_v2_panics_example :
    sign_response_with_v2 libraries (some key) response (some euro_fields) ≡ panicked
sign_response_with_v2_panics_example =
    sign_response_with_v2_panics libraries (some key) response euro_fields [] 0xE2 0x82 0xAC
      (replicate 61 b'0') tt refl refl refl refl

signed_json_inj_example : signed_both ≡ signed_both
signed_json_inj_example = signed_json_inj signed_both signed_both refl

signed_json_entries_example :
    (signed_json signed_both ≡ signed_v1_json signed_both end)
    ⊎ ((f : OrderV2Fields) × (t : Bytes) × (some fields ≡ some f)
        × (signed_json signed_both
            ≡ signed_v1_json signed_both
                (entry (codes "signature_v2") (text t) (entry (codes "v2") (fields_json f) end))))
signed_json_entries_example =
    signed_json_entries libraries key response (some fields) signed_both signed_both_lem
