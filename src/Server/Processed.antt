-- ===== src/Server/Processed.antt =====
-- common.rs: the generic `IntentMessage` and `to_signed_response`.
pub mod Verified
use artos_nautilus_server.Prelude.{ℕ, Bytes}
use artos_nautilus_server.Rust.Outcome.{Outcome, done, expect, ◌>>=◌}
use artos_nautilus_server.Serde.Value.{Value, u8, u64, struct, nil, cons, Bcs}
use artos_nautilus_server.External.{Ed25519, Encoding}

-- `#[repr(u8)]` with `Serialize_repr`.
pub data IntentScope : Type 0 where
  process_data : IntentScope

unfoldable pub scope_to_u8 : IntentScope → ℕ
scope_to_u8 process_data = 0

-- `payload` is the field `data`, a word that is reserved here.
pub record IntentMessage (T : Type 0) : Type 0 where
  pub intent : IntentScope
  pub timestamp_ms : ℕ
  pub payload : T

pub record ProcessedDataResponse (T : Type 0) : Type 0 where
  pub response : T
  pub signature : Bytes

pub record ProcessDataRequest (T : Type 0) : Type 0 where
  pub payload : T

module _ {T : Type 0} where
  -- `IntentMessage::new`
  unfoldable new : T → ℕ → IntentScope → IntentMessage T
  new payload timestamp_ms intent = record {
    intent = intent;
    timestamp_ms = timestamp_ms;
    payload = payload;
  }

  -- The derived `Serialize`, over that of the payload.
  unfoldable pub serialize_message : (T → Value) → IntentMessage T → Value
  serialize_message serialize m = struct (
      cons (u8 (scope_to_u8 m.intent)) (cons (u64 m.timestamp_ms) (cons (serialize m.payload) nil)))

  module _ (b : Bcs) (e : Ed25519) (hex : Encoding) (serialize : T → Value) where
    unfoldable pub to_signed_response :
        e.SigningKey → T → ℕ → IntentScope → Outcome (ProcessedDataResponse (IntentMessage T))
    to_signed_response kp payload timestamp_ms intent =
        let intent_msg : IntentMessage T = record {
          intent = intent;
          timestamp_ms = timestamp_ms;
          payload = payload;
        } in
        expect (b.to_bytes (serialize_message serialize intent_msg)) >>= λ signing_payload.
        done (record { response = intent_msg; signature = hex.encode (e.sign kp signing_payload) })
