-- ===== src/Server/Processed/Verified.antt =====
-- common.rs: the bytes and the signature of `to_signed_response`.
use artos_nautilus_server.Prelude.{
  ℕ, ◌≡◌, refl, some, ◌∷◌, ◌++◌, append-nil, Bytes, true, ◌⊎◌, inl, inr, ◌∙◌, ◌<◌, ◌≤◌, suc, max,
  arith, Bool-cases, ltb, ltb→lt, ap, sym, append_assoc, [],
}
use artos_nautilus_server.Rust.Outcome.{done, ok, err, panicked, Result-cases, Result}
use artos_nautilus_server.Serde.Value.{
  Value, Bcs, IsBcs, little_endian, cons, nil, u8, u64, prepend, depth, depth_values,
  max_container_depth, join,
}
use artos_nautilus_server.External.{Ed25519, IsEd25519, Encoding, IsEncoding}
use artos_nautilus_server.Server.Processed.{
  IntentScope, process_data, scope_to_u8, IntentMessage, serialize_message, to_signed_response,
}

max_zero : (n : ℕ) → max n 0 ≡ n
max_zero n = omega arith

join_last :
    (x y : Bytes) (r : Result Bytes Bytes)
    → prepend x (prepend y (join r (ok []))) ≡ prepend (x ++ y) r
join_last x y (ok bs) = ap ok (rw (append-nil bs) (sym (append_assoc x y bs)))
join_last x y (err e) = refl

module _ {T : Type 0} (b : Bcs) (L : IsBcs b) (serialize : T → Value) where
  depth-message :
      (m : IntentMessage T)
      → depth (serialize_message serialize m) ≡ suc (depth (serialize m.payload))
  unfolding serialize_message depth depth_values
  depth-message m = ground (arith, max_zero (depth (serialize m.payload)))

  message_struct :
      (m : IntentMessage T)
      → depth (serialize m.payload) < max_container_depth
      → b.to_bytes (serialize_message serialize m)
        ≡ prepend
            (scope_to_u8 m.intent ∷ little_endian 8 m.timestamp_ms)
            (b.to_bytes (serialize m.payload))
  unfolding serialize_message
  message_struct m d =
      L.to_bytes-struct
        (cons (u8 (scope_to_u8 m.intent))
          (cons (u64 m.timestamp_ms) (cons (serialize m.payload) nil)))
        (omega (arith, depth-message m))
      ∙ rw (L.to_bytes-u8 (scope_to_u8 m.intent), L.to_bytes-u64 m.timestamp_ms)
          (join_last (scope_to_u8 m.intent ∷ []) (little_endian 8 m.timestamp_ms)
            (b.to_bytes (serialize m.payload)))

  message_too_deep :
      (m : IntentMessage T)
      → max_container_depth ≤ depth (serialize m.payload)
      → (x : Bytes) × (b.to_bytes (serialize_message serialize m) ≡ err x)
  message_too_deep m d =
      L.to_bytes_too_deep (serialize_message serialize m) (omega (arith, depth-message m))

  -- With lawful libraries, `to_signed_response` returns a response that holds its arguments and a
  -- hex signature of intent, time and payload that verifies under the public key of the key pair,
  -- if the payload can be serialized and its containers are nested less than 500 deep; otherwise
  -- it panics.
  pub to_signed_response_verified :
      (e : Ed25519) (hex : Encoding) (kp : e.SigningKey) (payload : T) (timestamp_ms : ℕ)
      (intent : IntentScope)
      → IsEd25519 e
      → IsEncoding hex
      → let response : IntentMessage T = record {
        intent = intent;
        timestamp_ms = timestamp_ms;
        payload = payload;
      } in
        let result = to_signed_response b e hex serialize kp payload timestamp_ms intent in
        (record {
          p : Bytes;
          serialized : b.to_bytes (serialize payload) ≡ ok p;
          shallow : depth (serialize payload) < 500;
          text : Bytes;
          sig : Bytes;
          returned : result ≡ done (record { response = response; signature = text });
          decoded : hex.decode text ≡ some sig;
          verified :
              e.verify (e.verifying_key kp) (0 ∷ (little_endian 8 timestamp_ms ++ p)) sig ≡ true;
        })
        ⊎ ((result ≡ panicked)
            × ((500 ≤ depth (serialize payload))
                ⊎ ((x : Bytes) × (b.to_bytes (serialize payload) ≡ err x))))
  unfolding to_signed_response scope_to_u8
  to_signed_response_verified e hex kp payload timestamp_ms process_data E H =
      let m : IntentMessage T = record {
        intent = process_data;
        timestamp_ms = timestamp_ms;
        payload = payload;
      } in
      elim (Bool-cases (ltb (depth (serialize payload)) 500)) [
        | inl shallow ↦
            let d : depth (serialize payload) < 500 = ltb→lt _ _ shallow in
            elim (Result-cases (b.to_bytes (serialize payload))) [
              | inl (p, h) ↦ inl (record {
                p = p;
                serialized = h;
                shallow = d;
                text = _;
                sig = e.sign kp (0 ∷ (little_endian 8 timestamp_ms ++ p));
                returned = rw (message_struct m d, h) refl;
                decoded = H.decode-encode _;
                verified = E.verify-sign kp _;
              })
              | inr (x, h) ↦ inr (rw (message_struct m d, h) refl, inr (x, h))
            ]
        | inr deep ↦
            let d : 500 ≤ depth (serialize payload) = ground arith in
            let (x, h) = message_too_deep m d in inr (rw h refl, inl d)
      ]
