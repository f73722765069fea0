-- ===== src/Orders/Signing/Verified.antt =====
-- orders/order.rs: the signatures and the public key in a response.
use artos_nautilus_server.Prelude.{
  ◌≡◌, ◌⊎◌, inl, inr, refl, subst, sym, ap, ◌∙◌, Option, none, some, Bytes, codes, true,
}
use artos_nautilus_server.Rust.Outcome.{
  Outcome, done, panicked, Result, ok, err, >>=-eq-done, >>=?-eq-ok,
}
use artos_nautilus_server.External.{Libraries, AreLawful}
use artos_nautilus_server.Orders.Types.{OrderV2Fields, SignableOrderResponse, SignedOrderResponse}
use artos_nautilus_server.Orders.Message.{signing_message, signing_message_v2}
use artos_nautilus_server.Orders.Crypto.{public_key_base64, sign}
use artos_nautilus_server.Orders.Signing.{sign_response, sign_v2, add_v2, sign_response_with_v2}

module _ (l : Libraries) where
  -- The text is a base64 signature of the message under the public key.
  abbrev pub Signs : Bytes → Bytes → Bytes → Type 0
  Signs pk msg text =
      (sig : Bytes) × (l.base64.decode text ≡ some sig) × (l.ed25519.verify pk msg sig ≡ true)

module _ (l : Libraries) (sk : l.ed25519.SigningKey) where
  abbrev pub pk : Bytes
  pk = l.ed25519.verifying_key sk

  abbrev pub signed_as : SignableOrderResponse → Bytes → SignedOrderResponse
  signed_as resp msg = record {
    response = resp;
    signature = l.base64.encode (l.ed25519.sign sk msg);
    public_key = l.base64.encode pk;
    scheme = codes "ed25519";
    signature_v2 = none;
    v2 = none;
  }

  sign_response_done :
      (resp : SignableOrderResponse) {signed : SignedOrderResponse}
      → sign_response l (some sk) resp ≡ done signed
      → (msg : Bytes) × (signing_message l.bcs resp ≡ done msg) × (signed_as resp msg ≡ signed)
  unfolding sign_response sign public_key_base64
  sign_response_done resp h =
      let (msg, e, h') =
        >>=-eq-done (signing_message l.bcs resp) (λ msg. done (signed_as resp msg)) h in
      (msg, e, cc)

  pub sign_response_keeps :
      (resp : SignableOrderResponse) {signed : SignedOrderResponse}
      → sign_response l (some sk) resp ≡ done signed
      → signed.response ≡ resp
  sign_response_keeps resp h =
      let (_, _, same) = sign_response_done resp h in
      ap (λ (s : SignedOrderResponse). s.response) (sym same)

  -- How `sign_response_with_v2` adds to what `sign_response` returns.
  abbrev pub Added : SignableOrderResponse → Option OrderV2Fields → SignedOrderResponse → Type 0
  Added resp v2 signed =
      ((signed.signature_v2 ≡ none) × (signed.v2 ≡ none))
      ⊎ ((f : OrderV2Fields) × (text : Bytes) × (v2 ≡ some f)
          × (signed.v2 ≡ some f)
          × (signed.signature_v2 ≡ some text)
          × (sign_v2 l (some sk) resp f ≡ done (ok text)))

  add_v2_done :
      (resp : SignableOrderResponse) (v1 : SignedOrderResponse) (f : OrderV2Fields)
      (m : Outcome (Result Bytes Bytes)) {signed : SignedOrderResponse}
      → v1.signature_v2 ≡ none
      → v1.v2 ≡ none
      → sign_v2 l (some sk) resp f ≡ m
      → add_v2 l (some sk) v1 f m ≡ done signed
      → (v1 ≡ record signed { signature_v2 = none; v2 = none }) × Added resp (some f) signed
  unfolding add_v2
  add_v2_done resp v1 f (done (ok text)) n₁ n₂ e h = (cc, inr (f, text, refl, cc, cc, e))
  add_v2_done resp v1 f (done (err x)) n₁ n₂ e h = (cc, inl (cc, cc))
  add_v2_done resp v1 f panicked n₁ n₂ e h = cc

  -- With a key, a response that `sign_response_with_v2` returns is the one of `sign_response` but
  -- for its two V2 fields, and either both of these are empty, or `v2` holds the fields of the
  -- request and `signature_v2` what `sign_v2` returned for them.
  pub sign_response_with_v2_done :
      (resp : SignableOrderResponse) (v2 : Option OrderV2Fields) (signed : SignedOrderResponse)
      → sign_response_with_v2 l (some sk) resp v2 ≡ done signed
      → (sign_response l (some sk) resp ≡ done (record signed { signature_v2 = none; v2 = none }))
        × Added resp v2 signed
  unfolding sign_response_with_v2
  sign_response_with_v2_done resp none signed h =
      let (msg, e, same) = sign_response_done resp h in (cc, inl (cc, cc))
  sign_response_with_v2_done resp (some f) signed h =
      let (v1, e, h') =
        >>=-eq-done (sign_response l (some sk) resp)
          (λ v1. add_v2 l (some sk) v1 f (sign_v2 l (some sk) resp f)) h in
      let (msg, written, same) = sign_response_done resp e in
      let (kept, added) =
        add_v2_done resp v1 f (sign_v2 l (some sk) resp f) {signed = signed} (cc) (cc) refl h' in
      (e ∙ ap done kept, added)

module _ (l : Libraries) (L : AreLawful l) (sk : l.ed25519.SigningKey) where
  Signs-sign : (msg : Bytes) → Signs l (pk l sk) msg (l.base64.encode (l.ed25519.sign sk msg))
  Signs-sign msg = (l.ed25519.sign sk msg, L.base64.decode-encode _, L.ed25519.verify-sign sk msg)

  -- With lawful libraries and a key, a response that `sign_response` returns holds the response it
  -- was given, the base64 public key of the signing key, and a base64 signature of the V1 message
  -- that verifies under it.
  pub sign_response_verified :
      (resp : SignableOrderResponse) (signed : SignedOrderResponse)
      → sign_response l (some sk) resp ≡ done signed
      → (signed.response ≡ resp)
        × (l.base64.decode signed.public_key ≡ some (pk l sk))
        × ((msg : Bytes) × (signing_message l.bcs resp ≡ done msg)
            × Signs l (pk l sk) msg signed.signature)
  sign_response_verified resp signed h =
      let (msg, e, same) = sign_response_done l sk resp h in
      (
        ap (λ (s : SignedOrderResponse). s.response) (sym same),
        ap (λ (s : SignedOrderResponse). l.base64.decode s.public_key) (sym same)
            ∙ L.base64.decode-encode (pk l sk),
        (msg, e, rw (← same) (Signs-sign msg)),
      )

  sign_v2_done :
      (resp : SignableOrderResponse) (v2 : OrderV2Fields) {text : Bytes}
      → sign_v2 l (some sk) resp v2 ≡ done (ok text)
      → (msg : Bytes) × (signing_message_v2 l.bcs resp v2 ≡ done (ok msg))
        × Signs l (pk l sk) msg text
  unfolding sign_v2 sign
  sign_v2_done resp v2 {text} h =
      let (msg, e, h') =
        >>=?-eq-ok (signing_message_v2 l.bcs resp v2)
          (λ msg. done (ok (l.base64.encode (l.ed25519.sign sk msg)))) h in
      let same : l.base64.encode (l.ed25519.sign sk msg) ≡ text = cc in
      (msg, e, rw (← same) (Signs-sign msg))

  -- With lawful libraries and a key, a V2 signature in a response that `sign_response_with_v2`
  -- returns verifies for the V2 message of the fields in the request, which are echoed, under the
  -- public key beside the V1 signature.
  pub sign_response_with_v2_verified :
      (resp : SignableOrderResponse) (v2 : Option OrderV2Fields) (signed : SignedOrderResponse)
      (text : Bytes)
      → sign_response_with_v2 l (some sk) resp v2 ≡ done signed
      → signed.signature_v2 ≡ some text
      → (f : OrderV2Fields) × (msg : Bytes) × (v2 ≡ some f)
        × (signed.v2 ≡ some f)
        × (signing_message_v2 l.bcs resp f ≡ done (ok msg))
        × Signs l (pk l sk) msg text
        × (l.base64.decode signed.public_key ≡ some (pk l sk))
  sign_response_with_v2_verified resp v2 signed text h st =
      let (v1, added) = sign_response_with_v2_done l sk resp v2 signed h in
      let key : l.base64.decode signed.public_key ≡ some (pk l sk) =
        (sign_response_verified resp _ v1).1 in
      elim added [
        | inl (n, _) ↦ cc
        | inr (f, text', e₁, e₂, e₃, e₄) ↦
            let same : text' ≡ text = cc in
            let (msg, written, signs) = sign_v2_done resp f e₄ in
            (f, msg, e₁, e₂, written, subst (λ t. Signs l (pk l sk) msg t) same signs, key)
      ]
