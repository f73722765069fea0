-- ===== src/Orders/Signing/Shadow.antt =====
-- orders/order.rs: `sign_response_with_v2` when V2 fails.
use artos_nautilus_server.Prelude.{
  ◌≡◌, ◌≢◌, ◌<◌, ◌++◌, ◌∷◌, ℕ, ◌⊎◌, inl, inr, ap, ◌∙◌, some, Bytes, codes, true, false, All, IsByte,
  length,
}
use artos_nautilus_server.Rust.Outcome.{
  done, panicked, ok, err, >>=?-ne-panicked, map_err-ne-panicked, Outcome-cases, Result-cases,
}
use artos_nautilus_server.Rust.Text.{starts_char}
use artos_nautilus_server.External.{Libraries}
use artos_nautilus_server.Orders.Types.{OrderV2Fields, SignableOrderResponse, SignedOrderResponse}
use artos_nautilus_server.Orders.Hex.{parse_hex_bytes}
use artos_nautilus_server.Orders.Hex.Inputs.{hex_encode}
use artos_nautilus_server.Orders.Hex.Panics.{parse_hex_bytes_ascii, parse_hex_bytes_panics}
use artos_nautilus_server.Orders.Message.{signing_message_v2}
use artos_nautilus_server.Orders.Crypto.{Cell, sign}
use artos_nautilus_server.Orders.Signing.{sign_response, sign_v2, add_v2, sign_response_with_v2}

-- The three hexadecimal fields are ASCII.
pub record FieldsAreAscii (f : OrderV2Fields) : Type 0 where
  pub escrow_id : All (λ b. b < 128) f.escrow_id
  pub recipient : All (λ b. b < 128) f.recipient
  pub nonce : All (λ b. b < 128) f.nonce

module _ (l : Libraries) where
  signing_message_v2_ascii :
      (resp : SignableOrderResponse) (f : OrderV2Fields)
      → FieldsAreAscii f
      → signing_message_v2 l.bcs resp f ≢ panicked
  unfolding signing_message_v2
  signing_message_v2_ascii resp f h =
      >>=?-ne-panicked _ _
        (map_err-ne-panicked _ _ (parse_hex_bytes_ascii 32 f.escrow_id h.escrow_id))
        λ e.
          >>=?-ne-panicked _ _
            (map_err-ne-panicked _ _ (parse_hex_bytes_ascii 32 f.recipient h.recipient))
            λ r.
              >>=?-ne-panicked _ _
                (map_err-ne-panicked _ _ (parse_hex_bytes_ascii 16 f.nonce h.nonce)) λ n p. cc

  sign_v2_ascii :
      (sk : l.ed25519.SigningKey) (resp : SignableOrderResponse) (f : OrderV2Fields)
      → FieldsAreAscii f
      → sign_v2 l (some sk) resp f ≢ panicked
  unfolding sign_v2 sign
  sign_v2_ascii sk resp f h =
      >>=?-ne-panicked (signing_message_v2 l.bcs resp f) _ (signing_message_v2_ascii resp f h)
        λ m p. cc

  -- With a key and ASCII V2 fields, well formed or not, if `sign_response` returns then
  -- `sign_response_with_v2` returns too: the same response if `sign_v2` returns an error, and that
  -- response with the V2 signature and the fields added if it returns a signature.
  pub sign_response_with_v2_ascii :
      (sk : l.ed25519.SigningKey) (resp : SignableOrderResponse) (f : OrderV2Fields)
      (v1 : SignedOrderResponse)
      → FieldsAreAscii f
      → sign_response l (some sk) resp ≡ done v1
      → ((e : Bytes) × (sign_v2 l (some sk) resp f ≡ done (err e))
          × (sign_response_with_v2 l (some sk) resp (some f) ≡ done v1))
        ⊎ ((text : Bytes) × (sign_v2 l (some sk) resp f ≡ done (ok text))
            × (sign_response_with_v2 l (some sk) resp (some f)
                ≡ done (record v1 { signature_v2 = some text; v2 = some f })))
  unfolding sign_response_with_v2 add_v2
  sign_response_with_v2_ascii sk resp f v1 h e = elim (Outcome-cases (sign_v2 l (some sk) resp f)) [
    | inr p ↦ absurd (sign_v2_ascii sk resp f h p)
    | inl (r, er) ↦ elim (Result-cases r) [
      | inl (text, et) ↦ inr (text, er ∙ ap done et, rw (e, er, et))
      | inr (x, ex) ↦ inl (x, er ∙ ap done ex, rw (e, er, ex))
    ]
  ]

  -- With an `escrow_id` of `0x` and 64 bytes, in which behind some hexadecimal pairs a character
  -- begins whose third byte is a continuation byte, `sign_response_with_v2` panics, whatever the
  -- key and the response are.
  pub sign_response_with_v2_panics :
      (key : Cell l.ed25519) (resp : SignableOrderResponse) (f : OrderV2Fields) (bs : Bytes)
      (c d x : ℕ) (rest : Bytes)
      → All IsByte bs
      → starts_char c ≡ true
      → starts_char x ≡ false
      → length (hex_encode bs ++ (c ∷ d ∷ x ∷ rest)) ≡ 64
      → f.escrow_id ≡ codes "0x" ++ (hex_encode bs ++ (c ∷ d ∷ x ∷ rest))
      → sign_response_with_v2 l key resp (some f) ≡ panicked
  unfolding sign_response_with_v2 sign_v2 signing_message_v2 add_v2
  sign_response_with_v2_panics key resp f bs c d x rest hb hc hx size e =
      let parsed : parse_hex_bytes 32 f.escrow_id ≡ panicked =
        rw e (parse_hex_bytes_panics 32 bs c d x rest hb hc hx size) in
      elim (Outcome-cases (sign_response l key resp)) [
        | inl (v1, ev) ↦ rw (ev, parsed)
        | inr p ↦ rw p
      ]
