-- ===== src/Orders/Hex/Inputs.antt =====
-- orders/order.rs: the texts that `parse_hex_bytes` reads.
use artos_nautilus_server.Prelude.{
  ℕ, ◌*◌, ◌/◌, ◌%◌, ◌≡◌, ◌<◌, refl, subst, ◌↔◌, inl, inr, true, [], ◌∷◌, ◌++◌, Bytes, ◌==◌, arith,
  IsByte, All, Bool-cases, length, ==_iff, codes,
}
use artos_nautilus_server.Rust.Outcome.{>>=?-eq-ok, done, ok, ◌>>=?◌}
use artos_nautilus_server.Rust.Text.{strip_prefix}
use artos_nautilus_server.Orders.Hex.{parse_pair, parse_hex_bytes}
use artos_nautilus_server.Orders.Hex.Decode.{cuts, decode_pairs, trim, parse_hex_bytes-decode_pairs}
use artos_nautilus_server.Orders.Hex.Digits.{
  hex_digit, hex_digit-HexDigit, Pair, parse_pair_lem, parse_pair→Pair, Pair-IsByte,
}

-- The text is the pairs of the bytes, one after the other.
pub data Reads : Bytes → Bytes → Type 0 where
  nothing : Reads [] []
  pair : {c d b : ℕ} {s bs : Bytes} → Pair c d b → Reads s bs → Reads (c ∷ d ∷ s) (b ∷ bs)

pub Pair-ascii : (c d b : ℕ) → Pair c d b → (c < 128) × (d < 128)
Pair-ascii c d b p = ground arith

cuts-Reads : {s bs : Bytes} → Reads s bs → cuts s ≡ true
cuts-Reads nothing = refl
cuts-Reads (pair {c} {d} {b} p r) = ground (arith, Pair-ascii c d b p)

Reads→decode_pairs : {s bs : Bytes} → Reads s bs → decode_pairs s ≡ done (ok bs)
unfolding decode_pairs
Reads→decode_pairs nothing = refl
Reads→decode_pairs (pair {c} {d} {b} p r) =
    rw (cuts-Reads r, parse_pair_lem c d b p, Reads→decode_pairs r)

decode_pairs→Reads : (s bs : Bytes) → decode_pairs s ≡ done (ok bs) → Reads s bs
unfolding decode_pairs
decode_pairs→Reads [] [] h = nothing
decode_pairs→Reads [] (b ∷ bs) h = absurd (cc)
decode_pairs→Reads (c ∷ []) bs h = absurd (cc)
decode_pairs→Reads (c ∷ d ∷ s) bs h = elim (Bool-cases (cuts s)) [
  | inl inside ↦
      let (b, read, h') =
        >>=?-eq-ok (done (parse_pair (c ∷ d ∷ [])))
          (λ b. decode_pairs s >>=? λ bs. done (ok (b ∷ bs))) (rw inside at h) in
      let (rest, more, e) = >>=?-eq-ok (decode_pairs s) (λ bs. done (ok (b ∷ bs))) h' in
      let same : b ∷ rest ≡ bs = cc in
      subst (λ l. Reads (c ∷ d ∷ s) l) same
        (pair (parse_pair→Pair c d b (cc)) (decode_pairs→Reads s rest more))
  | inr outside ↦ absurd (ground arith)
]

-- `parse_hex_bytes` returns `out` exactly for the texts that, without one `0x`, have 2 * n bytes
-- and are the pairs of `out`: two hexadecimal digits of either case, or a plus sign and one digit.
pub parse_hex_bytes-Reads :
    (n : ℕ) (s out : Bytes)
    → (parse_hex_bytes n s ≡ done (ok out)) ↔ ((length (trim s) ≡ n * 2) × Reads (trim s) out)
parse_hex_bytes-Reads n s out = (to, from)
  where
    to : parse_hex_bytes n s ≡ done (ok out) → (length (trim s) ≡ n * 2) × Reads (trim s) out
    to h = elim (Bool-cases (length (trim s) == n * 2)) [
      | inl same ↦ (
        (==_iff _ _).0 same,
        decode_pairs→Reads (trim s) out (rw (parse_hex_bytes-decode_pairs, same) at h),
      )
      | inr other ↦ absurd (ground (arith, parse_hex_bytes-decode_pairs n s))
    ]

    from : (length (trim s) ≡ n * 2) × Reads (trim s) out → parse_hex_bytes n s ≡ done (ok out)
    from (same, r) = rw (parse_hex_bytes-decode_pairs, (==_iff _ _).1 same) (Reads→decode_pairs r)

Reads-length : {s bs : Bytes} → Reads s bs → length s ≡ length bs * 2
Reads-length nothing = omega arith
Reads-length (pair p r) = omega (arith, Reads-length r)

Reads-IsByte : {s bs : Bytes} → Reads s bs → All IsByte bs
Reads-IsByte nothing = tt
Reads-IsByte (pair {c} {d} {b} p r) = (Pair-IsByte c d b p, Reads-IsByte r)

-- A result is an array of `n` bytes.
pub parse_hex_bytes_array :
    (n : ℕ) (s out : Bytes)
    → parse_hex_bytes n s ≡ done (ok out)
    → (length out ≡ n) × All IsByte out
parse_hex_bytes_array n s out h =
    let (size, r) = (parse_hex_bytes-Reads n s out).0 h in
    (omega (arith, Reads-length r), Reads-IsByte r)

-- Bytes in lower-case hexadecimal.
abbrev pub hex_encode : Bytes → Bytes
hex_encode [] = []
hex_encode (b ∷ bs) = hex_digit (b / 16) ∷ hex_digit (b % 16) ∷ hex_encode bs

-- One hexadecimal digit behind a plus sign for each byte.
abbrev pub plus_encode : Bytes → Bytes
plus_encode [] = []
plus_encode (b ∷ bs) = b'+' ∷ hex_digit b ∷ plus_encode bs

pub hex_encode-Reads : (bs : Bytes) → All IsByte bs → Reads (hex_encode bs) bs
hex_encode-Reads [] h = nothing
hex_encode-Reads (b ∷ bs) (hb, h) =
    pair
      (inl (
        b / 16,
        b % 16,
        hex_digit-HexDigit (b / 16) (omega arith),
        hex_digit-HexDigit (b % 16) (omega arith),
        omega arith,
      ))
      (hex_encode-Reads bs h)

plus_encode-Reads : (bs : Bytes) → All (λ b. b < 16) bs → Reads (plus_encode bs) bs
plus_encode-Reads [] h = nothing
plus_encode-Reads (b ∷ bs) (hb, h) =
    pair (inr (refl, hex_digit-HexDigit b hb)) (plus_encode-Reads bs h)

-- A text of digits does not begin with the prefix, and the prefix is taken off once.
trim-Reads : {s bs : Bytes} → Reads s bs → trim s ≡ s
unfolding strip_prefix
trim-Reads nothing = refl
trim-Reads (pair {c} {d} {b} p r) = ground arith

pub trim-prefix : (s : Bytes) → trim (codes "0x" ++ s) ≡ s
unfolding strip_prefix
trim-prefix s = refl

Reads→parse_hex_bytes :
    (n : ℕ) (s bs : Bytes)
    → length bs ≡ n
    → Reads s bs
    → (parse_hex_bytes n s ≡ done (ok bs)) × (parse_hex_bytes n (codes "0x" ++ s) ≡ done (ok bs))
Reads→parse_hex_bytes n s bs h r =
    let size : length s ≡ n * 2 = omega (arith, Reads-length r) in
    (
      (parse_hex_bytes-Reads n s bs).1 (rw (trim-Reads r) (size, r)),
      (parse_hex_bytes-Reads n _ bs).1 (rw (trim-prefix s) (size, r)),
    )

-- `n` bytes written in lower-case hexadecimal are read back by `parse_hex_bytes`, with and without
-- `0x` in front.
pub parse_hex_bytes-hex_encode :
    (n : ℕ) (bs : Bytes)
    → length bs ≡ n
    → All IsByte bs
    → (parse_hex_bytes n (hex_encode bs) ≡ done (ok bs))
      × (parse_hex_bytes n (codes "0x" ++ hex_encode bs) ≡ done (ok bs))
parse_hex_bytes-hex_encode n bs h hb =
    Reads→parse_hex_bytes n (hex_encode bs) bs h (hex_encode-Reads bs hb)

-- `parse_hex_bytes` reads `n` bytes below 16 from a text that is no hexadecimal number, in which
-- each byte is a plus sign and one digit.
pub parse_hex_bytes-plus_encode :
    (n : ℕ) (bs : Bytes)
    → length bs ≡ n
    → All (λ b. b < 16) bs
    → parse_hex_bytes n (plus_encode bs) ≡ done (ok bs)
parse_hex_bytes-plus_encode n bs h hb =
    (Reads→parse_hex_bytes n (plus_encode bs) bs h (plus_encode-Reads bs hb)).0
