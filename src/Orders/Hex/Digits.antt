-- ===== src/Orders/Hex/Digits.antt =====
-- orders/order.rs: two bytes as `u8::from_str_radix` reads them.
use artos_nautilus_server.Prelude.{
  ℕ, ◌+◌, ◌-◌, ◌*◌, ◌≡◌, ◌≤◌, ◌<◌, ◌⊎◌, inl, inr, some, [], ◌∷◌, ltb, ◌==◌, if◌then◌else◌, arith,
  IsByte, Bool-cases, Option-cases,
}
use artos_nautilus_server.Rust.Outcome.{ok}
use artos_nautilus_server.Rust.Num.{to_digit, from_str_radix}
use artos_nautilus_server.Orders.Hex.{parse_pair}

-- A hexadecimal digit in ASCII, of either case, and its value.
abbrev pub HexDigit : ℕ → ℕ → Type 0
HexDigit c v =
    ((b'0' ≤ c) × (c ≤ b'9') × (c ≡ b'0' + v))
    ⊎ (((b'a' ≤ c) × (c ≤ b'f') × (c + 10 ≡ b'a' + v))
        ⊎ ((b'A' ≤ c) × (c ≤ b'F') × (c + 10 ≡ b'A' + v)))

to_digit→HexDigit : (c v : ℕ) → to_digit 16 c ≡ some v → HexDigit c v
unfolding to_digit
to_digit→HexDigit c v h = ground arith

HexDigit→to_digit : (c v : ℕ) → HexDigit c v → to_digit 16 c ≡ some v
unfolding to_digit
HexDigit→to_digit c v h = ground arith

HexDigit-lt : (c v : ℕ) → HexDigit c v → v < 16
HexDigit-lt c v h = ground arith

-- The lower-case digit of a value.
abbrev pub hex_digit : ℕ → ℕ
hex_digit v = if ltb v 10 then b'0' + v else v - 10 + b'a'

pub hex_digit-HexDigit : (v : ℕ) → v < 16 → HexDigit (hex_digit v) v
hex_digit-HexDigit v h = ground arith

-- Two digits, or a plus sign and one digit.
abbrev pub Pair : ℕ → ℕ → ℕ → Type 0
Pair c d b =
    ((hi : ℕ) × (lo : ℕ) × HexDigit c hi × HexDigit d lo × (b ≡ hi * 16 + lo))
    ⊎ ((c ≡ b'+') × HexDigit d b)

pub parse_pair_lem : (c d b : ℕ) → Pair c d b → parse_pair (c ∷ d ∷ []) ≡ ok b
unfolding parse_pair from_str_radix
parse_pair_lem c d b (inl (hi, lo, hc, hd, e)) = ground (
  arith,
  HexDigit→to_digit c hi hc,
  HexDigit→to_digit d lo hd,
  HexDigit-lt c hi hc,
  HexDigit-lt d lo hd,
)
parse_pair_lem c d b (inr (plus, hd)) = ground (arith, HexDigit→to_digit d b hd, HexDigit-lt d b hd)

pub parse_pair→Pair : (c d b : ℕ) → parse_pair (c ∷ d ∷ []) ≡ ok b → Pair c d b
unfolding parse_pair from_str_radix
parse_pair→Pair c d b h = elim (Bool-cases (c == b'+')) [
  | inl plus ↦ elim (Option-cases (to_digit 16 d)) [
    | inl wrong ↦ absurd (ground arith)
    | inr (v, ed) ↦ inr (ground arith, to_digit→HexDigit d b (ground arith))
  ]
  | inr other ↦ elim (Option-cases (to_digit 16 c)) [
    | inl wrong ↦ absurd (ground arith)
    | inr (hi, ec) ↦ elim (Option-cases (to_digit 16 d)) [
      | inl wrong ↦ absurd (ground arith)
      | inr (lo, ed) ↦
          inl (hi, lo, to_digit→HexDigit c hi ec, to_digit→HexDigit d lo ed, ground arith)
    ]
  ]
]

pub Pair-IsByte : (c d b : ℕ) → Pair c d b → IsByte b
Pair-IsByte c d b (inl (hi, lo, hc, hd, e)) =
    ground (arith, HexDigit-lt c hi hc, HexDigit-lt d lo hd)
Pair-IsByte c d b (inr (plus, hd)) = ground (arith, HexDigit-lt d b hd)
