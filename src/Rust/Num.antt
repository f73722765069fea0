-- ===== src/Rust/Num.antt =====
-- Numbers read from text (`from_str_radix`, `parse`) and printed (`Display`).
pub mod RoundTrip
use artos_nautilus_server.Prelude.{
  ℕ, zero, suc, ◌+◌, ◌-◌, ◌*◌, ◌/◌, ◌%◌, ◌≤◌, ◌<◌, ◌≡◌, Bool, true, false, ◌&&◌, Option, none, some,
  List, [], ◌∷◌, ◌++◌, Bytes, ltb, leb, ◌==◌, if◌then◌else◌, codes,
}
use artos_nautilus_server.Rust.Outcome.{Result, ok, err}

-- The kinds of `ParseIntError` that an unsigned type can give.
pub data IntError : Type 0 where
  empty invalid_digit pos_overflow : IntError

-- `Display` of `ParseIntError`
abbrev pub show_int_error : IntError → Bytes
show_int_error empty = codes "cannot parse integer from empty string"
show_int_error invalid_digit = codes "invalid digit found in string"
show_int_error pos_overflow = codes "number too large to fit in target type"

abbrev pub below : ℕ → ℕ → Option ℕ
below radix d = if ltb d radix then some d else none

-- `char::to_digit` on one byte
unfoldable pub to_digit : ℕ → ℕ → Option ℕ
to_digit radix c =
    if leb b'0' c && leb c b'9'
    then below radix (c - b'0')
    else if leb b'a' c && leb c b'z'
    then below radix (c - b'a' + 10)
    else if leb b'A' c && leb c b'Z'
    then below radix (c - b'A' + 10)
    else none

-- The loop over the digits. A wrong digit is reported before an overflow.
unfoldable pub parse_digits : (max radix : ℕ) → ℕ → Bytes → Result IntError ℕ
parse_digits max radix acc [] = ok acc
parse_digits max radix acc (c ∷ s) = elim (to_digit radix c) [
  | none ↦ err invalid_digit
  | some d ↦
      if leb (acc * radix) max && leb (acc * radix + d) max
      then parse_digits max radix (acc * radix + d) s
      else err pos_overflow
]

-- `uN::from_str_radix`, where `max` is the largest value of the type. One leading `+` is allowed.
unfoldable pub from_str_radix : (max radix : ℕ) → Bytes → Result IntError ℕ
unfolding parse_digits
from_str_radix max radix [] = err empty
from_str_radix max radix (c ∷ []) =
    if c == b'+' then err invalid_digit else parse_digits max radix 0 (c ∷ [])
from_str_radix max radix (c ∷ d ∷ s) =
    if c == b'+' then parse_digits max radix 0 (d ∷ s) else parse_digits max radix 0 (c ∷ d ∷ s)

-- `Display` of a `usize` or `u16`. The fuel 20 covers every number below 10 ^ 20.
unfoldable pub show_digits : ℕ → ℕ → Bytes
show_digits zero n = []
show_digits (suc fuel) n =
    let rest = show_digits fuel (n / 10) in
    if ltb n 10 then (b'0' + n) ∷ [] else rest ++ ((b'0' + n % 10) ∷ [])

unfoldable pub show_nat : ℕ → Bytes
unfolding show_digits
show_nat n = show_digits 20 n
