-- ===== src/Rust/Num/RoundTrip.antt =====
-- Printing a number and reading it.
use artos_nautilus_server.Prelude.{
  ℕ, zero, suc, ◌+◌, ◌*◌, ◌/◌, ◌%◌, ◌^◌, ◌≤◌, ◌<◌, ◌≡◌, refl, ap, ◌∙◌, false, some, [], ◌∷◌, ◌++◌,
  Bytes, ltb, arith, Bool-cases, Option-cases, inl, inr, ltb→lt, lt→ltb,
}
use artos_nautilus_server.Rust.Outcome.{Result, ok, err}
use artos_nautilus_server.Rust.Num.{
  IntError, to_digit, parse_digits, from_str_radix, show_digits, show_nat,
}
use native.Mathlib.Nat.{pow-suc}

abbrev then_digits : (max : ℕ) → Result IntError ℕ → Bytes → Result IntError ℕ
then_digits max (ok acc) s = parse_digits max 10 acc s
then_digits max (err e) s = err e

parse_digits-append :
    (max acc : ℕ) (s t : Bytes)
    → parse_digits max 10 acc (s ++ t) ≡ then_digits max (parse_digits max 10 acc s) t
unfolding parse_digits
parse_digits-append max acc [] t = refl
parse_digits-append max acc (c ∷ s) t = elim (Option-cases (to_digit 10 c)) [
  | inl h ↦ rw (h, parse_digits)
  | inr (d, h) ↦ rw (h, parse_digits) (ground (arith, parse_digits-append max (acc * 10 + d) s t))
]

to_digit_decimal : (d : ℕ) → d < 10 → to_digit 10 (b'0' + d) ≡ some d
unfolding to_digit
to_digit_decimal d h = ground arith

parse_digit :
    (max acc d : ℕ)
    → d < 10
    → acc * 10 + d ≤ max
    → parse_digits max 10 acc ((b'0' + d) ∷ []) ≡ ok (acc * 10 + d)
unfolding parse_digits
parse_digit max acc d hd h = rw (to_digit_decimal d hd, parse_digits) (ground arith)

show_digits-small : (fuel n : ℕ) → n < 10 → show_digits (suc fuel) n ≡ (b'0' + n) ∷ []
unfolding show_digits
show_digits-small fuel n h = rw (lt→ltb n 10 h)

show_digits-large :
    (fuel n : ℕ)
    → ltb n 10 ≡ false
    → show_digits (suc fuel) n ≡ show_digits fuel (n / 10) ++ ((b'0' + n % 10) ∷ [])
unfolding show_digits
show_digits-large fuel n h = rw h

parse_small :
    (fuel max n : ℕ) → n < 10 → n ≤ max → parse_digits max 10 0 (show_digits (suc fuel) n) ≡ ok n
parse_small fuel max n h hm =
    rw (show_digits-small fuel n h) (parse_digit max 0 n h (omega arith) ∙ ap ok (omega arith))

parse_digits-show_digits :
    (fuel max n : ℕ)
    → n < 10 ^ suc fuel
    → n ≤ max
    → parse_digits max 10 0 (show_digits (suc fuel) n) ≡ ok n
parse_digits-show_digits zero max n h hm = parse_small zero max n (omega arith) hm
parse_digits-show_digits (suc fuel) max n h hm = elim (Bool-cases (ltb n 10)) [
  | inl small ↦ parse_small (suc fuel) max n (ltb→lt _ _ small) hm
  | inr large ↦
      rw
        (
          show_digits-large (suc fuel) n large,
          parse_digits-append max 0 (show_digits (suc fuel) (n / 10)),
          parse_digits-show_digits fuel max (n / 10) (omega (arith, pow-suc 10 (suc fuel)))
              (omega arith),
        )
        (parse_digit max (n / 10) (n % 10) (omega arith) (omega arith) ∙ ap ok (omega arith))
]

abbrev NoPlus : Bytes → Type 0
NoPlus [] = ⊥
NoPlus (c ∷ s) = b'0' ≤ c

NoPlus-append : (s t : Bytes) → NoPlus s → NoPlus (s ++ t)
NoPlus-append [] t h = absurd h
NoPlus-append (c ∷ s) t h = h

NoPlus-show_digits : (fuel n : ℕ) → n < 10 ^ suc fuel → NoPlus (show_digits (suc fuel) n)
NoPlus-show_digits zero n h = rw (show_digits-small zero n (omega arith)) (omega arith)
NoPlus-show_digits (suc fuel) n h = elim (Bool-cases (ltb n 10)) [
  | inl small ↦ rw (show_digits-small (suc fuel) n (ltb→lt _ _ small)) (omega arith)
  | inr large ↦
      rw (show_digits-large (suc fuel) n large) (
        NoPlus-append _ _ (NoPlus-show_digits fuel (n / 10) (omega (arith, pow-suc 10 (suc fuel)))))
]

from_str_radix-digits :
    (max radix : ℕ) (s : Bytes) → NoPlus s → from_str_radix max radix s ≡ parse_digits max radix 0 s
unfolding from_str_radix
from_str_radix-digits max radix [] h = absurd h
from_str_radix-digits max radix (c ∷ []) h = ground arith
from_str_radix-digits max radix (c ∷ d ∷ s) h = ground arith

-- Every number below 10 ^ 20 that the type holds is read back from its decimal digits.
pub from_str_radix-show_nat :
    (max n : ℕ) → n < 10 ^ 20 → n ≤ max → from_str_radix max 10 (show_nat n) ≡ ok n
unfolding show_nat
from_str_radix-show_nat max n h hm =
    from_str_radix-digits max 10 (show_digits 20 n) (NoPlus-show_digits 19 n h)
    ∙ parse_digits-show_digits 19 max n h hm
