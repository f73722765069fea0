-- ===== src/Serde/Format.antt =====
-- The BCS encodings as codes: where they end, and what they tell of the value.
use artos_nautilus_server.Prelude.{
  ℕ, zero, suc, ◌/◌, ◌%◌, ◌^◌, ◌<◌, ◌≡◌, refl, ap, ◌++◌, Bytes, Option, none, some, length, arith,
  append_assoc, append_inj,
}
use artos_nautilus_server.Serde.Value.{little_endian, uleb128}
use artos_nautilus_server.Serde.Encode.{vec_bytes, option_bytes, Fits, OptionFits}
use native.Mathlib.Nat.{pow-suc}

pub little_endian_inj :
    (k n m : ℕ) {x y : Bytes}
    → n < 256 ^ k
    → m < 256 ^ k
    → little_endian k n ++ x ≡ little_endian k m ++ y
    → (n ≡ m) × (x ≡ y)
unfolding little_endian
little_endian_inj zero n m hn hm e = (omega arith, e)
little_endian_inj (suc k) n m {x} {y} hn hm e =
    let rest : (n / 256 ≡ m / 256) × (x ≡ y) =
      little_endian_inj k (n / 256) (m / 256) (omega (arith, pow-suc 256 k))
        (omega (arith, pow-suc 256 k)) (cc) in
    let low : n % 256 ≡ m % 256 = cc in (omega (arith, rest.0), rest.1)

uleb128_inj :
    (k n m : ℕ) {x y : Bytes}
    → uleb128 k n ++ x ≡ uleb128 k m ++ y
    → n < 128 ^ suc k
    → m < 128 ^ suc k
    → (n ≡ m) × (x ≡ y)
unfolding uleb128
uleb128_inj zero n m e hn hm = ground arith
uleb128_inj (suc k) n m {x} {y} e hn hm =
    ground (arith, uleb128_inj k (n / 128) (m / 128) {x = x} {y = y}, pow-suc 128 (suc k))

pub vec_bytes_inj :
    (a b : Bytes) {x y : Bytes}
    → Fits a
    → Fits b
    → vec_bytes a ++ x ≡ vec_bytes b ++ y
    → (a ≡ b) × (x ≡ y)
unfolding vec_bytes
vec_bytes_inj a b {x} {y} ha hb e =
    let (same, rest) =
      uleb128_inj 4 (length a) (length b) {x = a ++ x} {y = b ++ y}
        (rw (append_assoc, append_assoc) at e) (omega arith) (omega arith) in
    append_inj a b same rest

pub option_bytes_inj :
    (a b : Option Bytes) {x y : Bytes}
    → OptionFits a
    → OptionFits b
    → option_bytes a ++ x ≡ option_bytes b ++ y
    → (a ≡ b) × (x ≡ y)
unfolding option_bytes
option_bytes_inj none none ha hb e = (refl, cc)
option_bytes_inj none (some b) ha hb e = cc
option_bytes_inj (some a) none ha hb e = cc
option_bytes_inj (some a) (some b) {x} {y} ha hb e =
    let (same, rest) = vec_bytes_inj a b {x = x} {y = y} ha hb (cc) in (ap some same, rest)
