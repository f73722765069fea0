-- ===== src/Rust/Text.antt =====
-- `&str` as bytes: prefixes, slices that panic inside a character, and substring search.
use artos_nautilus_server.Prelude.{
  ℕ, zero, suc, ◌-◌, Bool, true, false, ◌&&◌, ◌||◌, Option, none, some, [], ◌∷◌, Bytes, ltb, leb,
  ◌==◌, if◌then◌else◌, length, get_elem?, take, drop,
}
use artos_nautilus_server.Rust.Outcome.{Outcome, done, panicked}

-- `str::strip_prefix`
unfoldable pub strip_prefix : Bytes → Bytes → Option Bytes
strip_prefix [] s = some s
strip_prefix (p ∷ ps) [] = none
strip_prefix (p ∷ ps) (c ∷ s) = if p == c then strip_prefix ps s else none

abbrev pub unwrap_or {ℓ} : {A : Type ℓ} → Option A → A → A
unwrap_or none a = a
unwrap_or (some b) a = b

-- A byte that begins a character: no continuation byte `0b10xx_xxxx`.
abbrev pub starts_char : ℕ → Bool
starts_char b = ltb b 128 || leb 192 b

-- `str::is_char_boundary`
unfoldable pub is_char_boundary : Bytes → ℕ → Bool
is_char_boundary s zero = true
is_char_boundary s (suc i) = elim (get_elem? s (suc i)) [
  | none ↦ suc i == length s
  | some b ↦ starts_char b
]

-- `&s[from..to]`
unfoldable pub slice : Bytes → ℕ → ℕ → Outcome Bytes
slice s from to =
    if leb from to && is_char_boundary s from && is_char_boundary s to
    then done (take (to - from) (drop from s))
    else panicked

-- `str::starts_with` and `str::contains`
unfoldable pub starts_with : Bytes → Bytes → Bool
starts_with s [] = true
starts_with [] (p ∷ ps) = false
starts_with (c ∷ s) (p ∷ ps) = c == p && starts_with s ps

unfoldable pub contains : Bytes → Bytes → Bool
unfolding starts_with
contains [] p = starts_with [] p
contains (c ∷ s) p = starts_with (c ∷ s) p || contains s p
