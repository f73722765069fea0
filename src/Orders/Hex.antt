-- ===== src/Orders/Hex.antt =====
-- orders/order.rs: `parse_hex_bytes`.
pub mod Decode
pub mod Digits
pub mod Inputs
pub mod Panics
use artos_nautilus_server.Prelude.{
  ℕ, zero, suc, ◌+◌, ◌*◌, ◌≡◌, Bool, true, false, not, Option, none, some, List, [], ◌∷◌, ◌++◌,
  Bytes, ltb, leb, ◌==◌, if◌then◌else◌, length, set, replicate, codes,
}
use artos_nautilus_server.Rust.Outcome.{
  Outcome, done, panicked, Result, ok, err, Fallible, ◌>>=?◌ as ◌>>=◌, map_err, map_result_err,
}
use artos_nautilus_server.Rust.Text.{strip_prefix, unwrap_or, slice}
use artos_nautilus_server.Rust.Num.{IntError, show_int_error, from_str_radix, show_nat}

-- `u8::from_str_radix(pair, 16).map_err(...)`
unfoldable pub parse_pair : Bytes → Result Bytes ℕ
parse_pair pair =
    map_result_err (λ e. codes "non-hex character: " ++ show_int_error e)
      (from_str_radix 255 16 pair)

-- One round: the slice, which may panic, the number and its `?`.
unfoldable pub parse_at : Bytes → ℕ → Fallible Bytes ℕ
parse_at trimmed i = elim (slice trimmed (i * 2) (i * 2 + 2)) [
  | done pair ↦ done (parse_pair pair)
  | panicked ↦ panicked
]

-- The loop `for i in i..i + rounds`, with the array `out`.
unfoldable pub parse_loop : ℕ → ℕ → Bytes → Bytes → Fallible Bytes Bytes
parse_loop zero i trimmed out = done (ok out)
parse_loop (suc rounds) i trimmed out = do
  byte ← parse_at trimmed i
  parse_loop rounds (i + 1) trimmed (set out i byte)

abbrev pub wrong_length : ℕ → ℕ → Bytes
wrong_length n got =
    codes "expected "
    ++ (show_nat n
        ++ (codes "-byte hex (" ++ (show_nat (n * 2) ++ (codes " chars), got " ++ show_nat got))))

unfoldable pub parse_hex_bytes : ℕ → Bytes → Fallible Bytes Bytes
parse_hex_bytes n s =
    let trimmed = unwrap_or (strip_prefix (codes "0x") s) s in
    if not (length trimmed == n * 2)
    then done (err (wrong_length n (length trimmed)))
    else parse_loop n 0 trimmed (replicate n 0)
