-- ===== src/Orders/Hex/Panics.antt =====
-- orders/order.rs: the texts on which `parse_hex_bytes` panics, and those on which it does not.
use artos_nautilus_server.Prelude.{
  ℕ, zero, suc, ◌*◌, ◌≡◌, ◌≢◌, ◌<◌, refl, subst, ◌∙◌, inl, inr, true, false, some, [], ◌∷◌, ◌++◌,
  Bytes, ◌==◌, arith, IsByte, All, Bool-cases, Option-cases, length, ==_iff, codes,
}
use mathlib.Core.Option.{some-injective}
use artos_nautilus_server.Rust.Outcome.{done, panicked, Result, ok, err, Fallible, ◌>>=?◌}
use artos_nautilus_server.Rust.Text.{strip_prefix, starts_char}
use artos_nautilus_server.Orders.Hex.{parse_pair, parse_hex_bytes}
use artos_nautilus_server.Orders.Hex.Decode.{cuts, decode_pairs, trim, parse_hex_bytes-decode_pairs}
use artos_nautilus_server.Orders.Hex.Digits.{parse_pair_lem}
use artos_nautilus_server.Orders.Hex.Inputs.{
  Reads, Pair-ascii, hex_encode, hex_encode-Reads, trim-prefix, pair, nothing,
}

cuts_ascii : (s : Bytes) → All (λ b. b < 128) s → cuts s ≡ true
cuts_ascii [] h = refl
cuts_ascii (x ∷ s) (hx, h) = ground arith

step-ne-panicked :
    (read : Result Bytes ℕ) (more : Fallible Bytes Bytes)
    → more ≢ panicked
    → (done read >>=? λ b. more >>=? λ bs. done (ok (b ∷ bs))) ≢ panicked
step-ne-panicked (ok b) (done (ok bs)) h e = cc
step-ne-panicked (ok b) (done (err x)) h e = cc
step-ne-panicked (ok b) panicked h e = h refl
step-ne-panicked (err x) more h e = cc

decode_pairs_ascii :
    (k : ℕ) (s : Bytes) → length s ≡ k * 2 → All (λ b. b < 128) s → decode_pairs s ≢ panicked
unfolding decode_pairs
decode_pairs_ascii zero [] e h p = cc
decode_pairs_ascii zero (c ∷ s) e h p = absurd (omega arith)
decode_pairs_ascii (suc k) [] e h p = absurd (omega arith)
decode_pairs_ascii (suc k) (c ∷ []) e h p = absurd (omega arith)
decode_pairs_ascii (suc k) (c ∷ d ∷ s) e (hc, (hd, h)) p =
    step-ne-panicked (parse_pair (c ∷ d ∷ [])) (decode_pairs s)
      (decode_pairs_ascii k s (omega arith) h) (rw (cuts_ascii s h) at p)

strip_prefix_ascii :
    (p s : Bytes) {r : Bytes}
    → All (λ b. b < 128) s
    → strip_prefix p s ≡ some r
    → All (λ b. b < 128) r
unfolding strip_prefix
strip_prefix_ascii [] s {r} h e = subst (All (λ b. b < 128)) (some-injective s r e) h
strip_prefix_ascii (q ∷ p) [] h e = absurd (cc)
strip_prefix_ascii (q ∷ p) (c ∷ s) {r} (hc, h) e = strip_prefix_ascii p s h (ground arith)

-- On every ASCII text, of any length and content, `parse_hex_bytes` returns and does not panic.
pub parse_hex_bytes_ascii :
    (n : ℕ) (s : Bytes) → All (λ b. b < 128) s → parse_hex_bytes n s ≢ panicked
parse_hex_bytes_ascii n s h p = elim (Bool-cases (length (trim s) == n * 2)) [
  | inl same ↦
      decode_pairs_ascii n (trim s) ((==_iff _ _).0 same) trimmed
        (rw (parse_hex_bytes-decode_pairs, same) at p)
  | inr other ↦ absurd (ground (arith, parse_hex_bytes-decode_pairs n s))
]
  where
    trimmed : All (λ b. b < 128) (trim s)
    trimmed = elim (Option-cases (strip_prefix (codes "0x") s)) [
      | inl e ↦ rw e h
      | inr (r, e) ↦ rw e (strip_prefix_ascii (codes "0x") s h e)
    ]

decode_pairs-cons :
    (c d : ℕ) (rest : Bytes) {b : ℕ}
    → cuts rest ≡ true
    → parse_pair (c ∷ d ∷ []) ≡ ok b
    → decode_pairs (c ∷ d ∷ rest) ≡ (decode_pairs rest >>=? λ bs. done (ok (b ∷ bs)))
unfolding decode_pairs
decode_pairs-cons c d rest h e = rw (h, e)

cuts-append :
    {s bs : Bytes} (c : ℕ) (rest : Bytes)
    → starts_char c ≡ true
    → Reads s bs
    → cuts (s ++ (c ∷ rest)) ≡ true
cuts-append c rest hc nothing = hc
cuts-append c rest hc (pair {c = c'} {d} {b} p r) = ground (arith, Pair-ascii c' d b p)

decode_pairs_inside :
    {s bs : Bytes} (c d x : ℕ) (rest : Bytes)
    → starts_char x ≡ false
    → starts_char c ≡ true
    → Reads s bs
    → decode_pairs (s ++ (c ∷ d ∷ x ∷ rest)) ≡ panicked
decode_pairs_inside c d x rest hx hc nothing = unfold decode_pairs in rw hx
decode_pairs_inside c d x rest hx hc (pair {c = c'} {d = d'} {b} {s} p r) =
    decode_pairs-cons c' d' (s ++ (c ∷ d ∷ x ∷ rest)) (cuts-append c (d ∷ x ∷ rest) hc r)
      (parse_pair_lem c' d' b p)
    ∙ rw (decode_pairs_inside c d x rest hx hc r)

-- Where a character begins behind some pairs and its third byte continues it, the slice of its first
-- two bytes panics, if the text has the length that is asked for.
pub parse_hex_bytes_panics :
    (n : ℕ) (bs : Bytes) (c d x : ℕ) (rest : Bytes)
    → All IsByte bs
    → starts_char c ≡ true
    → starts_char x ≡ false
    → length (hex_encode bs ++ (c ∷ d ∷ x ∷ rest)) ≡ n * 2
    → parse_hex_bytes n (codes "0x" ++ (hex_encode bs ++ (c ∷ d ∷ x ∷ rest))) ≡ panicked
parse_hex_bytes_panics n bs c d x rest hb hc hx size =
    rw (parse_hex_bytes-decode_pairs, trim-prefix, (==_iff _ _).1 size)
      (decode_pairs_inside c d x rest hx hc (hex_encode-Reads bs hb))
