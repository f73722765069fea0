-- ===== src/Orders/Hex/Decode.antt =====
-- orders/order.rs: the loop of `parse_hex_bytes`, and a recursion on the text, two bytes at a
-- time.
use artos_nautilus_server.Prelude.{
  ℕ, zero, suc, ◌+◌, ◌-◌, ◌*◌, ◌≡◌, refl, ap, ◌∙◌, Bool, true, [], ◌∷◌, ◌++◌, Bytes, ◌==◌,
  if◌then◌else◌, length, set, replicate, take, drop, get_elem?, codes, arith, length-append,
  append_assoc, Bool-cases, inl, inr, ==_iff,
}
use artos_nautilus_server.Rust.Outcome.{done, panicked, Result, ok, err, Fallible, ◌>>=?◌}
use artos_nautilus_server.Rust.Text.{strip_prefix, unwrap_or, slice, is_char_boundary, starts_char}
use artos_nautilus_server.Orders.Hex.{
  parse_pair, parse_at, parse_loop, parse_hex_bytes, wrong_length,
}

-- A pair of bytes may be cut off in front of `rest`.
abbrev pub cuts : Bytes → Bool
cuts [] = true
cuts (x ∷ rest) = starts_char x

-- Pair by pair. A cut inside a character panics, an error stops.
unfoldable pub decode_pairs : Bytes → Fallible Bytes Bytes
decode_pairs [] = done (ok [])
decode_pairs (c ∷ []) = panicked
decode_pairs (c ∷ d ∷ rest) =
    let more = decode_pairs rest in
    if cuts rest
    then done (parse_pair (c ∷ d ∷ [])) >>=? (λ b. more >>=? λ bs. done (ok (b ∷ bs)))
    else panicked

take_two_drop :
    (pre : Bytes) (c d : ℕ) (rest : Bytes)
    → take 2 (drop (length pre) (pre ++ (c ∷ d ∷ rest))) ≡ c ∷ d ∷ []
take_two_drop [] c d rest = refl
take_two_drop (p ∷ pre) c d rest = take_two_drop pre c d rest

get_elem?-append :
    (pre : Bytes) (rest : Bytes) → get_elem? (pre ++ rest) (length pre) ≡ get_elem? rest 0
get_elem?-append [] rest = refl
get_elem?-append (p ∷ pre) rest = get_elem?-append pre rest

-- Behind a text of even length the boundary test looks at the next byte.
is_char_boundary-append :
    (p : ℕ) (pre rest : Bytes) → is_char_boundary ((p ∷ pre) ++ rest) (length (p ∷ pre)) ≡ cuts rest
unfolding is_char_boundary
is_char_boundary-append p pre [] = ground (arith, get_elem?-append pre [], length-append pre [])
is_char_boundary-append p pre (x ∷ rest) = ground (arith, get_elem?-append pre (x ∷ rest))

-- The start of the text, or of a character.
abbrev starts : Bytes → Bytes → Bool
starts [] rest = true
starts (p ∷ pre) rest = cuts rest

is_char_boundary-starts :
    (pre rest : Bytes) → is_char_boundary (pre ++ rest) (length pre) ≡ starts pre rest
is_char_boundary-starts [] rest = unfold is_char_boundary in refl
is_char_boundary-starts (p ∷ pre) rest = is_char_boundary-append p pre rest

starts-pair : (pre : Bytes) (c d : ℕ) (rest : Bytes) → starts (pre ++ (c ∷ d ∷ [])) rest ≡ cuts rest
starts-pair [] c d rest = refl
starts-pair (p ∷ pre) c d rest = refl

boundary_behind :
    (pre : Bytes) (c d : ℕ) (rest : Bytes)
    → is_char_boundary (pre ++ (c ∷ d ∷ rest)) (length pre + 2) ≡ cuts rest
boundary_behind pre c d rest =
    let at : is_char_boundary ((pre ++ (c ∷ d ∷ [])) ++ rest) (length (pre ++ (c ∷ d ∷ [])))
        ≡ cuts rest =
      is_char_boundary-starts (pre ++ (c ∷ d ∷ [])) rest ∙ starts-pair pre c d rest in
    rw (append_assoc pre (c ∷ d ∷ []) rest, length-append pre (c ∷ d ∷ [])) at at

slice_pair :
    (pre : Bytes) (c d : ℕ) (rest : Bytes)
    → starts pre (c ∷ d ∷ rest) ≡ true
    → slice (pre ++ (c ∷ d ∷ rest)) (length pre) (length pre + 2)
      ≡ (if cuts rest then done (c ∷ d ∷ []) else panicked)
unfolding slice
slice_pair pre c d rest s =
    let two : length pre + 2 - length pre ≡ 2 = omega arith in
    rw
      (
        is_char_boundary-starts pre (c ∷ d ∷ rest),
        s,
        boundary_behind pre c d rest,
        two,
        take_two_drop pre c d rest,
      )
      (ground arith)

parse_at-append :
    (i : ℕ) (pre : Bytes) (c d : ℕ) (rest : Bytes)
    → length pre ≡ i * 2
    → starts pre (c ∷ d ∷ rest) ≡ true
    → parse_at (pre ++ (c ∷ d ∷ rest)) i
      ≡ (if cuts rest then done (parse_pair (c ∷ d ∷ [])) else panicked)
unfolding parse_at
parse_at-append i pre c d rest h s =
    let cut : slice (pre ++ (c ∷ d ∷ rest)) (i * 2) (i * 2 + 2)
        ≡ (if cuts rest then done (c ∷ d ∷ []) else panicked) =
      rw h at (slice_pair pre c d rest s) in
    rw (cut, parse_at) (ground arith)

set-append :
    (acc : Bytes) (x : ℕ) (zs : Bytes) (v : ℕ)
    → set (acc ++ (x ∷ zs)) (length acc) v ≡ acc ++ (v ∷ zs)
set-append [] x zs v = refl
set-append (a ∷ acc) x zs v = ap (λ l. a ∷ l) (set-append acc x zs v)

abbrev behind : Bytes → Fallible Bytes Bytes → Fallible Bytes Bytes
behind acc m = m >>=? λ bs. done (ok (acc ++ bs))

behind-cons :
    (acc : Bytes) (b : ℕ) (m : Fallible Bytes Bytes)
    → behind (acc ++ (b ∷ [])) m ≡ behind acc (m >>=? λ bs. done (ok (b ∷ bs)))
behind-cons acc b (done (ok bs)) = rw (append_assoc acc (b ∷ []) bs)
behind-cons acc b (done (err e)) = refl
behind-cons acc b panicked = refl

-- One round, where the rounds that follow are known.
round :
    (read : Result Bytes ℕ) (acc : Bytes) (more : Fallible Bytes Bytes)
    (loop : ℕ → Fallible Bytes Bytes)
    → ((b : ℕ) → loop b ≡ behind (acc ++ (b ∷ [])) more)
    → (done read >>=? loop) ≡ behind acc (done read >>=? λ b. more >>=? λ bs. done (ok (b ∷ bs)))
round (ok b) acc more loop h = h b ∙ behind-cons acc b more
round (err e) acc more loop h = refl

-- `acc` is what the first rounds have written, and `pre` what they have read.
parse_loop-decode_pairs :
    (rounds i : ℕ) (pre rest acc : Bytes)
    → length pre ≡ i * 2
    → length acc ≡ i
    → length rest ≡ rounds * 2
    → starts pre rest ≡ true
    → parse_loop rounds i (pre ++ rest) (acc ++ replicate rounds 0) ≡ behind acc (decode_pairs rest)
unfolding parse_loop decode_pairs
parse_loop-decode_pairs zero i pre [] acc hp ha hr s = refl
parse_loop-decode_pairs zero i pre (c ∷ rest) acc hp ha hr s = absurd (omega arith)
parse_loop-decode_pairs (suc rounds) i pre [] acc hp ha hr s = absurd (omega arith)
parse_loop-decode_pairs (suc rounds) i pre (c ∷ []) acc hp ha hr s = absurd (omega arith)
parse_loop-decode_pairs (suc rounds) i pre (c ∷ d ∷ rest) acc hp ha hr s =
    elim (Bool-cases (cuts rest)) [
      | inl inside ↦
          let next : (b : ℕ)
              → parse_loop rounds (i + 1) (pre ++ (c ∷ d ∷ rest))
                  (set (acc ++ (0 ∷ replicate rounds 0)) i b)
                ≡ behind (acc ++ (b ∷ [])) (decode_pairs rest) =
            λ b.
              rw
                (
                  ← ha,
                  set-append acc 0 (replicate rounds 0) b,
                  ← append_assoc acc (b ∷ []) (replicate rounds 0),
                  ← append_assoc pre (c ∷ d ∷ []) rest,
                )
                (parse_loop-decode_pairs rounds (length acc + 1) (pre ++ (c ∷ d ∷ [])) rest
                  (acc ++ (b ∷ [])) (omega (arith, length-append pre (c ∷ d ∷ [])))
                  (omega (arith, length-append acc (b ∷ []))) (omega arith)
                  (starts-pair pre c d rest ∙ inside)) in
          rw (parse_at-append i pre c d rest hp s, inside)
            (round (parse_pair (c ∷ d ∷ [])) acc (decode_pairs rest) _ next)
      | inr outside ↦ rw (parse_at-append i pre c d rest hp s, outside)
    ]

abbrev pub trim : Bytes → Bytes
trim s = unwrap_or (strip_prefix (codes "0x") s) s

behind_nil : (m : Fallible Bytes Bytes) → behind [] m ≡ m
behind_nil (done (ok bs)) = refl
behind_nil (done (err e)) = refl
behind_nil panicked = refl

-- On every text and every `n`, `parse_hex_bytes`, with its slices and its array, equals the
-- recursion `decode_pairs` on the text without its prefix if that has 2 * n bytes, and the error
-- on the length otherwise; panics included.
pub parse_hex_bytes-decode_pairs :
    (n : ℕ) (s : Bytes)
    → parse_hex_bytes n s ≡ (
        if length (trim s) == n * 2
        then decode_pairs (trim s)
        else done (err (wrong_length n (length (trim s)))))
unfolding parse_hex_bytes
parse_hex_bytes-decode_pairs n s = elim (Bool-cases (length (trim s) == n * 2)) [
  | inl same ↦ rw same (
      parse_loop-decode_pairs n 0 [] (trim s) [] (omega arith) refl ((==_iff _ _).0 same) refl
      ∙ behind_nil _)
  | inr other ↦ rw other
]
