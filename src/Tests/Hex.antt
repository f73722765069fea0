-- ===== src/Tests/Hex.antt =====
-- The theorems on the hexadecimal parser.
use artos_nautilus_server.Prelude.{
  ◌*◌, ◌≡◌, ◌≢◌, refl, if◌then◌else◌, ◌==◌, [], ◌∷◌, ◌++◌, codes, length, arith, ◌↔◌,
}
use artos_nautilus_server.Rust.Outcome.{done, panicked, ok, err}
use artos_nautilus_server.Orders.Hex.{parse_hex_bytes, wrong_length}
use artos_nautilus_server.Orders.Hex.Decode.{parse_hex_bytes-decode_pairs, decode_pairs, trim}
use artos_nautilus_server.Orders.Hex.Inputs.{
  Reads, hex_encode, plus_encode, parse_hex_bytes-Reads, parse_hex_bytes-hex_encode,
  parse_hex_bytes-plus_encode,
}
use artos_nautilus_server.Orders.Hex.Panics.{parse_hex_bytes_ascii}

parse_hex_bytes-Reads_example :
    (parse_hex_bytes 1 (codes "0xaF") ≡ done (ok (0xAF ∷ [])))
    ↔ ((length (trim (codes "0xaF")) ≡ 1 * 2) × Reads (trim (codes "0xaF")) (0xAF ∷ []))
parse_hex_bytes-Reads_example = parse_hex_bytes-Reads 1 (codes "0xaF") (0xAF ∷ [])

parse_hex_bytes-decode_pairs_example : parse_hex_bytes 2 (codes "0x12zz") ≡ (
    if length (trim (codes "0x12zz")) == 2 * 2
    then decode_pairs (trim (codes "0x12zz"))
    else done (err (wrong_length 2 (length (trim (codes "0x12zz"))))))
parse_hex_bytes-decode_pairs_example = parse_hex_bytes-decode_pairs 2 (codes "0x12zz")

parse_hex_bytes-hex_encode_example :
    (parse_hex_bytes 2 (hex_encode (0xAB ∷ 7 ∷ [])) ≡ done (ok (0xAB ∷ 7 ∷ [])))
    × (parse_hex_bytes 2 (codes "0x" ++ hex_encode (0xAB ∷ 7 ∷ [])) ≡ done (ok (0xAB ∷ 7 ∷ [])))
parse_hex_bytes-hex_encode_example =
    parse_hex_bytes-hex_encode 2 (0xAB ∷ 7 ∷ []) refl (omega arith, (omega arith, tt))

parse_hex_bytes-plus_encode_example :
    parse_hex_bytes 2 (plus_encode (10 ∷ 7 ∷ [])) ≡ done (ok (10 ∷ 7 ∷ []))
parse_hex_bytes-plus_encode_example =
    parse_hex_bytes-plus_encode 2 (10 ∷ 7 ∷ []) refl (omega arith, (omega arith, tt))

parse_hex_bytes_ascii_example : parse_hex_bytes 1 (codes "q+") ≢ panicked
parse_hex_bytes_ascii_example =
    parse_hex_bytes_ascii 1 (codes "q+") (omega arith, (omega arith, tt))
