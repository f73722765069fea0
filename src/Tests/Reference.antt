-- ===== src/Tests/Reference.antt =====
-- Concrete libraries: the BCS encoder of the format, a signature scheme and a text encoding that are lawful, and a
-- small network, device and system.
use artos_nautilus_server.Prelude.{
  ◌≡◌, refl, ap, some, [], ◌∷◌, ◌++◌, Bytes, leb, if◌then◌else◌, codes, Option, none, ℕ, zero, suc,
  ◌≤◌, ◌<◌, arith, Bool-cases, inl, inr, ltb, ltb→lt, ◌∙◌,
}
use artos_nautilus_server.Rust.Outcome.{Result, ok, err}
use artos_nautilus_server.Serde.Value.{
  Value, u8, u64, absent, present, seq, tuple, struct, Values, nil, cons, count, little_endian,
  uleb128, max_sequence_length, prepend, join, in_order, Bcs, IsBcs, depth, depth_values,
}
use artos_nautilus_server.External.{
  Ed25519, IsEd25519, OnceCell, IsOnceCell, Encoding, IsEncoding, Libraries, AreLawful,
}
use artos_nautilus_server.Server.Health.Map.{bytes_eq, bytes_eq_iff}

-- A struct takes one of the levels that are left.
unfoldable mutual
  unfolding count little_endian uleb128

  pub encode : ℕ → Value → Result Bytes Bytes
  encode d (u8 n) = ok (n ∷ [])
  encode d (u64 n) = ok (little_endian 8 n)
  encode d absent = ok (0 ∷ [])
  encode d (present v) = prepend (1 ∷ []) (encode d v)
  encode d (tuple vs) = encode_values d vs
  encode zero (struct vs) = err (codes "exceeded max container depth")
  encode (suc d) (struct vs) = encode_values d vs
  encode d (seq vs) =
      let rest = encode_values d vs in
      if leb (count vs) max_sequence_length
      then prepend (uleb128 4 (count vs)) rest
      else err (codes "exceeded max sequence length")

  pub encode_values : ℕ → Values → Result Bytes Bytes
  encode_values d nil = ok []
  encode_values d (cons v vs) = join (encode d v) (encode_values d vs)

encode_values_lem : (d : ℕ) (vs : Values) → encode_values d vs ≡ in_order (encode d) vs
unfolding encode encode_values
encode_values_lem d nil = refl
encode_values_lem d (cons v vs) = rw (encode_values_lem d vs)

-- One level more changes nothing where there are enough.
mutual
  unfolding encode encode_values depth depth_values

  encode-suc : (d : ℕ) (v : Value) → depth v ≤ d → encode d v ≡ encode (suc d) v
  encode-suc d (u8 n) h = refl
  encode-suc d (u64 n) h = refl
  encode-suc d absent h = refl
  encode-suc d (present v) h = rw (encode-suc d v h)
  encode-suc d (tuple vs) h = encode_values-suc d vs h
  encode-suc zero (struct vs) h = absurd (omega arith)
  encode-suc (suc d) (struct vs) h = encode_values-suc d vs (omega arith)
  encode-suc d (seq vs) h = rw (encode_values-suc d vs h)

  encode_values-suc :
      (d : ℕ) (vs : Values) → depth_values vs ≤ d → encode_values d vs ≡ encode_values (suc d) vs
  encode_values-suc d nil h = refl
  encode_values-suc d (cons v vs) h =
      rw (encode-suc d v (omega arith), encode_values-suc d vs (omega arith))

join_err :
    (r s : Result Bytes Bytes) → ((x : Bytes) × (s ≡ err x)) → (x : Bytes) × (join r s ≡ err x)
join_err (ok bs) s (x, h) = (x, rw h)
join_err (err y) s h = (y, refl)

mutual
  unfolding encode encode_values depth depth_values

  encode_too_deep : (d : ℕ) (v : Value) → d < depth v → (x : Bytes) × (encode d v ≡ err x)
  encode_too_deep d (u8 n) h = absurd (omega arith)
  encode_too_deep d (u64 n) h = absurd (omega arith)
  encode_too_deep d absent h = absurd (omega arith)
  encode_too_deep d (present v) h = let (x, e) = encode_too_deep d v h in (x, rw e)
  encode_too_deep d (tuple vs) h = encode_values_too_deep d vs h
  encode_too_deep zero (struct vs) h = (_, refl)
  encode_too_deep (suc d) (struct vs) h = encode_values_too_deep d vs (omega arith)
  encode_too_deep d (seq vs) h =
      let (x, e) = encode_values_too_deep d vs h in
      elim (Bool-cases (leb (count vs) max_sequence_length)) [
        | inl fits ↦ (x, rw (fits, e))
        | inr long ↦ (codes "exceeded max sequence length", rw long refl)
      ]

  encode_values_too_deep :
      (d : ℕ) (vs : Values) → d < depth_values vs → (x : Bytes) × (encode_values d vs ≡ err x)
  encode_values_too_deep d nil h = absurd (omega arith)
  encode_values_too_deep d (cons v vs) h = elim (Bool-cases (ltb d (depth v))) [
    | inl deep ↦ let (x, e) = encode_too_deep d v (ltb→lt _ _ deep) in (x, rw e)
    | inr flat ↦
        join_err (encode d v) (encode_values d vs) (encode_values_too_deep d vs (ground arith))
  ]

abbrev pub bcs_reference : Bcs
bcs_reference = record {
  to_bytes = encode 500;
  exceeded_max_len = λ n. codes "exceeded max sequence length";
}

pub bcs_reference-IsBcs : IsBcs bcs_reference
unfolding encode encode_values depth depth_values
bcs_reference-IsBcs = record {
  to_bytes-u8 = λ n. refl;
  to_bytes-u64 = λ n. refl;
  to_bytes-absent = refl;
  to_bytes-present = λ v. refl;
  to_bytes-tuple = encode_values_lem 500;
  to_bytes-struct = λ vs h. encode_values-suc 499 vs (omega arith) ∙ encode_values_lem 500 vs;
  to_bytes_too_deep = encode_too_deep 500;
  to_bytes-seq = λ vs.
      ap
        (λ r.
          if leb (count vs) max_sequence_length
          then prepend (uleb128 4 (count vs)) r
          else err (codes "exceeded max sequence length"))
        (encode_values_lem 500 vs);
}

-- The signature is the key and the message.
abbrev pub ed25519_reference : Ed25519
ed25519_reference = record {
  SigningKey = Bytes;
  from_bytes = λ seed. seed;
  verifying_key = λ k. k;
  sign = λ k msg. k ++ msg;
  verify = λ pk msg sig. bytes_eq (pk ++ msg) sig;
}

pub ed25519_reference-IsEd25519 : IsEd25519 ed25519_reference
ed25519_reference-IsEd25519 = record {
  verify-sign = λ k msg. (bytes_eq_iff (k ++ msg) (k ++ msg)).1 refl;
}

-- The bytes as they are.
abbrev pub encoding_reference : Encoding
encoding_reference = record { encode = λ bs. bs; decode = λ bs. some bs }

pub encoding_reference-IsEncoding : IsEncoding encoding_reference
encoding_reference-IsEncoding = record { decode-encode = λ bs. refl }

abbrev pub get_or_try_init : {T : Type 0} → Result Bytes T → Option T → Option T × Result Bytes T
get_or_try_init r (some t) = (some t, ok t)
get_or_try_init (ok t) none = (some t, ok t)
get_or_try_init (err x) none = (none, err x)

abbrev pub once_cell_reference : OnceCell Bytes
once_cell_reference = record { get_or_try_init = get_or_try_init }

pub once_cell_reference-IsOnceCell : IsOnceCell once_cell_reference
once_cell_reference-IsOnceCell = record {
  get_or_try_init-set = set;
  get_or_try_init-ok = λ t. refl;
  get_or_try_init-err = λ x. refl;
}
  where
    set : (r : Result Bytes Bytes) (t : Bytes) → get_or_try_init r (some t) ≡ (some t, ok t)
    set (ok u) t = refl
    set (err x) t = refl

abbrev pub libraries : Libraries
libraries = record {
  bcs = bcs_reference;
  ed25519 = ed25519_reference;
  once_cell = once_cell_reference;
  base64 = encoding_reference;
  fastcrypto = ed25519_reference;
  hex = encoding_reference;
}

pub libraries-AreLawful : AreLawful libraries
libraries-AreLawful = record {
  bcs = bcs_reference-IsBcs;
  ed25519 = ed25519_reference-IsEd25519;
  once_cell = once_cell_reference-IsOnceCell;
  base64 = encoding_reference-IsEncoding;
  fastcrypto = ed25519_reference-IsEd25519;
  hex = encoding_reference-IsEncoding;
}
