-- ===== src/Serde/Value.antt =====
-- The serde data model, as far as the signed structs use it, and the serializer `bcs::to_bytes`.
use artos_nautilus_server.Prelude.{
  ℕ, zero, suc, ◌+◌, ◌-◌, ◌/◌, ◌%◌, ◌^◌, ◌≡◌, [], ◌∷◌, ◌++◌, Bytes, ltb, leb, if◌then◌else◌, Option,
  none, some, max, ◌≤◌, ◌<◌,
}
use artos_nautilus_server.Rust.Outcome.{Result, ok, err}

-- Calls that a derived `Serialize` makes: `serialize_u8`, `serialize_u64`, `serialize_none`,
-- `serialize_some`, `serialize_seq` (a `Vec`), `serialize_tuple` (an array) and `serialize_struct`.
mutual
  pub data Value : Type 0 where
    u8 : ℕ → Value
    u64 : ℕ → Value
    absent : Value
    present : Value → Value
    seq : Values → Value
    tuple : Values → Value
    struct : Values → Value

  pub data Values : Type 0 where
    nil : Values
    cons : Value → Values → Values

-- `Vec<u8>` and `[u8; N]` hand over one element for each byte.
unfoldable pub u8s : Bytes → Values
u8s [] = nil
u8s (b ∷ bs) = cons (u8 b) (u8s bs)

abbrev pub vec_u8 : Bytes → Value
vec_u8 bs = seq (u8s bs)

abbrev pub array_u8 : Bytes → Value
array_u8 bs = tuple (u8s bs)

abbrev pub option_vec_u8 : Option Bytes → Value
option_vec_u8 none = absent
option_vec_u8 (some bs) = present (vec_u8 bs)

unfoldable pub count : Values → ℕ
count nil = 0
count (cons v vs) = suc (count vs)

-- How deep structs are nested: BCS counts them, and no other container.
unfoldable mutual
  pub depth : Value → ℕ
  depth (u8 n) = 0
  depth (u64 n) = 0
  depth absent = 0
  depth (present v) = depth v
  depth (seq vs) = depth_values vs
  depth (tuple vs) = depth_values vs
  depth (struct vs) = suc (depth_values vs)

  pub depth_values : Values → ℕ
  depth_values nil = 0
  depth_values (cons v vs) = max (depth v) (depth_values vs)

-- A number in `k` bytes, the lowest first.
unfoldable pub little_endian : ℕ → ℕ → Bytes
little_endian zero n = []
little_endian (suc k) n = (n % 256) ∷ little_endian k (n / 256)

-- ULEB128: groups of seven bits, the lowest first, the top bit set on all but the last.
-- `k + 1` groups hold every number below 128 ^ (k + 1).
unfoldable pub uleb128 : ℕ → ℕ → Bytes
uleb128 zero n = n ∷ []
uleb128 (suc k) n =
    let rest = uleb128 k (n / 128) in if ltb n 128 then n ∷ [] else (n % 128 + 128) ∷ rest

-- The crate's `MAX_SEQUENCE_LENGTH`.
abbrev pub max_sequence_length : ℕ
max_sequence_length = 2 ^ 31 - 1

-- The crate's `MAX_CONTAINER_DEPTH`.
abbrev pub max_container_depth : ℕ
max_container_depth = 500

abbrev pub prepend : Bytes → Result Bytes Bytes → Result Bytes Bytes
prepend front (ok bs) = ok (front ++ bs)
prepend front (err e) = err e

abbrev pub join : Result Bytes Bytes → Result Bytes Bytes → Result Bytes Bytes
join (ok bs) r = prepend bs r
join (err e) r = err e

-- The elements one after the other; the first error stops.
abbrev pub in_order : (Value → Result Bytes Bytes) → Values → Result Bytes Bytes
in_order f nil = ok []
in_order f (cons v vs) = join (f v) (in_order f vs)

-- `bcs::to_bytes`; an error is its `Display` text.
pub record Bcs : Type 0 where
  pub to_bytes : Value → Result Bytes Bytes
  pub exceeded_max_len : ℕ → Bytes

-- The documented format of each kind of value.
pub record IsBcs (b : Bcs) : Type 0 where
  pub to_bytes-u8 : (n : ℕ) → b.to_bytes (u8 n) ≡ ok (n ∷ [])
  pub to_bytes-u64 : (n : ℕ) → b.to_bytes (u64 n) ≡ ok (little_endian 8 n)
  pub to_bytes-absent : b.to_bytes absent ≡ ok (0 ∷ [])
  pub to_bytes-present : (v : Value) → b.to_bytes (present v) ≡ prepend (1 ∷ []) (b.to_bytes v)
  pub to_bytes-tuple : (vs : Values) → b.to_bytes (tuple vs) ≡ in_order b.to_bytes vs
  pub to_bytes-struct :
      (vs : Values)
      → depth (struct vs) ≤ max_container_depth
      → b.to_bytes (struct vs) ≡ in_order b.to_bytes vs
  -- Structs that are nested deeper are an error.
  pub to_bytes_too_deep :
      (v : Value) → max_container_depth < depth v → (e : Bytes) × (b.to_bytes v ≡ err e)
  pub to_bytes-seq :
      (vs : Values)
      → b.to_bytes (seq vs) ≡ (
          if leb (count vs) max_sequence_length
          then prepend (uleb128 4 (count vs)) (in_order b.to_bytes vs)
          else err (b.exceeded_max_len (count vs)))
