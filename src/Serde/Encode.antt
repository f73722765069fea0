-- ===== src/Serde/Encode.antt =====
-- The bytes of the values that the signed structs consist of.
use artos_nautilus_server.Prelude.{
  suc, ◌≤◌, ◌<◌, ◌≡◌, refl, ap, ◌∙◌, [], ◌∷◌, ◌++◌, Bytes, Option, none, some, length, arith,
  le→leb,
}
use artos_nautilus_server.Rust.Outcome.{ok, err}
use artos_nautilus_server.Serde.Value.{
  u8s, vec_u8, array_u8, option_vec_u8, count, uleb128, max_sequence_length, in_order, Bcs, IsBcs,
  depth, depth_values,
}

count-u8s : (bs : Bytes) → count (u8s bs) ≡ length bs
unfolding count u8s
count-u8s [] = refl
count-u8s (b ∷ bs) = ap suc (count-u8s bs)

pub depth_values-u8s : (bs : Bytes) → depth_values (u8s bs) ≡ 0
unfolding depth depth_values u8s
depth_values-u8s [] = refl
depth_values-u8s (b ∷ bs) = rw (depth_values-u8s bs) refl

pub depth-option : (o : Option Bytes) → depth (option_vec_u8 o) ≡ 0
unfolding depth depth_values
depth-option none = refl
depth-option (some bs) = depth_values-u8s bs

-- A `Vec<u8>`: its length and its bytes.
unfoldable pub vec_bytes : Bytes → Bytes
vec_bytes bs = uleb128 4 (length bs) ++ bs

-- An `Option<Vec<u8>>`: a tag, then the vector if there is one.
unfoldable pub option_bytes : Option Bytes → Bytes
unfolding vec_bytes
option_bytes none = 0 ∷ []
option_bytes (some bs) = 1 ∷ vec_bytes bs

-- A length that BCS accepts.
abbrev pub Fits : Bytes → Type 0
Fits bs = length bs ≤ max_sequence_length

abbrev pub OptionFits : Option Bytes → Type 0
OptionFits none = Unit {0}
OptionFits (some bs) = Fits bs

module _ (b : Bcs) (L : IsBcs b) where
  in_order-u8s : (bs : Bytes) → in_order b.to_bytes (u8s bs) ≡ ok bs
  unfolding u8s
  in_order-u8s [] = refl
  in_order-u8s (x ∷ bs) = rw (L.to_bytes-u8 x, in_order-u8s bs)

  pub to_bytes-array : (bs : Bytes) → b.to_bytes (array_u8 bs) ≡ ok bs
  to_bytes-array bs = L.to_bytes-tuple (u8s bs) ∙ in_order-u8s bs

  pub to_bytes-vec : (bs : Bytes) → Fits bs → b.to_bytes (vec_u8 bs) ≡ ok (vec_bytes bs)
  unfolding vec_bytes
  to_bytes-vec bs h = L.to_bytes-seq (u8s bs) ∙ rw (count-u8s bs, le→leb _ _ h, in_order-u8s bs)

  pub to_bytes-vec_too_long :
      (bs : Bytes)
      → max_sequence_length < length bs
      → b.to_bytes (vec_u8 bs) ≡ err (b.exceeded_max_len (length bs))
  to_bytes-vec_too_long bs h = L.to_bytes-seq (u8s bs) ∙ rw (count-u8s bs) (ground arith)

  pub to_bytes-option :
      (o : Option Bytes) → OptionFits o → b.to_bytes (option_vec_u8 o) ≡ ok (option_bytes o)
  unfolding option_bytes
  to_bytes-option none h = L.to_bytes-absent
  to_bytes-option (some bs) h = L.to_bytes-present (vec_u8 bs) ∙ rw (to_bytes-vec bs h)
