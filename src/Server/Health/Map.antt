-- ===== src/Server/Health/Map.antt =====
-- `HashMap<String, bool>` as an association list.
use artos_nautilus_server.Prelude.{
  ◌≡◌, refl, Bool, true, false, ◌&&◌, ◌↔◌, Option, none, some, List, [], ◌∷◌, Bytes, ◌==◌,
  if◌then◌else◌, arith,
}

unfoldable pub bytes_eq : Bytes → Bytes → Bool
bytes_eq [] [] = true
bytes_eq [] (b ∷ t) = false
bytes_eq (a ∷ s) [] = false
bytes_eq (a ∷ s) (b ∷ t) = a == b && bytes_eq s t

pub bytes_eq_iff : (s t : Bytes) → (bytes_eq s t ≡ true) ↔ (s ≡ t)
unfolding bytes_eq
bytes_eq_iff [] [] = (λ h. refl, λ h. refl)
bytes_eq_iff [] (b ∷ t) = (λ h. cc, λ h. cc)
bytes_eq_iff (a ∷ s) [] = (λ h. cc, λ h. cc)
bytes_eq_iff (a ∷ s) (b ∷ t) = ground (arith, bytes_eq_iff s t)

abbrev pub StatusMap : Type 0
StatusMap = List (Bytes × Bool)

unfoldable pub get : Bytes → StatusMap → Option Bool
get k [] = none
get k ((j, v) ∷ m) = if bytes_eq j k then some v else get k m

-- `HashMap::insert`
unfoldable pub insert : Bytes → Bool → StatusMap → StatusMap
insert k v [] = (k, v) ∷ []
insert k v ((j, w) ∷ m) = if bytes_eq j k then (k, v) ∷ m else (j, w) ∷ insert k v m

pub get-insert :
    (k j : Bytes) (v : Bool) (m : StatusMap)
    → get j (insert k v m) ≡ (if bytes_eq k j then some v else get j m)
unfolding get insert
get-insert k j v [] = refl
get-insert k j v ((i, w) ∷ m) =
    ground (arith, bytes_eq_iff k j, bytes_eq_iff i k, bytes_eq_iff i j, get-insert k j v m)
