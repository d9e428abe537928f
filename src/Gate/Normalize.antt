-- ===== src/Gate/Normalize.antt =====
-- `generated` and `normalize`: a resource ID is reduced to namespace/Kind/name.
pub mod Mask
pub mod Segments
pub mod Rename
use nineteenseventytwo_platf.Prelude.{
  ℕ, ◌-◌, Bool, true, false, ◌&&◌, ◌||◌, List, [], ◌∷◌, ◌++◌, Bytes, ltb, leb, if◌then◌else◌,
  length, drop,
}
use nineteenseventytwo_platf.Text.Parts.{split, join}

-- `[0-9a-f]`
unfoldable pub is_hex : ℕ → Bool
is_hex c = (leb b'0' c && leb c b'9') || (leb b'a' c && leb c b'f')

-- A maximal run of hex digits is a match of `[0-9a-f]{8,}` if it is long enough.
pub end_run : Bytes → Bytes
end_run run = if leb 8 (length run) then b'*' ∷ [] else run

-- `run` holds the hex digits read since the last other byte.
pub mask_from : Bytes → Bytes → Bytes
mask_from run [] = end_run run
mask_from run (c ∷ s) = elim (is_hex c) [
  | true ↦ mask_from (run ++ c ∷ []) s
  | false ↦ end_run run ++ c ∷ mask_from [] s
]

-- `generated.ReplaceAllString(s, "*")`
unfoldable pub mask : Bytes → Bytes
unfolding mask_from end_run is_hex
mask = mask_from []

-- `parts[len(parts)-1] = f(parts[len(parts)-1])`
pub map_last : (Bytes → Bytes) → List Bytes → List Bytes
map_last f [] = []
map_last f (p ∷ []) = f p ∷ []
map_last f (p ∷ q ∷ ps) = p ∷ map_last f (q ∷ ps)

-- `if len(parts) > 3 { parts = parts[len(parts)-3:] }`
pub last_three : List Bytes → List Bytes
last_three parts = if ltb 3 (length parts) then drop (length parts - 3) parts else parts

unfoldable pub normalize : Bytes → Bytes
unfolding mask map_last last_three split join
normalize resource_id = join (b'/' ∷ []) (map_last mask (last_three (split b'/' resource_id)))
