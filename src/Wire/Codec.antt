-- ===== src/Wire/Codec.antt =====
-- What the packet tests of src/srtla/common.c read back, and how they exclude one another.
use pyle_irl.Base.{ℕ, ◌^◌, ◌≤◌, ◌<◌, ◌≡◌, refl, ◌⊎◌, true, none, some, [], ◌∷◌, ◌++◌, arith}
use pyle_irl.Wire.{Bytes, be16, be32, same_text, get_srt_sn, get_srt_type}

-- A 16-bit packet type written in network order in front of any payload is read back.
pub get_srt_type-be16 : (t : ℕ) (rest : Bytes) → t < 2 ^ 16 → get_srt_type (be16 t ++ rest) ≡ t
unfolding get_srt_type
get_srt_type-be16 t rest h = omega arith

-- A 32-bit word in network order in front of any payload is read as a sequence number exactly when
-- its highest bit is clear, and then as that number.
pub get_srt_sn-be32 :
    (w : ℕ) (rest : Bytes)
    → w < 2 ^ 32
    → ((w < 2 ^ 31) × (get_srt_sn (be32 w ++ rest) ≡ some w))
      ⊎ ((2 ^ 31 ≤ w) × (get_srt_sn (be32 w ++ rest) ≡ none))
unfolding get_srt_sn
get_srt_sn-be32 w rest h = ground arith

pub same_text_refl : (a : Bytes) → same_text a a ≡ true
unfolding same_text
same_text_refl [] = refl
same_text_refl (x ∷ xs) = ground (arith, same_text_refl xs)
