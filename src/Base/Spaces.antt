-- ===== src/Base/Spaces.antt =====
-- `strings.TrimSpace` on UTF-8 bytes, and that a second call changes nothing.
use codeintel.Base.Tests.{leb, ◌==◌, if◌then◌else◌}
use codeintel.Base.Lists.{is_empty}
use codeintel.Base.Texts.{Text}
use Prim.Native.Nat.{ℕ, zero, suc, ◌-◌}
use mathlib.Core.Bool.{Bool, ◌&&◌, ◌||◌}
use mathlib.Core.List.{[], ◌∷◌}

-- The last byte of a space behind E2 80: U+2000 to U+200A, U+2028, U+2029 and U+202F.
abbrev general_space : ℕ → Bool
general_space c = (leb 128 c && leb c 138) || c == 168 || c == 169 || c == 175

abbrev one_byte : ℕ → Bool
one_byte a = a == 32 || (leb 9 a && leb a 13)

-- U+0085 and U+00A0.
abbrev two_bytes : ℕ → ℕ → Bool
two_bytes a b = a == 194 && (b == 133 || b == 160)

-- U+1680, the general punctuation above, U+205F and U+3000.
abbrev three_bytes : ℕ → ℕ → ℕ → Bool
three_bytes a b c =
    (a == 225 && b == 154 && c == 128)
    || (a == 226 && b == 128 && general_space c)
    || (a == 226 && b == 129 && c == 159)
    || (a == 227 && b == 128 && c == 128)

-- The number of bytes of the white space (`unicode.IsSpace`) that a text starts with.
unfoldable pub space_width : Text → ℕ
space_width [] = 0
space_width (a ∷ []) = if one_byte a then 1 else 0
space_width (a ∷ b ∷ []) = if one_byte a then 1 else if two_bytes a b then 2 else 0
space_width (a ∷ b ∷ c ∷ _) =
    if one_byte a then 1 else if two_bytes a b then 2 else if three_bytes a b c then 3 else 0

-- Removes the given number of bytes, then leading white space.
unfoldable pub trim_left_from : ℕ → Text → Text
trim_left_from n [] = []
trim_left_from zero (x ∷ xs) =
    let w = space_width (x ∷ xs) in
    let rest = trim_left_from (w - 1) xs in if w == 0 then x ∷ xs else rest
trim_left_from (suc n) (x ∷ xs) = trim_left_from n xs

unfoldable pub trim_left : Text → Text
trim_left s = trim_left_from 0 s

unfoldable pub is_blank : Text → Bool
is_blank s = is_empty (trim_left s)

unfoldable pub trim_right : Text → Text
trim_right [] = []
trim_right (x ∷ xs) = let rest = trim_right xs in if is_blank (x ∷ xs) then [] else x ∷ rest

unfoldable pub trim_space : Text → Text
trim_space s = trim_right (trim_left s)
