-- ===== src/Base/Space.antt =====
-- `strings.TrimSpace` over bytes: Unicode's spaces in UTF-8.
use Prim.Native.Nat.{ℕ, zero, suc}
use mathlib.Core.Bool.{Bool, ◌&&◌, ◌||◌}
use mathlib.Core.List.{[], ◌∷◌}
use buckle.Base.Equality.{Bytes, nat_eq, ◌==◌}
use buckle.Base.Tests.{leb, if◌then◌else◌}

-- A space of one byte, of two, or of three.
abbrev pub is_space : ℕ → Bool
is_space c = (leb 9 c && leb c 13) || c == 32

abbrev is_space2 : ℕ → ℕ → Bool
is_space2 a b = a == 0xc2 && (b == 0x85 || b == 0xa0)

abbrev is_space3 : ℕ → ℕ → ℕ → Bool
is_space3 a b c =
    (a == 0xe1 && b == 0x9a && c == 0x80)
    || (a == 0xe2
        && b == 0x80
        && ((leb 0x80 c && leb c 0x8a) || c == 0xa8 || c == 0xa9 || c == 0xaf))
    || (a == 0xe2 && b == 0x81 && c == 0x9f)
    || (a == 0xe3 && b == 0x80 && c == 0x80)

-- How many bytes the space at the front has; 0 where there is none.
abbrev width3 : ℕ → ℕ → Bytes → ℕ
width3 a b [] = 0
width3 a b (c ∷ cs) = if is_space3 a b c then 3 else 0

abbrev width2 : ℕ → Bytes → ℕ
width2 a [] = 0
width2 a (b ∷ cs) = if is_space2 a b then 2 else width3 a b cs

abbrev front_width : ℕ → Bytes → ℕ
front_width a cs = if is_space a then 1 else width2 a cs

-- The same for a text in reverse.
abbrev back_width3 : ℕ → ℕ → Bytes → ℕ
back_width3 c b [] = 0
back_width3 c b (a ∷ rest) = if is_space3 a b c then 3 else 0

abbrev back_width2 : ℕ → Bytes → ℕ
back_width2 b [] = 0
back_width2 b (a ∷ rest) = if is_space2 a b then 2 else back_width3 b a rest

abbrev back_width : ℕ → Bytes → ℕ
back_width a rest = if is_space a then 1 else back_width2 a rest

-- Drops spaces from the front; the number counts the bytes of a space that are still to go.
unfoldable pub trim_front : (ℕ → Bytes → ℕ) → ℕ → Bytes → Bytes
trim_front width n [] = []
trim_front width (suc n) (c ∷ cs) = trim_front width n cs
trim_front width zero (c ∷ cs) = elim (width c cs) [ zero ↦ c ∷ cs | suc n ↦ trim_front width n cs ]

abbrev reverse_onto : Bytes → Bytes → Bytes
reverse_onto acc [] = acc
reverse_onto acc (c ∷ cs) = reverse_onto (c ∷ acc) cs

unfoldable pub trim_space : Bytes → Bytes
unfolding trim_front
trim_space t =
    reverse_onto [] (trim_front back_width 0 (reverse_onto [] (trim_front front_width 0 t)))
