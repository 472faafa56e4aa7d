-- ===== src/Prelude/Lines.antt =====
-- `strings.TrimSpace` on UTF-8, and the lines of a `bufio.Scanner`.
use Prim.Native.Nat.{ℕ, zero, suc}
use mathlib.Core.Bool.{Bool, ◌&&◌, ◌||◌}
use mathlib.Core.List.{List, [], ◌∷◌, reverse}
use simpledeploy.Prelude.Tests.{leb, eqb, if◌then◌else◌}
use simpledeploy.Prelude.Lists.{length, drop}
use simpledeploy.Prelude.Text.{Text, is_space, split}

-- The white space of more than one byte: U+0085, U+00A0, U+1680, U+2000 to U+200A, U+2028, U+2029,
-- U+202F, U+205F, U+3000.
abbrev pub is_wide2 : ℕ → ℕ → Bool
is_wide2 a b = eqb a 0xc2 && (eqb b 0x85 || eqb b 0xa0)

abbrev pub is_wide3 : ℕ → ℕ → ℕ → Bool
is_wide3 a b c =
    (eqb a 0xe1 && eqb b 0x9a && eqb c 0x80)
    || (eqb a 0xe2
        && eqb b 0x80
        && ((leb 0x80 c && leb c 0x8a) || eqb c 0xa8 || eqb c 0xa9 || eqb c 0xaf))
    || (eqb a 0xe2 && eqb b 0x81 && eqb c 0x9f)
    || (eqb a 0xe3 && eqb b 0x80 && eqb c 0x80)

-- The bytes of the white space that a text starts with, and the same of a text in reverse.
unfoldable pub space_at : Text → ℕ
space_at [] = 0
space_at (a ∷ []) = if is_space a then 1 else 0
space_at (a ∷ b ∷ []) = if is_space a then 1 else if is_wide2 a b then 2 else 0
space_at (a ∷ b ∷ c ∷ s) =
    if is_space a then 1 else if is_wide2 a b then 2 else if is_wide3 a b c then 3 else 0

unfoldable pub space_before : Text → ℕ
space_before [] = 0
space_before (a ∷ []) = if is_space a then 1 else 0
space_before (a ∷ b ∷ []) = if is_space a then 1 else if is_wide2 b a then 2 else 0
space_before (a ∷ b ∷ c ∷ s) =
    if is_space a then 1 else if is_wide2 b a then 2 else if is_wide3 c b a then 3 else 0

-- Each round drops a byte at least.
unfoldable pub trim_by : (Text → ℕ) → ℕ → Text → Text
trim_by width zero s = s
trim_by width (suc fuel) s = elim (width s) [
  | zero ↦ s
  | suc n ↦ trim_by width fuel (drop (suc n) s)
]

unfoldable pub trim_runes : Text → Text
unfolding trim_by space_at space_before
trim_runes s =
    let left = trim_by space_at (length s) s in
    reverse (trim_by space_before (length left) (reverse left))

-- What follows the last newline is a line too, if it is not empty.
abbrev pub keep_last : List Text → List Text
keep_last [] = []
keep_last ([] ∷ []) = []
keep_last (l ∷ ls) = l ∷ keep_last ls

-- The lines before the carriage return of each is dropped.
unfoldable pub scan_lines : Text → List Text
unfolding split
scan_lines s = keep_last (split b'\n' s)
