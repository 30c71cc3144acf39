-- ===== src/Prelude/Replace.antt =====
-- The replacements that the source writes with regular expressions, on lists of code units.
use Prim.Native.Nat.{ℕ, zero, suc, ◌+◌, ◌≤◌, min}
use mathlib.Core.Bool.{Bool, false, not, ◌&&◌, ◌||◌}
use mathlib.Core.List.{[], ◌∷◌}
use native.Mathlib.Omega.{arith}
use erg.Prelude.Tests.{leb, ◌==◌, if◌then◌else◌, Bool-cases}
use erg.Prelude.Lists.{filter, take, All}
use erg.Prelude.Texts.{Text, is_empty, is_space, trim_start, trim_end, trim}
use mathlib.Core.Logic.{◌≢◌, inl, inr}

-- `replace(/\r/g, "")`
unfoldable pub without_returns : Text → Text
without_returns s = filter (λ c. not (c == 13)) s

abbrev starts_line : Text → Bool
starts_line [] = false
starts_line (c ∷ s) = c == 10

-- `replace(/[ \t]+\n/g, "\n")`
unfoldable pub without_trailing_blanks : Text → Text
without_trailing_blanks [] = []
without_trailing_blanks (c ∷ s) =
    let rest = without_trailing_blanks s in
    if (c == 32 || c == 9) && starts_line rest then rest else c ∷ rest

-- The number of line feeds in a row, after one more code unit.
abbrev row : ℕ → ℕ → ℕ
row n c = if c == 10 then n + 1 else 0

-- `replace(/\n{3}/g, "\n\n")`; `n` line feeds stand before the text.
unfoldable pub squeeze_from : ℕ → Text → Text
squeeze_from n [] = []
squeeze_from n (c ∷ s) =
    let rest = squeeze_from (row n c) s in if (c == 10) && leb 2 n then rest else c ∷ rest

unfoldable pub squeeze_lines : Text → Text
unfolding squeeze_from
squeeze_lines s = squeeze_from 0 s

-- `replace(/\/+$/, "")`
unfoldable pub without_last_slashes : Text → Text
without_last_slashes [] = []
without_last_slashes (c ∷ s) =
    let rest = without_last_slashes s in if (c == b'/') && is_empty rest then [] else c ∷ rest

-- No more than two line feeds stand in a row; `n` of them stand before the text.
abbrev pub LinesFrom : ℕ → Text → Type 0
LinesFrom n [] = Unit
LinesFrom n (c ∷ s) = (row n c ≤ 2) × LinesFrom (row n c) s

squeeze_from-LinesFrom : (n : ℕ) (s : Text) → LinesFrom (min n 2) (squeeze_from n s)
unfolding squeeze_from
squeeze_from-LinesFrom n [] = tt
squeeze_from-LinesFrom n (c ∷ s) = ground (arith, squeeze_from-LinesFrom (row n c) s)

pub squeeze_lines-LinesFrom : (s : Text) → LinesFrom 0 (squeeze_lines s)
unfolding squeeze_lines
squeeze_lines-LinesFrom s = squeeze_from-LinesFrom 0 s

LinesFrom-le : (n m : ℕ) (s : Text) → n ≤ m → LinesFrom m s → LinesFrom n s
LinesFrom-le n m [] h k = tt
LinesFrom-le n m (c ∷ s) h k = ground (arith, LinesFrom-le (row n c) (row m c) s)

pub LinesFrom-tail : (n c : ℕ) (s : Text) → LinesFrom n (c ∷ s) → LinesFrom 0 s
LinesFrom-tail n c s k = LinesFrom-le 0 (row n c) s (omega arith) k.1

pub LinesFrom-take : (k n : ℕ) (s : Text) → LinesFrom n s → LinesFrom n (take k s)
LinesFrom-take zero n s h = tt
LinesFrom-take (suc k) n [] h = tt
LinesFrom-take (suc k) n (c ∷ s) h = (h.0, LinesFrom-take k (row n c) s h.1)

trim_start-LinesFrom : (s : Text) → LinesFrom 0 s → LinesFrom 0 (trim_start s)
unfolding trim_start
trim_start-LinesFrom [] h = tt
trim_start-LinesFrom (c ∷ s) h = elim (Bool-cases (is_space c)) [
  | inl e ↦ rw e (trim_start-LinesFrom s (LinesFrom-tail 0 c s h))
  | inr e ↦ rw e h
]

trim_end-LinesFrom : (n : ℕ) (s : Text) → LinesFrom n s → LinesFrom n (trim_end s)
unfolding trim_end
trim_end-LinesFrom n [] h = tt
trim_end-LinesFrom n (c ∷ s) h = elim (Bool-cases (is_space c && is_empty (trim_end s))) [
  | inl e ↦ rw e tt
  | inr e ↦ rw e (h.0, trim_end-LinesFrom (row n c) s h.1)
]

pub trim-LinesFrom : (s : Text) → LinesFrom 0 s → LinesFrom 0 (trim s)
unfolding trim
trim-LinesFrom s h = trim_end-LinesFrom 0 (trim_start s) (trim_start-LinesFrom s h)

-- What holds of each code unit of a text holds of what these functions leave of it.
module _ (P : ℕ → Type 0) where
  without_trailing_blanks-All : (s : Text) → All P s → All P (without_trailing_blanks s)
  unfolding without_trailing_blanks
  without_trailing_blanks-All [] h = tt
  without_trailing_blanks-All (c ∷ s) (p, h) = ground (arith, p, without_trailing_blanks-All s h)

  squeeze_from-All : (n : ℕ) (s : Text) → All P s → All P (squeeze_from n s)
  unfolding squeeze_from
  squeeze_from-All n [] h = tt
  squeeze_from-All n (c ∷ s) (p, h) = ground (arith, p, squeeze_from-All (row n c) s h)

  trim_start-All : (s : Text) → All P s → All P (trim_start s)
  unfolding trim_start
  trim_start-All [] h = tt
  trim_start-All (c ∷ s) (p, h) = ground (arith, p, h, trim_start-All s h)

  trim_end-All : (s : Text) → All P s → All P (trim_end s)
  unfolding trim_end
  trim_end-All [] h = tt
  trim_end-All (c ∷ s) (p, h) = ground (arith, p, trim_end-All s h)

  pub trim-All : (s : Text) → All P s → All P (trim s)
  unfolding trim
  trim-All s h = trim_end-All (trim_start s) (trim_start-All s h)

  pub take-All : (k : ℕ) (s : Text) → All P s → All P (take k s)
  take-All zero s h = tt
  take-All (suc k) [] h = tt
  take-All (suc k) (c ∷ s) (p, h) = (p, take-All k s h)

-- The three replacements that the source applies to a reply before it trims it.
unfoldable pub tidy_lines : Text → Text
unfolding without_returns without_trailing_blanks squeeze_lines
tidy_lines s = squeeze_lines (without_trailing_blanks (without_returns s))

-- A text for a small display: no carriage return, and no more than one empty line in a row.
pub record IsTidy (s : Text) : Type 0 where
  pub no_returns : All (λ c. c ≢ 13) s
  pub lines : LinesFrom 0 s

without_returns-All : (s : Text) → All (λ c. c ≢ 13) (without_returns s)
unfolding without_returns
without_returns-All [] = tt
without_returns-All (c ∷ s) = ground (arith, without_returns-All s)

pub tidy_lines-IsTidy : (s : Text) → IsTidy (trim (tidy_lines s))
unfolding tidy_lines
tidy_lines-IsTidy s = record {
  no_returns = trim-All _ _ (
      unfold squeeze_lines in
      squeeze_from-All _ 0 _
        (without_trailing_blanks-All _ (without_returns s) (without_returns-All s)));
  lines = trim-LinesFrom _ (squeeze_lines-LinesFrom (without_trailing_blanks (without_returns s)));
}
