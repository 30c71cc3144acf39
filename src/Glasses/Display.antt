-- ===== src/Glasses/Display.antt =====
-- glasses/src/display.ts: the text that is put on the glasses, and that which bridge/src/server.ts
-- answers for them.
use erg.Prelude.{
  ℕ, ◌+◌, ◌-◌, ◌≤◌, Text, codes, ◌==◌, [], ◌∷◌, ◌++◌, arith, length, length-take, length-append,
  take, trim, tidy_lines, IsTidy, tidy_lines-IsTidy, LinesFrom, LinesFrom-take, take-All,
  All-append, leb, if◌then◌else◌, Bool-cases, inl, inr,
}
use erg.Bridge.Server.{sanitize_hud_text}

abbrev pub max_glass_text : ℕ
max_glass_text = 950

unfoldable pub clamp_glass_text : Text → Text
clamp_glass_text text =
    let normalized = trim (tidy_lines text) in
    if leb (length normalized) max_glass_text
    then normalized
    else take (max_glass_text - 3) normalized ++ codes "..."

LinesFrom-dots : (n : ℕ) (s : Text) → LinesFrom n s → LinesFrom n (s ++ codes "...")
LinesFrom-dots n [] h = omega arith
LinesFrom-dots n (c ∷ s) h = (h.0, LinesFrom-dots (if c == 10 then n + 1 else 0) s h.1)

take-IsTidy : (k : ℕ) (s : Text) → IsTidy s → IsTidy (take k s)
take-IsTidy k s h = record {
  no_returns = take-All _ k s h.no_returns;
  lines = LinesFrom-take k 0 s h.lines;
}

dots-IsTidy : (s : Text) → IsTidy s → IsTidy (s ++ codes "...")
dots-IsTidy s h = record {
  no_returns = All-append _ s (codes "...") h.no_returns (omega arith);
  lines = LinesFrom-dots 0 s h.lines;
}

-- A text that was tidied, as it is cut off with dots where it is longer than `n` code units.
module _ (n : ℕ) (s : Text) (dots : 3 ≤ n) (t : IsTidy s) where
  shortened : Text
  shortened = if leb (length s) n then s else take (n - 3) s ++ codes "..."

  shortened-length : length shortened ≤ n
  unfolding shortened
  shortened-length =
      ground (arith, dots, length-append (take (n - 3) s) (codes "..."), length-take (n - 3) s)

  shortened-IsTidy : IsTidy shortened
  unfolding shortened
  shortened-IsTidy = elim (Bool-cases (leb (length s) n)) [
    | inl e ↦ rw e t
    | inr e ↦ rw e (dots-IsTidy (take (n - 3) s) (take-IsTidy (n - 3) s t))
  ]

-- Whatever OpenClaw replies, the text for the display of the glasses fits in 950 code units, and the
-- reply that the bridge sends to them in 2000; neither holds a carriage return or more than one empty
-- line in a row.
pub texts_fit :
    (s : Text)
    → (length (clamp_glass_text s) ≤ 950)
      × IsTidy (clamp_glass_text s)
      × (length (sanitize_hud_text s) ≤ 2000)
      × IsTidy (sanitize_hud_text s)
unfolding clamp_glass_text sanitize_hud_text
texts_fit s =
    let tidied = tidy_lines-IsTidy s in
    (
      unfold shortened in
          shortened-length max_glass_text (trim (tidy_lines s)) (omega arith) tidied,
      unfold shortened in
          shortened-IsTidy max_glass_text (trim (tidy_lines s)) (omega arith) tidied,
      rw (length-take 2000 (trim (tidy_lines s))) (omega arith),
      take-IsTidy 2000 (trim (tidy_lines s)) tidied,
    )
