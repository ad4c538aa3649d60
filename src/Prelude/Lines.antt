-- ===== src/Prelude/Lines.antt =====
-- Texts as lines. `scan_lines` is what the standard library's `bufio.Scanner` yields of a text until
-- `Scan` is false, for a caller that does not ask `Err`.
use Prim.Native.Nat.{ℕ, suc}
use mathlib.Core.Path.{◌≡◌, refl, ◌∙◌, ap}
use mathlib.Core.Bool.{Bool, true, false, not, ◌&&◌}
use mathlib.Core.List.{List, [], ◌∷◌, ◌++◌}
use native.Mathlib.Omega.{arith}
use ats_proxy_manager.Prelude.Tests.{◌==◌, if◌then◌else◌, ltb}
use ats_proxy_manager.Prelude.Text.{Str}

abbrev pub newline : ℕ
newline = 10

abbrev pub length : {A : Type 0} → List A → ℕ
length [] = 0
length (x ∷ xs) = suc (length xs)

-- Each line, ended by a newline.
unfoldable pub render : List Str → Str
render [] = []
render (l ∷ ls) = l ++ (newline ∷ render ls)

abbrev pub add_byte : ℕ → List Str → List Str
add_byte c [] = (c ∷ []) ∷ []
add_byte c (l ∷ ls) = (c ∷ l) ∷ ls

-- The lines of a text, each ended by a newline or by the end of the text.
unfoldable pub lines_of : Str → List Str
lines_of [] = []
lines_of (c ∷ s) = let rest = lines_of s in if c == newline then [] ∷ rest else add_byte c rest

abbrev pub one_line : Str → Bool
one_line [] = true
one_line (c ∷ s) = not (c == newline) && one_line s

abbrev pub all_one_line : List Str → Bool
all_one_line [] = true
all_one_line (l ∷ ls) = one_line l && all_one_line ls

pub lines_of_line :
    (l rest : Str) → one_line l ≡ true → lines_of (l ++ newline ∷ rest) ≡ l ∷ lines_of rest
unfolding lines_of
lines_of_line [] rest h = refl
lines_of_line (c ∷ s) rest h = ground (arith, lines_of_line s rest)

pub lines_of-render : (ls : List Str) → all_one_line ls ≡ true → lines_of (render ls) ≡ ls
unfolding render lines_of
lines_of-render [] h = refl
lines_of-render (l ∷ ls) h =
    lines_of_line l (render ls) (ground arith) ∙ ap (λ t. l ∷ t) (lines_of-render ls (ground arith))

-- `bufio.MaxScanTokenSize`: the line and its newline are no longer than the buffer.
abbrev pub fits : Str → Bool
fits l = ltb (length l) 65536

-- A carriage return at the end of a line is dropped.
abbrev pub drop_cr : Str → Str
drop_cr [] = []
drop_cr (c ∷ []) = if c == 13 then [] else c ∷ []
drop_cr (c ∷ d ∷ s) = c ∷ drop_cr (d ∷ s)

unfoldable pub scanned : List Str → List Str
scanned [] = []
scanned (l ∷ ls) = let rest = scanned ls in if fits l then drop_cr l ∷ rest else []

unfoldable pub scan_lines : Str → List Str
unfolding lines_of scanned
scan_lines text = scanned (lines_of text)

-- A line that comes out as it went in.
abbrev pub IsPlain : Str → Type 0
IsPlain l = (one_line l ≡ true) × (fits l ≡ true) × (drop_cr l ≡ l)

abbrev pub AllPlain : List Str → Type 0
AllPlain [] = Unit
AllPlain (l ∷ ls) = IsPlain l × AllPlain ls

-- Plain lines are all yielded, and then whatever is yielded of the rest.
pub scan_lines-render :
    (ls : List Str) (rest : Str)
    → AllPlain ls
    → scan_lines (render ls ++ rest) ≡ ls ++ scan_lines rest
unfolding scan_lines render scanned lines_of
scan_lines-render [] rest h = refl
scan_lines-render (l ∷ ls) rest h =
    ap (λ t. scanned (lines_of t)) (append_line l (render ls) rest)
    ∙ ap scanned (lines_of_line l (render ls ++ rest) h.0.0)
    ∙ rw h.0.1 (rw h.0.2 (ap (λ t. l ∷ t) (scan_lines-render ls rest h.1)))
  where
    append_line : (a s t : Str) → (a ++ newline ∷ s) ++ t ≡ a ++ newline ∷ (s ++ t)
    append_line [] s t = refl
    append_line (c ∷ a) s t = ap (λ r. c ∷ r) (append_line a s t)

-- At a line that does not fit the scanner stops.
pub scan_lines_long :
    (l rest : Str) → one_line l ≡ true → fits l ≡ false → scan_lines (l ++ newline ∷ rest) ≡ []
unfolding scan_lines scanned
scan_lines_long l rest one long = ap scanned (lines_of_line l rest one) ∙ rw long refl

pub scan_lines_nil : scan_lines [] ≡ []
unfolding scan_lines lines_of scanned
scan_lines_nil = refl
