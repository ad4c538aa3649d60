-- ===== src/Helper/Manager/Logs.antt =====
-- The log capture of helper/internal/ats/manager.go. A file is its text, or none where it cannot be
-- opened.
use ats_proxy_manager.Prelude.Lines.{
  newline, length, render, one_line, fits, AllPlain, scan_lines, scan_lines-render, scan_lines_long,
  scan_lines_nil,
}
use ats_proxy_manager.Prelude.{
  Option, none, some, ℕ, ◌+◌, ◌-◌, ◌≤◌, ◌<◌, zero, suc, Bool, true, false, List, [], ◌∷◌, ◌++◌, ◌≡◌,
  refl, sym, ◌∙◌, ap, subst, ltb, ◌==◌, ◌&&◌, ◌||◌, if◌then◌else◌, Bool-cases, inl, inr, arith, Str,
  codes,
}

abbrev pub drop : {A : Type 0} → ℕ → List A → List A
drop zero xs = xs
drop (suc n) [] = []
drop (suc n) (x ∷ xs) = drop n xs

-- `if len(lines) > n { lines = lines[1:] }`
abbrev pub cut_first : {A : Type 0} → ℕ → List A → List A
cut_first n lines = if ltb n (length lines) then drop 1 lines else lines

-- The loop of `readLastLines`, from the lines kept so far.
unfoldable pub keep_last : {A : Type 0} → ℕ → List A → List A → List A
keep_last n lines [] = lines
keep_last n lines (l ∷ rest) = keep_last n (cut_first n (lines ++ l ∷ [])) rest

-- An error of the scanner is not looked at.
unfoldable pub read_last_lines : ℕ → Option Str → List Str
unfolding keep_last scan_lines
read_last_lines n none = []
read_last_lines n (some text) = keep_last n [] (scan_lines text)

abbrev pub starts_with : Str → Str → Bool
starts_with [] s = true
starts_with (c ∷ p) [] = false
starts_with (c ∷ p) (d ∷ s) = c == d && starts_with p s

-- `strings.Contains`.
unfoldable pub contains : Str → Str → Bool
contains p [] = starts_with p []
contains p (c ∷ s) = starts_with p (c ∷ s) || contains p s

abbrev pub is_relevant : Str → Bool
is_relevant line = contains (codes "Result for") line || contains (codes "parent") line

-- The filter of `CaptureLogs`; the time and the level of a line are left out.
unfoldable pub relevant_lines : List Str → List Str
unfolding contains
relevant_lines [] = []
relevant_lines (l ∷ ls) = let rest = relevant_lines ls in if is_relevant l then l ∷ rest else rest

unfoldable pub capture_logs : Option Str → List Str
unfolding read_last_lines relevant_lines
capture_logs file = relevant_lines (read_last_lines 100 file)

length-append : {A : Type 0} (xs : List A) (y : A) → length (xs ++ y ∷ []) ≡ suc (length xs)
length-append [] y = refl
length-append (x ∷ xs) y = ap suc (length-append xs y)

append-one : {A : Type 0} (xs : List A) (y : A) (zs : List A) → (xs ++ y ∷ []) ++ zs ≡ xs ++ y ∷ zs
append-one [] y zs = refl
append-one (x ∷ xs) y zs = ap (λ l. x ∷ l) (append-one xs y zs)

append-nil : {A : Type 0} (xs : List A) → xs ++ [] ≡ xs
append-nil [] = refl
append-nil (x ∷ xs) = ap (λ l. x ∷ l) (append-nil xs)

drop_same : {A : Type 0} (m k : ℕ) (xs ys : List A) → m ≡ k → xs ≡ ys → drop m xs ≡ drop k ys
drop_same m k xs ys e f = ap (λ j. drop j xs) e ∙ ap (drop k) f

-- One turn of the loop keeps the end of what was read.
kept_one :
    {A : Type 0} (n : ℕ) (lines : List A) (l : A) (rest : List A)
    → length lines ≤ n
    → (length (cut_first n (lines ++ l ∷ [])) ≤ n)
      × (drop
            (length (cut_first n (lines ++ l ∷ [])) + length rest - n)
            (cut_first n (lines ++ l ∷ []) ++ rest)
          ≡ drop (length lines + suc (length rest) - n) (lines ++ l ∷ rest))
kept_one {A = A} n lines l rest h = elim (Bool-cases (ltb n (length (lines ++ l ∷ [])))) [
  | inl full ↦ rw full (of_full lines h (of_lt full))
  | inr room ↦ rw room (
    of_room room,
    drop_same _ _ _ _ (ap (λ k. k + length rest - n) (length-append lines l) ∙ omega arith)
        (append-one lines l rest),
  )
]
  where
    of_lt : ltb n (length (lines ++ l ∷ [])) ≡ true → n < suc (length lines)
    of_lt e = ground (arith, e, length-append lines l)

    of_room : ltb n (length (lines ++ l ∷ [])) ≡ false → length (lines ++ l ∷ []) ≤ n
    of_room e = ground (arith, e)

    of_full :
        (xs : List A)
        → length xs ≤ n
        → n < suc (length xs)
        → (length (drop 1 (xs ++ l ∷ [])) ≤ n)
          × (drop (length (drop 1 (xs ++ l ∷ [])) + length rest - n) (drop 1 (xs ++ l ∷ []) ++ rest)
              ≡ drop (length xs + suc (length rest) - n) (xs ++ l ∷ rest))
    of_full [] le lt = (
      omega (arith, le, lt),
      drop_same (0 + length rest - n) (length rest) rest rest (omega (arith, le, lt)) refl
          ∙ sym (
              drop_same (0 + suc (length rest) - n) (suc (length rest)) (l ∷ rest) (l ∷ rest)
                (omega (arith, le, lt)) refl),
    )
    of_full (x ∷ xs) le lt =
        let long = length-append xs l in
        (
          subst (λ k. k ≤ n) (sym long) (omega (arith, le, lt)),
          drop_same _ (length rest) _ _ (ap (λ k. k + length rest - n) long ∙ omega (arith, le, lt))
                (append-one xs l rest)
              ∙ sym (
                  drop_same (suc (length xs) + suc (length rest) - n) (suc (length rest))
                    (x ∷ xs ++ l ∷ rest) (x ∷ xs ++ l ∷ rest) (omega (arith, le, lt)) refl),
        )

keep_last-drop :
    {A : Type 0} (n : ℕ) (lines rest : List A)
    → length lines ≤ n
    → keep_last n lines rest ≡ drop (length lines + length rest - n) (lines ++ rest)
unfolding keep_last
keep_last-drop n lines [] h =
    sym
      (drop_same (length lines + 0 - n) 0 (lines ++ []) lines (omega (arith, h)) (append-nil lines))
keep_last-drop n lines (l ∷ rest) h =
    let (le, same) = kept_one n lines l rest h in
    keep_last-drop n (cut_first n (lines ++ l ∷ [])) rest le ∙ same

-- The lines that a caller of the scanner sees.
abbrev pub lines_in : Option Str → List Str
lines_in none = []
lines_in (some text) = scan_lines text

abbrev pub last_of : {A : Type 0} → ℕ → List A → List A
last_of n lines = drop (length lines - n) lines

pub read_last_lines-scan :
    (n : ℕ) (file : Option Str) → read_last_lines n file ≡ last_of n (lines_in file)
unfolding read_last_lines
read_last_lines-scan n none = sym (drop_same (0 - n) 0 [] [] (omega arith) refl)
read_last_lines-scan n (some text) =
    keep_last-drop n [] (scan_lines text) (omega arith)
    ∙ drop_same (0 + length (scan_lines text) - n) (length (scan_lines text) - n) (scan_lines text)
        (scan_lines text) (omega arith) refl

-- For a file of lines that end in a newline, none of them with a carriage return before it and none
-- longer than the scanner's buffer of 65536 bytes, `readLastLines` is the last n of them; where such a
-- longer line follows them, it is the last n of those before the longer one, whatever stands after it;
-- and for a file that cannot be opened it is empty.
pub read_last_lines-drop :
    (n : ℕ) (lines : List Str) (long rest : Str)
    → AllPlain lines
    → one_line long ≡ true
    → fits long ≡ false
    → (read_last_lines n (some (render lines)) ≡ last_of n lines)
      × (read_last_lines n (some (render lines ++ (long ++ newline ∷ rest))) ≡ last_of n lines)
      × (read_last_lines n none ≡ [])
unfolding read_last_lines
read_last_lines-drop n lines long rest plain one too_long = (
  read_last_lines-scan n (some (render lines))
      ∙ ap (last_of n) (
          ap scan_lines (sym (append-nil (render lines)))
          ∙ scan_lines-render lines [] plain
          ∙ ap (λ t. lines ++ t) scan_lines_nil
          ∙ append-nil lines),
  read_last_lines-scan n (some (render lines ++ (long ++ newline ∷ rest)))
      ∙ ap (last_of n) (
          scan_lines-render lines (long ++ newline ∷ rest) plain
          ∙ ap (λ t. lines ++ t) (scan_lines_long long rest one too_long)
          ∙ append-nil lines),
  refl,
)
