-- ===== src/Audit/Lines.antt =====
-- `str::lines`, and the lines of a file that was written line by line.
use fips_dropbox.Prelude.{
  ◌≡◌, ◌≢◌, refl, sym, List, [], ◌∷◌, ◌++◌, append_assoc, append-nil, arith, ◌==◌, is_empty,
  if◌then◌else◌,
}
use fips_dropbox.Prelude.Table.Laws.{All, All-append}
use fips_dropbox.Text.{Text}

-- A carriage return before the line feed belongs to the line's end.
unfoldable pub strip_cr : Text → Text
strip_cr [] = []
strip_cr (c ∷ []) = if c == b'\r' then [] else c ∷ []
strip_cr (c ∷ d ∷ s) = c ∷ strip_cr (d ∷ s)

lines_from : Text → Text → List Text
unfolding strip_cr
lines_from line [] = if is_empty line then [] else line ∷ []
lines_from line (c ∷ s) =
    let closed = strip_cr line ∷ lines_from [] s in
    let longer = lines_from (line ++ c ∷ []) s in if c == b'\n' then closed else longer

-- `str::lines`
unfoldable pub lines : Text → List Text
unfolding lines_from
lines s = lines_from [] s

-- The contents of a file after `writeln!` of each line.
unfoldable pub render : List Text → Text
render [] = []
render (line ∷ rest) = line ++ (b'\n' ∷ render rest)

-- A line that `lines` gives back: no line feed or carriage return in it.
abbrev pub IsOneLine : Text → Type 0
IsOneLine = All (λ c. (c ≢ b'\n') × (c ≢ b'\r'))

strip_cr_none : (s : Text) → IsOneLine s → strip_cr s ≡ s
unfolding strip_cr
strip_cr_none [] h = refl
strip_cr_none (c ∷ []) h = ground arith
strip_cr_none (c ∷ d ∷ s) h = ground (arith, strip_cr_none (d ∷ s) h.1)

lines_from-append :
    (line xs rest : Text)
    → IsOneLine line
    → IsOneLine xs
    → lines_from line (xs ++ (b'\n' ∷ rest)) ≡ (line ++ xs) ∷ lines_from [] rest
unfolding lines_from
lines_from-append line [] rest h k = rw (strip_cr_none line h, append-nil)
lines_from-append line (c ∷ xs) rest h k = ground (
  arith,
  lines_from-append (line ++ c ∷ []) xs rest
      (All-append (λ c. (c ≢ b'\n') × (c ≢ b'\r')) line (c ∷ []) h (k.0, tt)) k.1,
  append_assoc line (c ∷ []) xs,
)

-- What was written line by line is read line by line.
pub lines-render : (ls : List Text) → All IsOneLine ls → lines (render ls) ≡ ls
unfolding lines render
lines-render [] h = refl
lines-render (l ∷ ls) h = rw (lines_from-append [] l (render ls) tt h.0, lines-render ls h.1)

pub render-append : (xs ys : List Text) → render (xs ++ ys) ≡ render xs ++ render ys
unfolding render
render-append [] ys = refl
render-append (x ∷ xs) ys =
    rw (render-append xs ys) (sym (append_assoc x (b'\n' ∷ render xs) (render ys)))
