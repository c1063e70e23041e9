-- ===== src/Demo/Console.antt =====
-- internal/demo/demo.go: the colours, and how the output of a child process is shown.
use mathlib.Core.List.{cons-ne-nil}
use mathlib.Core.Path.{ap₂}
use besu_interbank_demo.Base.{
  ℕ, zero, suc, Bool, true, false, List, [], ◌∷◌, ◌++◌, append_assoc, append-nil, ◌≡◌, ◌≢◌, ◌∙◌, ap,
  sym, refl, Bytes, utf8, eqb, if◌then◌else◌, replicate, All, arith,
}

-- The escape sequence `ESC [ code m`.
abbrev escape : Bytes → Bytes
escape code = 27 ∷ b'[' ∷ code ++ b'm' ∷ []

abbrev pub dim : Bytes
dim = escape (utf8 "2")

abbrev pub bold : Bytes
bold = escape (utf8 "1")

abbrev pub green : Bytes
green = escape (utf8 "38;5;71")

abbrev pub red : Bytes
red = escape (utf8 "38;5;167")

abbrev pub amber : Bytes
amber = escape (utf8 "38;5;179")

abbrev pub teal : Bytes
teal = escape (utf8 "38;5;80")

abbrev pub reset : Bytes
reset = escape (utf8 "0")

unfoldable pub tint : Bytes → Bytes → Bytes
tint c s = c ++ s ++ reset

abbrev newline : ℕ
newline = 10

-- `strings.TrimRight(s, "\n")`.
unfoldable pub trim_newlines : Bytes → Bytes
trim_newlines [] = []
trim_newlines (c ∷ s) = elim (trim_newlines s) [
  | [] ↦ if eqb c newline then [] else c ∷ []
  | d ∷ t ↦ c ∷ d ∷ t
]

-- `strings.Split(s, "\n")`: `cur` is the line that is being read.
unfoldable pub split_lines : Bytes → Bytes → List Bytes
split_lines cur [] = cur ∷ []
split_lines cur (c ∷ s) = elim (eqb c newline) [
  | true ↦ cur ∷ split_lines [] s
  | false ↦ split_lines (cur ++ c ∷ []) s
]

unfoldable pub chunk_lines : Bytes → List Bytes
chunk_lines chunk = split_lines [] (trim_newlines chunk)

unfoldable pub line_text : Bytes → Bytes → Bytes → Bytes
line_text label color line =
    utf8 "  ┊ " ++ label ++ utf8 " " ++ color ++ line ++ reset ++ newline ∷ []

unfoldable pub print_lines : Bytes → Bytes → List Bytes → Bytes
print_lines label color [] = []
print_lines label color (line ∷ lines) = line_text label color line ++ print_lines label color lines

-- What one `Read` returns: the bytes read, and whether there was an error.
pub record Read : Type 0 where
  pub chunk : Bytes
  pub ended : Bool

abbrev chunk_text : Bytes → Bytes → Bytes → Bytes
chunk_text label color [] = []
chunk_text label color (c ∷ s) = print_lines label color (chunk_lines (c ∷ s))

-- What `pipePrefixed` prints for the reads that return, in their order.
unfoldable pub pipe_prefixed : Bytes → Bytes → List Read → Bytes
pipe_prefixed label color [] = []
pipe_prefixed label color (r ∷ reads) =
    let rest = pipe_prefixed label color reads in
    chunk_text label color r.chunk ++ (if r.ended then [] else rest)

-- A line: some bytes, none of them a newline.
abbrev pub IsLine : Bytes → Type 0
IsLine s = (s ≢ []) × All (λ c. eqb c newline ≡ false) s

unfoldable pub join_lines : List Bytes → Bytes
join_lines [] = []
join_lines (l ∷ []) = l
join_lines (l ∷ k ∷ ls) = l ++ newline ∷ join_lines (k ∷ ls)

-- The last byte is no newline.
abbrev EndsPlain : Bytes → Type 0
EndsPlain [] = ⊥
EndsPlain (c ∷ []) = eqb c newline ≡ false
EndsPlain (c ∷ d ∷ s) = EndsPlain (d ∷ s)

append-EndsPlain : (s t : Bytes) → EndsPlain t → EndsPlain (s ++ t)
append-EndsPlain [] t h = h
append-EndsPlain (c ∷ []) [] h = absurd h
append-EndsPlain (c ∷ []) (d ∷ t) h = h
append-EndsPlain (c ∷ d ∷ s) t h = append-EndsPlain (d ∷ s) t h

line-EndsPlain : (s : Bytes) → IsLine s → EndsPlain s
line-EndsPlain [] h = absurd (h.0 refl)
line-EndsPlain (c ∷ []) h = h.1.0
line-EndsPlain (c ∷ d ∷ s) h = line-EndsPlain (d ∷ s) (cons-ne-nil d s, h.1.1)

join_lines-EndsPlain :
    (l : Bytes) (ls : List Bytes) → All IsLine (l ∷ ls) → EndsPlain (join_lines (l ∷ ls))
unfolding join_lines
join_lines-EndsPlain l [] h = line-EndsPlain l h.0
join_lines-EndsPlain l (k ∷ ls) h =
    append-EndsPlain l (newline ∷ join_lines (k ∷ ls))
      (append-EndsPlain (newline ∷ []) (join_lines (k ∷ ls)) (join_lines-EndsPlain k ls h.1))

trim-newlines : (n : ℕ) → trim_newlines (replicate n newline) ≡ []
unfolding trim_newlines
trim-newlines zero = refl
trim-newlines (suc n) = rw (trim-newlines n) refl

trim_newlines-append :
    (s : Bytes) (n : ℕ) → EndsPlain s → trim_newlines (s ++ replicate n newline) ≡ s
unfolding trim_newlines
trim_newlines-append [] n h = absurd h
trim_newlines-append (c ∷ []) n h = ground (arith, trim-newlines n, h)
trim_newlines-append (c ∷ d ∷ s) n h = rw (trim_newlines-append (d ∷ s) n h)

split_lines_plain :
    (s rest cur : Bytes)
    → All (λ c. eqb c newline ≡ false) s
    → split_lines cur (s ++ rest) ≡ split_lines (cur ++ s) rest
unfolding split_lines
split_lines_plain [] rest cur h = ap (λ t. split_lines t rest) (sym (append-nil cur))
split_lines_plain (c ∷ s) rest cur h =
    ground (arith, split_lines_plain s rest (cur ++ c ∷ []) h.1, append_assoc cur (c ∷ []) s)

split_lines-join :
    (l : Bytes) (ls : List Bytes)
    → All IsLine (l ∷ ls)
    → split_lines [] (join_lines (l ∷ ls)) ≡ l ∷ ls
unfolding split_lines join_lines
split_lines-join l [] h = ap (split_lines []) (sym (append-nil l)) ∙ split_lines_plain l [] [] h.0.1
split_lines-join l (k ∷ ls) h =
    split_lines_plain l (newline ∷ join_lines (k ∷ ls)) [] h.0.1
    ∙ ap (λ t. l ∷ t) (split_lines-join k ls h.1)

-- A chunk of whole lines, none of them empty, with any number of newlines at its end, is split into these
-- lines.
pub chunk_lines-join :
    (l : Bytes) (ls : List Bytes) (n : ℕ)
    → All IsLine (l ∷ ls)
    → chunk_lines (join_lines (l ∷ ls) ++ replicate n newline) ≡ l ∷ ls
unfolding chunk_lines
chunk_lines-join l ls n h =
    ap (split_lines []) (trim_newlines-append (join_lines (l ∷ ls)) n (join_lines-EndsPlain l ls h))
    ∙ split_lines-join l ls h

print_lines-append :
    (label color : Bytes) (ls ks : List Bytes)
    → print_lines label color (ls ++ ks) ≡ print_lines label color ls ++ print_lines label color ks
unfolding print_lines
print_lines-append label color [] ks = refl
print_lines-append label color (l ∷ ls) ks =
    ap (λ t. line_text label color l ++ t) (print_lines-append label color ls ks)
    ∙ sym (
        append_assoc (line_text label color l) (print_lines label color ls)
          (print_lines label color ks))

-- A chunk that has bytes is printed.
nonempty-chunk_text :
    (label color s : Bytes)
    → s ≢ []
    → chunk_text label color s ≡ print_lines label color (chunk_lines s)
nonempty-chunk_text label color [] h = absurd (h refl)
nonempty-chunk_text label color (c ∷ s) h = refl

line-append-ne-nil : (l rest : Bytes) → IsLine l → l ++ rest ≢ []
line-append-ne-nil [] rest h = absurd (h.0 refl)
line-append-ne-nil (c ∷ l) rest h = cons-ne-nil c (l ++ rest)

chunk-ne-nil :
    (l : Bytes) (ls : List Bytes) (rest : Bytes) → IsLine l → join_lines (l ∷ ls) ++ rest ≢ []
unfolding join_lines
chunk-ne-nil l [] rest h = line-append-ne-nil l rest h
chunk-ne-nil [] (k ∷ ls) rest h = absurd (h.0 refl)
chunk-ne-nil (c ∷ l) (k ∷ ls) rest h = cons-ne-nil c _

chunk_text-lines :
    (label color l : Bytes) (ls : List Bytes) (n : ℕ)
    → All IsLine (l ∷ ls)
    → chunk_text label color (join_lines (l ∷ ls) ++ replicate n newline)
      ≡ print_lines label color (l ∷ ls)
chunk_text-lines label color l ls n h =
    nonempty-chunk_text label color _ (chunk-ne-nil l ls (replicate n newline) h.0)
    ∙ ap (print_lines label color) (chunk_lines-join l ls n h)

-- A read with no error.
abbrev read : Bytes → Read
read s = record { chunk = s; ended = false }

-- Some lines in one read, with a number of newlines behind the last one.
abbrev pub reads_of : List (Bytes × List Bytes × ℕ) → List Read
reads_of [] = []
reads_of ((l, ls, n) ∷ parts) = read (join_lines (l ∷ ls) ++ replicate n newline) ∷ reads_of parts

abbrev pub lines_of : List (Bytes × List Bytes × ℕ) → List Bytes
lines_of [] = []
lines_of ((l, ls, n) ∷ parts) = (l ∷ ls) ++ lines_of parts

-- The child's lines are shown one by one and in order, each with its label and colour, where every read
-- returns whole lines, none of them empty.
pub pipe_whole :
    (label color : Bytes) (parts : List (Bytes × List Bytes × ℕ))
    → All (λ p. All IsLine (p.0 ∷ p.1)) parts
    → pipe_prefixed label color (reads_of parts) ≡ print_lines label color (lines_of parts)
unfolding pipe_prefixed print_lines
pipe_whole label color [] h = refl
pipe_whole label color ((l, ls, n) ∷ parts) h =
    ap₂ (λ s t. s ++ t) (chunk_text-lines label color l ls n h.0) (pipe_whole label color parts h.1)
    ∙ sym (print_lines-append label color (l ∷ ls) (lines_of parts))

-- A line that two reads cut is shown as two lines.
pub pipe_cut :
    (label color a b : Bytes)
    → IsLine a
    → IsLine b
    → pipe_prefixed label color (read a ∷ read (b ++ newline ∷ []) ∷ [])
      ≡ line_text label color a ++ line_text label color b
unfolding pipe_prefixed print_lines join_lines
pipe_cut label color a b whole_a whole_b =
    ap₂ (λ s t. s ++ t)
      (ap (chunk_text label color) (sym (append-nil a))
        ∙ chunk_text-lines label color a [] 0 (whole_a, tt)
        ∙ append-nil _)
      (append-nil _ ∙ chunk_text-lines label color b [] 1 (whole_b, tt) ∙ append-nil _)
