-- ===== src/Sqlnorm/Split/Lexing.antt =====
-- How `SplitStatements` reads statements of plain bytes and quoted literals, and comments.
use sql_cli.Base.{
  All, Bool, Bool-cases, Bytes, List, Option, [], append-nil, append_assoc, arith, false, head?,
  if◌then◌else◌, inl, inr, none, not, refl, some, true, ℕ, ◌&&◌, ◌++◌, ◌==◌, ◌∙◌, ◌∷◌, ◌≡◌, ◌⊎◌,
}
use sql_cli.Sqlnorm.Split.{
  Mode, Splitter, flush, in_backtick, in_double, in_quotes, in_single, in_text, next_is, nonempty,
  normal, scan, split_statements, step_in,
}
use sql_cli.Strings.{trim_left, trim_right, trim_space}

abbrev pub at : Mode → Bytes → List Bytes → Splitter
at m cur out = record { mode = m; current = cur; statements = out }

pub data Kind : Type 0 where
  single double backtick : Kind

abbrev pub quote_of : Kind → ℕ
quote_of single = b'\''
quote_of double = b'"'
quote_of backtick = b'`'

abbrev mode_of : Kind → Mode
mode_of single = in_single
mode_of double = in_double
mode_of backtick = in_backtick

-- The content of a literal, each of its own quotes doubled.
abbrev pub escape : ℕ → Bytes → Bytes
escape q [] = []
escape q (c ∷ s) = if c == q then q ∷ q ∷ escape q s else c ∷ escape q s

pub data Piece : Type 0 where
  plain : ℕ → Piece
  literal : Kind → Bytes → Piece

abbrev pub render : List Piece → Bytes
render [] = []
render (plain c ∷ ps) = c ∷ render ps
render (literal k body ∷ ps) = quote_of k ∷ (escape (quote_of k) body ++ (quote_of k ∷ render ps))

-- Outside literals there is no quote, no semicolon and no mark of a comment.
abbrev pub is_plain : ℕ → Option ℕ → Bool
is_plain c next =
    not (c == b'\'')
    && not (c == b'"')
    && not (c == b'`')
    && not (c == b';')
    && not (c == b'-' && next_is next b'-')
    && not (c == b'/' && next_is next b'*')

-- In front of `tail` every plain byte is one, and no literal is followed by a quote of its kind.
abbrev pub WellFormed : Bytes → List Piece → Type 0
WellFormed tail [] = Unit
WellFormed tail (plain c ∷ ps) =
    (is_plain c (head? (render ps ++ tail)) ≡ true) × WellFormed tail ps
WellFormed tail (literal k body ∷ ps) =
    (next_is (head? (render ps ++ tail)) (quote_of k) ≡ false) × WellFormed tail ps

scan_other :
    (k : Kind) (c : ℕ) (tail cur : Bytes) (out : List Bytes)
    → (c == quote_of k) ≡ false
    → scan (c ∷ tail) false (at (mode_of k) cur out)
      ≡ scan tail false (at (mode_of k) (cur ++ c ∷ []) out)
unfolding scan step_in in_quotes
scan_other single c tail cur out h = rw h
scan_other double c tail cur out h = rw h
scan_other backtick c tail cur out h = rw h

scan_doubled :
    (k : Kind) (tail cur : Bytes) (out : List Bytes)
    → scan (quote_of k ∷ quote_of k ∷ tail) false (at (mode_of k) cur out)
      ≡ scan tail false (at (mode_of k) (cur ++ quote_of k ∷ quote_of k ∷ []) out)
unfolding scan step_in in_quotes
scan_doubled single tail cur out = refl
scan_doubled double tail cur out = refl
scan_doubled backtick tail cur out = refl

scan_close :
    (k : Kind) (tail cur : Bytes) (out : List Bytes)
    → next_is (head? tail) (quote_of k) ≡ false
    → scan (quote_of k ∷ tail) false (at (mode_of k) cur out)
      ≡ scan tail false (at normal (cur ++ quote_of k ∷ []) out)
unfolding scan step_in in_quotes
scan_close single tail cur out h = rw h
scan_close double tail cur out h = rw h
scan_close backtick tail cur out h = rw h

-- Inside a literal: its content is written, up to the quote that ends it.
scan_literal :
    (k : Kind) (body tail cur : Bytes) (out : List Bytes)
    → next_is (head? tail) (quote_of k) ≡ false
    → scan (escape (quote_of k) body ++ (quote_of k ∷ tail)) false (at (mode_of k) cur out)
      ≡ scan tail false (at normal (cur ++ (escape (quote_of k) body ++ (quote_of k ∷ []))) out)
scan_literal k [] tail cur out h = scan_close k tail cur out h
scan_literal k (c ∷ body) tail cur out h = elim (Bool-cases (c == quote_of k)) [
  | inl e ↦ rw e (
      scan_doubled k (escape (quote_of k) body ++ (quote_of k ∷ tail)) cur out
      ∙ scan_literal k body tail (cur ++ quote_of k ∷ quote_of k ∷ []) out h
      ∙ rw append_assoc)
  | inr e ↦ rw e (
      scan_other k c (escape (quote_of k) body ++ (quote_of k ∷ tail)) cur out e
      ∙ scan_literal k body tail (cur ++ c ∷ []) out h
      ∙ rw append_assoc)
]

scan_plain :
    (c : ℕ) (tail cur : Bytes) (out : List Bytes)
    → is_plain c (head? tail) ≡ true
    → scan (c ∷ tail) false (at normal cur out) ≡ scan tail false (at normal (cur ++ c ∷ []) out)
unfolding scan step_in in_text
scan_plain c tail cur out h = ground arith

scan_open :
    (k : Kind) (tail cur : Bytes) (out : List Bytes)
    → scan (quote_of k ∷ tail) false (at normal cur out)
      ≡ scan tail false (at (mode_of k) (cur ++ quote_of k ∷ []) out)
unfolding scan step_in in_text
scan_open single tail cur out = refl
scan_open _ tail cur out = refl

-- Plain bytes and literals are written as they stand.
pub scan_pieces :
    (ps : List Piece) (tail cur : Bytes) (out : List Bytes)
    → WellFormed tail ps
    → scan (render ps ++ tail) false (at normal cur out)
      ≡ scan tail false (at normal (cur ++ render ps) out)
scan_pieces [] tail cur out w = rw append-nil
scan_pieces (plain c ∷ ps) tail cur out w =
    scan_plain c (render ps ++ tail) cur out w.0
    ∙ scan_pieces ps tail (cur ++ c ∷ []) out w.1
    ∙ rw append_assoc
scan_pieces (literal k body ∷ ps) tail cur out w =
    let content = escape (quote_of k) body in
    rw (append_assoc content (quote_of k ∷ render ps) tail) (
      scan_open k (content ++ (quote_of k ∷ (render ps ++ tail))) cur out
      ∙ scan_literal k body (render ps ++ tail) (cur ++ quote_of k ∷ []) out w.0
      ∙ scan_pieces ps tail ((cur ++ quote_of k ∷ []) ++ (content ++ quote_of k ∷ [])) out w.1
      ∙ simp append_assoc)

-- A semicolon behind a text changes nothing of its form.
head-semicolon :
    (s rest : Bytes)
    → (head? (s ++ b';' ∷ rest) ≡ head? (s ++ []))
      ⊎ ((head? (s ++ []) ≡ none) × (head? (s ++ b';' ∷ rest) ≡ some b';'))
head-semicolon [] rest = inr (refl, refl)
head-semicolon (c ∷ s) rest = inl refl

plain-semicolon :
    (c : ℕ) (s rest : Bytes)
    → is_plain c (head? (s ++ [])) ≡ true
    → is_plain c (head? (s ++ b';' ∷ rest)) ≡ true
plain-semicolon c s rest h = elim (head-semicolon s rest) [
  | inl e ↦ rw e h
  | inr e ↦ rw e.1 (ground (arith, rw e.0 at h))
]

next-semicolon :
    (k : Kind) (s rest : Bytes)
    → next_is (head? (s ++ [])) (quote_of k) ≡ false
    → next_is (head? (s ++ b';' ∷ rest)) (quote_of k) ≡ false
next-semicolon k [] rest h = ground arith
next-semicolon k (c ∷ s) rest h = h

WellFormed-semicolon :
    (ps : List Piece) (rest : Bytes) → WellFormed [] ps → WellFormed (b';' ∷ rest) ps
WellFormed-semicolon [] rest w = tt
WellFormed-semicolon (plain c ∷ ps) rest w =
    (plain-semicolon c (render ps) rest w.0, WellFormed-semicolon ps rest w.1)
WellFormed-semicolon (literal k body ∷ ps) rest w =
    (next-semicolon k (render ps) rest w.0, WellFormed-semicolon ps rest w.1)

scan_semicolon :
    (rest cur : Bytes) (out : List Bytes)
    → scan (b';' ∷ rest) false (at normal cur out)
      ≡ scan rest false (at normal [] (out ++ nonempty (trim_space cur)))
unfolding scan step_in in_text flush
scan_semicolon rest cur out = refl

-- The statements, each with a semicolon behind it.
abbrev pub joined : List (List Piece) → Bytes
joined [] = []
joined (ps ∷ more) = render ps ++ (b';' ∷ joined more)

abbrev pub outputs : List (List Piece) → List Bytes
outputs [] = []
outputs (ps ∷ more) = nonempty (trim_space (render ps)) ++ outputs more

scan-joined :
    (stmts : List (List Piece)) (out : List Bytes)
    → All (WellFormed []) stmts
    → scan (joined stmts) false (at normal [] out) ≡ at normal [] (out ++ outputs stmts)
scan-joined [] out w = unfold scan in rw append-nil
scan-joined (ps ∷ more) out w =
    scan_pieces ps (b';' ∷ joined more) [] out (WellFormed-semicolon ps (joined more) w.0)
    ∙ scan_semicolon (joined more) (render ps) out
    ∙ scan-joined more (out ++ nonempty (trim_space (render ps))) w.1
    ∙ rw append_assoc

-- Statements of plain bytes and literals, each ended by a semicolon, are split at these semicolons
-- and nowhere else, whatever the literals hold; each is trimmed, and left out where it is blank.
pub split_statements-joined :
    (stmts : List (List Piece))
    → All (WellFormed []) stmts
    → split_statements (joined stmts) ≡ outputs stmts
unfolding split_statements flush trim_space trim_left trim_right
split_statements-joined stmts w = rw (scan-joined stmts [] w) (append-nil (outputs stmts))
