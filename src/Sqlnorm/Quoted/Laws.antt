-- ===== src/Sqlnorm/Quoted/Laws.antt =====
-- What `stripQuoted` keeps and what it hides.
use sql_cli.Base.{suc, ◌≡◌, ◌≢◌, refl, ap, [], ◌∷◌, ◌++◌, arith, Bytes, length, All}
use sql_cli.Sqlnorm.Quoted.{Quote, outside, in_single, strip_byte, strip_from, strip_quoted}

-- The flags behind a text.
unfoldable pub quote_after : Quote → Bytes → Quote
quote_after q [] = q
quote_after q (c ∷ s) = quote_after (strip_byte q c).0 s

-- Every quote that the text opens is closed in it.
abbrev pub IsBalanced : Bytes → Type 0
IsBalanced s = quote_after outside s ≡ outside

pub strip_from-append :
    (q : Quote) (a b : Bytes)
    → strip_from q (a ++ b) ≡ strip_from q a ++ strip_from (quote_after q a) b
unfolding strip_from quote_after
strip_from-append q [] b = refl
strip_from-append q (c ∷ a) b =
    ap (◌∷◌ (strip_byte q c).1) (strip_from-append (strip_byte q c).0 a b)

pub strip_quoted-append :
    (a b : Bytes) → IsBalanced a → strip_quoted (a ++ b) ≡ strip_quoted a ++ strip_quoted b
unfolding strip_quoted
strip_quoted-append a b h = rw (strip_from-append outside a b, h)

-- The text keeps its length.
pub length-strip_from : (q : Quote) (s : Bytes) → length (strip_from q s) ≡ length s
unfolding strip_from
length-strip_from q [] = refl
length-strip_from q (c ∷ s) = ap suc (length-strip_from (strip_byte q c).0 s)

-- As many spaces as the text has bytes.
abbrev pub blank : Bytes → Bytes
blank [] = []
blank (c ∷ s) = b' ' ∷ blank s

pub strip_from_in_single :
    (body rest : Bytes)
    → All (λ c. c ≢ b'\'') body
    → strip_from in_single (body ++ b'\'' ∷ rest) ≡ blank body ++ b' ' ∷ strip_from outside rest
unfolding strip_from strip_byte
strip_from_in_single [] rest h = refl
strip_from_in_single (c ∷ s) rest h = ground (arith, strip_from_in_single s rest h.1)

-- Single-quoted text behind a balanced prefix becomes spaces, its quotes included.
pub strip_quoted-literal :
    (a body b : Bytes)
    → IsBalanced a
    → All (λ c. c ≢ b'\'') body
    → strip_quoted (a ++ (b'\'' ∷ (body ++ b'\'' ∷ b)))
      ≡ strip_quoted a ++ (b' ' ∷ (blank body ++ b' ' ∷ strip_quoted b))
unfolding strip_quoted strip_byte
strip_quoted-literal a body b bal h =
    rw (strip_from-append outside a (b'\'' ∷ (body ++ b'\'' ∷ b)), bal)
      (unfold strip_from in rw (strip_from_in_single body b h))
