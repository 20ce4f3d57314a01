-- ===== src/Sanitize/Hidden.antt =====
-- What the log does not show.
use sql_cli.Db.Types.{Value, bytes, null, number, text}
use sql_cli.Strings.{contains, has_prefix, index, lower_byte, to_lower}
use sql_cli.Base.{
  All, Bool, Bool-cases, Bytes, List, [], ap, arith, false, if◌then◌else◌, inl, inr, length,
  length-map, map, not, refl, sym, true, ℕ, ◌++◌, ◌==◌, ◌∙◌, ◌∷◌, ◌≡◌,
}
use sql_cli.Sanitize.{
  looks_sensitive, mask, redacted, replace_quoted, sanitize_params, sanitize_sql, sanitize_value,
}

-- Whether a byte behind a text stands between quotes.
abbrev pub opens_quote : ℕ → Bool → Bytes → Bool
opens_quote quote in_quote [] = in_quote
opens_quote quote in_quote (c ∷ s) =
    opens_quote quote (if c == quote then not in_quote else in_quote) s

abbrev pub HasNo : ℕ → Bytes → Type 0
HasNo quote s = All (λ c. (c == quote) ≡ false) s

abbrev pub stars : Bytes → Bytes
stars s = map (λ c. b'*') s

mask-append :
    (quote : ℕ) (q : Bool) (a b : Bytes)
    → mask quote q (a ++ b) ≡ mask quote q a ++ mask quote (opens_quote quote q a) b
mask-append quote q [] b = refl
mask-append quote true (c ∷ a) b =
    let i = mask-append quote true a b in
    let o = mask-append quote false a b in
    elim (Bool-cases (c == quote)) [ inl h ↦ rw (h, o) refl | inr h ↦ rw (h, i) refl ]
mask-append quote false (c ∷ a) b =
    let i = mask-append quote true a b in
    let o = mask-append quote false a b in
    elim (Bool-cases (c == quote)) [ inl h ↦ rw (h, i) refl | inr h ↦ rw (h, o) refl ]

mask-stars : (quote : ℕ) (x : Bytes) → HasNo quote x → mask quote true x ≡ stars x
mask-stars quote [] h = refl
mask-stars quote (c ∷ x) h = rw h.0 (ap (λ l. b'*' ∷ l) (mask-stars quote x h.1))

opens_quote-HasNo : (quote : ℕ) (q : Bool) (x : Bytes) → HasNo quote x → opens_quote quote q x ≡ q
opens_quote-HasNo quote q [] h = refl
opens_quote-HasNo quote q (c ∷ x) h = rw h.0 (opens_quote-HasNo quote q x h.1)

same-quote : (quote : ℕ) → (quote == quote) ≡ true
same-quote quote = ground arith

-- A literal is shown as its quotes and a star for each byte.
mask-literal :
    (quote : ℕ) (a x b : Bytes)
    → opens_quote quote false a ≡ false
    → HasNo quote x
    → mask quote false (a ++ quote ∷ (x ++ quote ∷ b))
      ≡ mask quote false a ++ quote ∷ (stars x ++ quote ∷ mask quote false b)
mask-literal quote a x b even h =
    let behind : mask quote true (x ++ quote ∷ b) ≡ stars x ++ quote ∷ mask quote false b =
      mask-append quote true x (quote ∷ b)
      ∙ rw (mask-stars quote x h, opens_quote-HasNo quote true x h, same-quote quote) refl in
    mask-append quote false a (quote ∷ (x ++ quote ∷ b)) ∙ rw (even, same-quote quote, behind) refl

stars-length : (x y : Bytes) → length x ≡ length y → stars x ≡ stars y
stars-length [] [] h = refl
stars-length (c ∷ x) (d ∷ y) h = ap (λ l. b'*' ∷ l) (stars-length x y (omega (arith, h)))
stars-length [] (d ∷ y) h = absurd (omega (arith, h))
stars-length (c ∷ x) [] h = absurd (omega (arith, h))

-- `SQL` hides what stands in a literal between single quotes, behind a text that closes its own: two
-- statements that differ only there, in a content of the same length without a quote, are shown as
-- the same text.
pub sanitize_sql_hides :
    (a x y b : Bytes)
    → opens_quote b'\'' false a ≡ false
    → HasNo b'\'' x
    → HasNo b'\'' y
    → length x ≡ length y
    → sanitize_sql (a ++ b'\'' ∷ (x ++ b'\'' ∷ b)) ≡ sanitize_sql (a ++ b'\'' ∷ (y ++ b'\'' ∷ b))
unfolding sanitize_sql replace_quoted
sanitize_sql_hides a x y b even hx hy l = ap (mask b'"' false) (
    mask-literal b'\'' a x b even hx
    ∙ ap (λ s. mask b'\'' false a ++ b'\'' ∷ (s ++ b'\'' ∷ mask b'\'' false b)) (stars-length x y l)
    ∙ sym (mask-literal b'\'' a y b even hy))

-- A parameter as the log may show it: no text that looks sensitive.
abbrev pub IsShown : Value → Type 0
IsShown (text s) = looks_sensitive s ≡ false
IsShown _ = Unit

redacted-looks_sensitive : looks_sensitive redacted ≡ false
unfolding looks_sensitive has_prefix contains index to_lower lower_byte
redacted-looks_sensitive = refl

sanitize_value-IsShown : (v : Value) → IsShown (sanitize_value v)
unfolding sanitize_value
sanitize_value-IsShown null = tt
sanitize_value-IsShown (bytes s) = tt
sanitize_value-IsShown (number n) = tt
sanitize_value-IsShown (text s) = elim (Bool-cases (looks_sensitive s)) [
  | inl h ↦ rw h redacted-looks_sensitive
  | inr h ↦ rw h h
]

shown-same : (v : Value) → IsShown v → sanitize_value v ≡ v
unfolding sanitize_value
shown-same null h = refl
shown-same (bytes s) h = refl
shown-same (number n) h = refl
shown-same (text s) h = rw h refl

sanitize_params-All : (args : List Value) → All IsShown (sanitize_params args)
unfolding sanitize_params
sanitize_params-All [] = tt
sanitize_params-All (v ∷ args) = (sanitize_value-IsShown v, sanitize_params-All args)

shown_stay : (args : List Value) → All IsShown args → sanitize_params args ≡ args
unfolding sanitize_params
shown_stay [] h = refl
shown_stay (v ∷ args) h = rw (shown-same v h.0, shown_stay args h.1) refl

-- `Params` gives as many values as it is given, none a text that looks sensitive, and a list without
-- such a text it leaves alone, so that a second call changes nothing.
pub sanitize_params_lem :
    (args : List Value)
    → (length (sanitize_params args) ≡ length args)
      × All IsShown (sanitize_params args)
      × (All IsShown args → sanitize_params args ≡ args)
      × (sanitize_params (sanitize_params args) ≡ sanitize_params args)
unfolding sanitize_params
sanitize_params_lem args = (
  length-map sanitize_value args,
  sanitize_params-All args,
  shown_stay args,
  shown_stay (sanitize_params args) (sanitize_params-All args),
)
