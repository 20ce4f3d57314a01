-- ===== src/Cli/Main/Cut.antt =====
-- `strings.Cut(line, "=")` against the text that it parts.
use sql_cli.Base.{
  All, Bool-cases, Bytes, [], ap, arith, codes, drop, drop-drop, drop-length_append, false, inl,
  inr, length, none, refl, some, sym, take-length_append, ◌++◌, ◌+◌, ◌==◌, ◌∙◌, ◌∷◌, ◌≡◌, ◌⊎◌,
}
use sql_cli.Cli.Main.{cut}
use sql_cli.Strings.{has_prefix, index}

-- No `=` in a text.
abbrev pub HasNoEquals : Bytes → Type 0
HasNoEquals s = All (λ c. (c == b'=') ≡ false) s

index_append : (a b : Bytes) → HasNoEquals a → index (a ++ b'=' ∷ b) (codes "=") ≡ some (length a)
unfolding index has_prefix
index_append [] b h = refl
index_append (c ∷ a) b h = rw (h.0, index_append a b h.1) (ap some (omega arith))

pub cut_append : (a b : Bytes) → HasNoEquals a → cut (a ++ b'=' ∷ b) ≡ some (a, b)
unfolding cut
cut_append a b h = rw (index_append a b h) (
    ap some (
      ap (λ x. (x, drop (length a + 1) (a ++ b'=' ∷ b))) (take-length_append a (b'=' ∷ b))
      ∙ ap (λ x. (a, x))
          (sym (drop-drop 1 (length a) (length a + 1) (a ++ b'=' ∷ b) (omega arith))
            ∙ ap (drop 1) (drop-length_append a (b'=' ∷ b)))))

-- A text has no `=`, or the first one parts it.
parts :
    (s : Bytes) → HasNoEquals s ⊎ ((a : Bytes) × (b : Bytes) × (s ≡ a ++ b'=' ∷ b) × HasNoEquals a)
parts [] = inl tt
parts (c ∷ s) = elim (Bool-cases (c == b'=')) [
  | inl h ↦ let same : c ≡ b'=' = ground arith in inr ([], s, ap (λ x. x ∷ s) same, tt)
  | inr h ↦ elim (parts s) [
    | inl n ↦ inl (h, n)
    | inr (a, b, e, n) ↦ inr (c ∷ a, b, ap (◌∷◌ c) e, (h, n))
  ]
]

index_none : (s : Bytes) → HasNoEquals s → index s (codes "=") ≡ none
unfolding index has_prefix
index_none [] h = refl
index_none (c ∷ s) h = rw (h.0, index_none s h.1) refl

pub cut-cases :
    (s : Bytes)
    → ((cut s ≡ none))
      ⊎ ((a : Bytes) × (b : Bytes) × (cut s ≡ some (a, b)) × (s ≡ a ++ b'=' ∷ b) × HasNoEquals a)
unfolding cut
cut-cases s = elim (parts s) [
  | inl n ↦ inl (rw (index_none s n) refl)
  | inr (a, b, e, n) ↦ inr (a, b, ap cut e ∙ cut_append a b n, e, n)
]
