-- ===== src/Strings/Trim.antt =====
-- `TrimSpace`: what it leaves has no space at either end, and trimming again changes nothing.
use sql_cli.Base.{
  All, Bool, Bool-cases, Bytes, [], ap, arith, false, if◌then◌else◌, inl, inr, refl, true, ℕ, ◌++◌,
  ◌∙◌, ◌∷◌, ◌≡◌,
}
use sql_cli.Strings.Defs.{is_space, push_trimmed, trim_left, trim_right, trim_space}

-- No space at the left end.
abbrev pub starts_clean : Bytes → Bool
starts_clean [] = true
starts_clean (c ∷ s) = if is_space c then false else true

trim_left-starts_clean : (s : Bytes) → starts_clean (trim_left s) ≡ true
unfolding trim_left
trim_left-starts_clean [] = refl
trim_left-starts_clean (c ∷ s) = ground (arith, trim_left-starts_clean s)

trim_left-eq_self : (s : Bytes) → starts_clean s ≡ true → trim_left s ≡ s
unfolding trim_left
trim_left-eq_self [] h = refl
trim_left-eq_self (c ∷ s) h = ground arith

trim_right-starts_clean : (s : Bytes) → starts_clean s ≡ true → starts_clean (trim_right s) ≡ true
unfolding trim_right
trim_right-starts_clean [] h = refl
trim_right-starts_clean (c ∷ s) h = ground arith

trim_right-trim_right : (s : Bytes) → trim_right (trim_right s) ≡ trim_right s
unfolding trim_right
trim_right-trim_right [] = refl
trim_right-trim_right (c ∷ s) = ground (arith, trim_right-trim_right s)

pub trim_space-trim_space : (s : Bytes) → trim_space (trim_space s) ≡ trim_space s
unfolding trim_space
trim_space-trim_space s =
    let clean = trim_right-starts_clean (trim_left s) (trim_left-starts_clean s) in
    rw (trim_left-eq_self (trim_right (trim_left s)) clean) (trim_right-trim_right (trim_left s))

pub trim_space-cons : (c : ℕ) (s : Bytes) → is_space c ≡ true → trim_space (c ∷ s) ≡ trim_space s
unfolding trim_space trim_left
trim_space-cons c s h = rw h

-- No byte is white space.
abbrev pub Solid : Bytes → Type 0
Solid s = All (λ c. is_space c ≡ false) s

trim_right-append : (p s : Bytes) → Solid p → trim_right (p ++ s) ≡ p ++ trim_right s
unfolding trim_right
trim_right-append [] s h = refl
trim_right-append (c ∷ p) s h = ap (push_trimmed c) (trim_right-append p s h.1) ∙ rw h.0 refl

-- A text with no white space stays in front of what is trimmed.
pub trim_space-append :
    (c : ℕ) (p s : Bytes) → Solid (c ∷ p) → trim_space ((c ∷ p) ++ s) ≡ (c ∷ p) ++ trim_right s
unfolding trim_space trim_left
trim_space-append c p s h = ap trim_right (rw h.0 refl) ∙ trim_right-append (c ∷ p) s h

trim_left-push :
    (c : ℕ) (s : Bytes)
    → trim_left (push_trimmed c s) ≡ (if is_space c then trim_left s else push_trimmed c s)
unfolding trim_left
trim_left-push c [] = ground arith
trim_left-push c (d ∷ s) = ground arith

trim_left-trim_right : (s : Bytes) → trim_left (trim_right s) ≡ trim_right (trim_left s)
unfolding trim_left trim_right
trim_left-trim_right [] = refl
trim_left-trim_right (c ∷ s) =
    let i = trim_left-trim_right s in
    trim_left-push c (trim_right s)
    ∙ elim (Bool-cases (is_space c)) [ inl h ↦ rw h i | inr h ↦ ground arith ]

pub trim_space-trim_right : (s : Bytes) → trim_space (trim_right s) ≡ trim_space s
unfolding trim_space
trim_space-trim_right s =
    ap trim_right (trim_left-trim_right s) ∙ trim_right-trim_right (trim_left s)
