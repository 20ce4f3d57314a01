-- ===== src/Sqlnorm/Itoa/Value.antt =====
-- `itoa` prints the number that it is given, as long as its buffer is large enough, and panics where
-- it is not.
use native.Mathlib.Nat.{pow-succ'}
use sql_cli.Base.{
  All, Bool-cases, Bytes, [], ap, arith, if◌then◌else◌, inl, inr, leb, negsuc, none, pos, refl,
  some, suc, sym, true, zero, ℕ, ℤ, ◌%◌, ◌*◌, ◌+◌, ◌-◌, ◌/◌, ◌<◌, ◌==◌, ◌^◌, ◌∙◌, ◌∷◌, ◌≡◌, ◌≤◌,
}
use sql_cli.Sqlnorm.Itoa.{emit, finish, magnitude, itoa}

-- The number that digits spell behind `n`.
abbrev pub value_from : ℕ → Bytes → ℕ
value_from n [] = n
value_from n (c ∷ s) = value_from (n * 10 + (c - b'0')) s

-- What a text with an optional sign stands for.
abbrev pub negate : ℕ → ℤ
negate zero = pos 0
negate (suc m) = negsuc m

abbrev pub value : Bytes → ℤ
value [] = pos 0
value (c ∷ s) = if c == b'-' then negate (value_from 0 s) else pos (value_from 0 (c ∷ s))

abbrev pub IsDigit : ℕ → Type 0
IsDigit c = (b'0' ≤ c) × (c ≤ b'9')

ten_pow : (i : ℕ) → 10 ^ suc i ≡ 10 * 10 ^ i
ten_pow i = pow-succ' 10 i

module _ (n : ℕ) (out : Bytes) where
  abbrev Prints : ℕ × Bytes → Type 0
  Prints r = (value_from 0 r.1 ≡ value_from n out) × All IsDigit r.1

value_step : (n : ℕ) (out : Bytes) → value_from (n / 10) ((b'0' + n % 10) ∷ out) ≡ value_from n out
value_step n out =
    let e : n / 10 * 10 + (b'0' + n % 10 - b'0') ≡ n = omega arith in ap (λ k. value_from k out) e

digit : (n : ℕ) → IsDigit (b'0' + n % 10)
digit n = omega arith

emit_value :
    (i n : ℕ) (out : Bytes)
    → n < 10 ^ i
    → All IsDigit out
    → (r : ℕ × Bytes) × (emit i n out ≡ some r) × Prints n out r
unfolding emit
emit_value zero n out h d =
    let z : n ≡ 0 = omega arith in ((0, out), ground arith, (ap (λ k. value_from k out) (sym z), d))
emit_value (suc i) n out h d = elim (Bool-cases (n == 0)) [
  | inl e ↦
      let z : n ≡ 0 = ground arith in ((suc i, out), rw e, (ap (λ k. value_from k out) (sym z), d))
  | inr e ↦
      let (r, eq, pq) =
        emit_value i (n / 10) ((b'0' + n % 10) ∷ out) (omega (arith, ten_pow i)) (digit n, d) in
      (r, rw e eq, (pq.0 ∙ value_step n out, pq.1))
]

-- A place is left where there is one more than the digits need.
emit_room :
    (i n : ℕ) (out : Bytes) {r : ℕ × Bytes} → n < 10 ^ i → emit (suc i) n out ≡ some r → 0 < r.0
unfolding emit
emit_room zero n out {r} h e = ground arith
emit_room (suc i) n out {r} h e = elim (Bool-cases (n == 0)) [
  | inl z ↦ ground arith
  | inr z ↦
      emit_room i (n / 10) ((b'0' + n % 10) ∷ out) {r = r} (omega (arith, ten_pow i)) (rw z at e)
]

pow_pos : (i : ℕ) → 0 < 10 ^ i
pow_pos zero = omega arith
pow_pos (suc i) = omega (arith, ten_pow i, pow_pos i)

emit_full : (i n : ℕ) (out : Bytes) → 10 ^ i ≤ n → emit i n out ≡ none
unfolding emit
emit_full zero n out h = ground arith
emit_full (suc i) n out h =
    ground (arith, emit_full i (n / 10) ((b'0' + n % 10) ∷ out), ten_pow i, pow_pos i)

emit_last :
    (i n : ℕ) (out : Bytes)
    → 10 ^ i ≤ n
    → n < 10 ^ suc i
    → (s : Bytes) × (emit (suc i) n out ≡ some (0, s))
unfolding emit
emit_last zero n out h lt = ((b'0' + n % 10) ∷ out, ground arith)
emit_last (suc i) n out h lt =
    let (s, e) =
      emit_last i (n / 10) ((b'0' + n % 10) ∷ out) (omega (arith, ten_pow i))
        (omega (arith, ten_pow (suc i))) in
    (s, ground (arith, ten_pow i, pow_pos i))

-- The numbers whose digits, with the sign, fit the buffer.
abbrev pub Fits : ℤ → Type 0
Fits (pos n) = n < 10 ^ 12
Fits (negsuc m) = suc m < 10 ^ 11

-- The numbers of an int64 for which they do not. (-2^63 is printed as a sign alone.)
abbrev pub Overflows : ℤ → Type 0
Overflows (pos n) = 10 ^ 12 ≤ n
Overflows (negsuc m) = (10 ^ 11 ≤ suc m) × (suc m < 2 ^ 63)

value_digits : (s : Bytes) → All IsDigit s → value s ≡ pos (value_from 0 s)
value_digits [] d = refl
value_digits (c ∷ s) d = ground arith

finish_neg : (r : ℕ × Bytes) → 0 < r.0 → finish true (some r) ≡ some (b'-' ∷ r.1)
unfolding finish
finish_neg (zero, out) h = absurd (omega arith)
finish_neg (suc i, out) h = refl

magnitude_lem : (m : ℕ) → m < 2 ^ 63 → magnitude m ≡ m
magnitude_lem m h = ground arith

-- A number of at most twelve digits, eleven and a sign where it is negative, is printed as a text
-- that stands for it.
pub itoa-value : (z : ℤ) → Fits z → (d : Bytes) × (itoa z ≡ some d) × (value d ≡ z)
itoa-value (pos zero) h = unfold itoa in (b'0' ∷ [], refl, refl)
itoa-value (pos (suc n)) h =
    let (r, e, p) = emit_value 12 (suc n) [] h tt in
    (r.1, unfold itoa finish in rw e (ground arith), value_digits r.1 p.1 ∙ ap pos p.0)
itoa-value (negsuc m) h =
    let (r, e, p) = emit_value 12 (suc m) [] (omega arith) tt in
    let room = emit_room 11 (suc m) [] {r = r} h e in
    (
      b'-' ∷ r.1,
      unfold itoa in rw (magnitude_lem (suc m) (omega arith), e, finish_neg r room),
      ap negate p.0,
    )

-- `itoa` panics at every other number but the least int64.
pub itoa_panics : (z : ℤ) → Overflows z → itoa z ≡ none
unfolding itoa finish
itoa_panics (pos n) h = rw (emit_full 12 n [] h) (ground arith)
itoa_panics (negsuc m) h =
    rw (magnitude_lem (suc m) h.1) (elim (Bool-cases (leb (10 ^ 12) (suc m))) [
      | inl e ↦ rw (emit_full 12 (suc m) [] (ground arith)) refl
      | inr e ↦ rw ((emit_last 11 (suc m) [] h.0 (ground arith)).1) refl
    ])
