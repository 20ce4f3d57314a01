-- ===== src/Sqlnorm/Operation/Laws.antt =====
-- `Operation` reads the first word, whatever its case and whatever spaces stand around.
use native.Mathlib.Numerals.{add-one}
use sql_cli.Base.{
  All, Bytes, Option, [], ap, arith, false, length, length-map, none, refl, some, suc, sym, take,
  true, zero, ℕ, ◌++◌, ◌∙◌, ◌∷◌, ◌≡◌, ◌≢◌,
}
use sql_cli.Sqlnorm.Operation.{cut_at, is_read_operation, is_select, operation, separators}
use sql_cli.Strings.{
  byte_in, index_any, is_space, push_trimmed, shift, to_upper, trim_left, trim_right, trim_space,
  upper_byte,
}

upper_byte-is_space : (c : ℕ) → is_space (upper_byte c) ≡ is_space c
unfolding is_space upper_byte
upper_byte-is_space c = ground arith

upper_byte-separator : (c : ℕ) → byte_in (upper_byte c) separators ≡ byte_in c separators
unfolding byte_in upper_byte
upper_byte-separator c = ground arith

upper_byte-upper_byte : (c : ℕ) → upper_byte (upper_byte c) ≡ upper_byte c
unfolding upper_byte
upper_byte-upper_byte c = ground arith

pub to_upper-to_upper : (s : Bytes) → to_upper (to_upper s) ≡ to_upper s
unfolding to_upper
to_upper-to_upper [] = refl
to_upper-to_upper (c ∷ s) = cc (upper_byte-upper_byte c, to_upper-to_upper s)

trim_left-to_upper : (s : Bytes) → trim_left (to_upper s) ≡ to_upper (trim_left s)
unfolding trim_left to_upper
trim_left-to_upper [] = refl
trim_left-to_upper (c ∷ s) = ground (arith, upper_byte-is_space c, trim_left-to_upper s)

push_trimmed-to_upper :
    (c : ℕ) (s : Bytes) → push_trimmed (upper_byte c) (to_upper s) ≡ to_upper (push_trimmed c s)
unfolding to_upper
push_trimmed-to_upper c [] = ground (arith, upper_byte-is_space c)
push_trimmed-to_upper c (d ∷ s) = ground (arith, upper_byte-is_space c)

trim_right-to_upper : (s : Bytes) → trim_right (to_upper s) ≡ to_upper (trim_right s)
unfolding trim_right to_upper
trim_right-to_upper [] = refl
trim_right-to_upper (c ∷ s) =
    ap (push_trimmed (upper_byte c)) (trim_right-to_upper s)
    ∙ push_trimmed-to_upper c (trim_right s)

pub trim_space-to_upper : (s : Bytes) → trim_space (to_upper s) ≡ to_upper (trim_space s)
unfolding trim_space
trim_space-to_upper s = rw (trim_left-to_upper s) (trim_right-to_upper (trim_left s))

index_any-to_upper : (s : Bytes) → index_any (to_upper s) separators ≡ index_any s separators
unfolding index_any to_upper
index_any-to_upper [] = refl
index_any-to_upper (c ∷ s) = ground (arith, upper_byte-separator c, index_any-to_upper s)

take-to_upper : (n : ℕ) (s : Bytes) → take n (to_upper s) ≡ to_upper (take n s)
unfolding to_upper
take-to_upper zero s = refl
take-to_upper (suc n) [] = refl
take-to_upper (suc n) (c ∷ s) = ap (◌∷◌ (upper_byte c)) (take-to_upper n s)

cut_at-to_upper : (s : Bytes) (o : Option ℕ) → cut_at (to_upper s) o ≡ to_upper (cut_at s o)
cut_at-to_upper s none = refl
cut_at-to_upper s (some i) = take-to_upper i s

length-to_upper : (s : Bytes) → length (to_upper s) ≡ length s
unfolding to_upper
length-to_upper = length-map upper_byte

-- The operation does not depend on the case of the statement.
pub operation-to_upper : (sql : Bytes) → operation (to_upper sql) ≡ operation sql
unfolding operation
operation-to_upper sql = rw (
  trim_space-to_upper sql,
  index_any-to_upper (trim_space sql),
  length-to_upper (trim_space sql),
  cut_at-to_upper (trim_space sql) (index_any (trim_space sql) separators),
  to_upper-to_upper,
)

abbrev pub IsWord : Bytes → Type 0
IsWord = All (λ c. (is_space c ≡ false) × (byte_in c separators ≡ false))

abbrev IsBlank : Bytes → Type 0
IsBlank = All (λ c. is_space c ≡ true)

trim_left-append : (spaces s : Bytes) → IsBlank spaces → trim_left (spaces ++ s) ≡ trim_left s
unfolding trim_left
trim_left-append [] s h = refl
trim_left-append (c ∷ spaces) s h = ground (arith, trim_left-append spaces s)

trim_right-append : (word s : Bytes) → IsWord word → trim_right (word ++ s) ≡ word ++ trim_right s
unfolding trim_right
trim_right-append [] s h = refl
trim_right-append (c ∷ word) s h = ground (arith, trim_right-append word s h.1)

trim_space-word :
    (spaces word s : Bytes)
    → IsBlank spaces
    → word ≢ []
    → IsWord word
    → trim_space (spaces ++ (word ++ s)) ≡ word ++ trim_right s
unfolding trim_space
trim_space-word spaces [] s blank ne h = absurd (ne refl)
trim_space-word spaces (c ∷ word) s blank ne h =
    rw (trim_left-append spaces (c ∷ (word ++ s)) blank)
      (unfold trim_left in rw (h.0.0) (trim_right-append (c ∷ word) s h))

-- The text is empty or starts with a separator.
abbrev pub Separated : Bytes → Type 0
Separated [] = Unit
Separated (c ∷ s) = byte_in c separators ≡ true

pub trim_right-Separated :
    (c : ℕ) (s : Bytes) → byte_in c separators ≡ true → Separated (trim_right (c ∷ s))
unfolding trim_right
trim_right-Separated c s h = ground arith

cut_at-shift : (c : ℕ) (s : Bytes) (o : Option ℕ) → cut_at (c ∷ s) (shift 1 o) ≡ c ∷ cut_at s o
cut_at-shift c s none = refl
cut_at-shift c s (some i) = rw add-one

cut_at-word :
    (word s : Bytes)
    → IsWord word
    → Separated s
    → cut_at (word ++ s) (index_any (word ++ s) separators) ≡ word
unfolding index_any
cut_at-word [] [] h sep = refl
cut_at-word [] (c ∷ s) h sep = rw sep
cut_at-word (c ∷ word) s h sep =
    rw (h.0.1, cut_at-shift c (word ++ s) (index_any (word ++ s) separators))
      (ap (◌∷◌ c) (cut_at-word word s h.1 sep))

-- Behind spaces, a word of bytes that are neither spaces nor separators, with a separator behind
-- it, is the operation, in upper case.
pub operation_word :
    (spaces word : Bytes) (sep : ℕ) (rest : Bytes)
    → IsBlank spaces
    → word ≢ []
    → IsWord word
    → byte_in sep separators ≡ true
    → operation (spaces ++ (word ++ sep ∷ rest)) ≡ to_upper word
unfolding operation
operation_word spaces [] sep rest blank ne h s = absurd (ne refl)
operation_word spaces (c ∷ word) sep rest blank ne h s =
    rw
      (
        trim_space-word spaces (c ∷ word) (sep ∷ rest) blank ne h,
        cut_at-word (c ∷ word) (trim_right (sep ∷ rest)) h (trim_right-Separated sep rest s),
      )
      (ground arith)

pub operation_first :
    (word s : Bytes)
    → word ≢ []
    → IsWord word
    → Separated (trim_right s)
    → operation (word ++ s) ≡ to_upper word
unfolding operation
operation_first [] s ne h sep = absurd (ne refl)
operation_first (c ∷ word) s ne h sep =
    rw (trim_space-word [] (c ∷ word) s tt ne h, cut_at-word (c ∷ word) (trim_right s) h sep)
      (ground arith)

pub to_upper-IsWord : (word : Bytes) → IsWord (to_upper word) → IsWord word
unfolding to_upper
to_upper-IsWord [] h = tt
to_upper-IsWord (c ∷ word) h = (
  (sym (upper_byte-is_space c) ∙ h.0.0, sym (upper_byte-separator c) ∙ h.0.1),
  to_upper-IsWord word h.1,
)

pub select-is_read : (op : Bytes) → is_select op ≡ true → is_read_operation op ≡ true
unfolding is_select is_read_operation
select-is_read op h = ground arith
