-- ===== src/Base/Assoc.antt =====
-- A Go map with string keys, as a list of its entries.
use mathlib.Core.Bool.{true, false}
use mathlib.Core.List.{List, [], ◌∷◌}
use mathlib.Core.Logic.{inl, inr}
use mathlib.Core.Option.{Option, none, some}
use mathlib.Core.Path.{◌≡◌, refl, ◌∙◌, ap}
use Prim.Native.Nat.{◌+◌}
use native.Mathlib.Omega.{arith}
use sql_cli.Base.Lists.{length}
use sql_cli.Base.Tests.{Bool-cases, if◌then◌else◌}
use sql_cli.Base.Text.{Bytes, beq, beq_iff}

pub beq-same : (k : Bytes) → beq k k ≡ true
beq-same k = (beq_iff k k).1 refl

beq_sym : (a b : Bytes) → beq a b ≡ beq b a
beq_sym [] [] = refl
beq_sym [] (y ∷ b) = refl
beq_sym (x ∷ a) [] = refl
beq_sym (x ∷ a) (y ∷ b) = let i = beq_sym a b in ground arith

abbrev pub Entries {ℓ} : Type ℓ → Type ℓ
Entries A = List (Bytes × A)

module _ {ℓ} {A : Type ℓ} where
  abbrev pub lookup : Bytes → Entries A → Option A
  lookup k [] = none
  lookup k ((k', a) ∷ rest) = let found = lookup k rest in if beq k k' then some a else found

  -- `m[k] = a`.
  abbrev pub put : Bytes → A → Entries A → Entries A
  put k a [] = (k, a) ∷ []
  put k a ((k', b) ∷ rest) =
      let after = put k a rest in if beq k k' then (k, a) ∷ rest else (k', b) ∷ after

  -- `delete(m, k)`.
  abbrev pub remove : Bytes → Entries A → Entries A
  remove k [] = []
  remove k ((k', b) ∷ rest) =
      let after = remove k rest in if beq k k' then rest else (k', b) ∷ after

  -- No key stands twice.
  abbrev pub Distinct : Entries A → Type ℓ
  Distinct [] = Unit
  Distinct ((k, a) ∷ rest) = (lookup k rest ≡ none) × Distinct rest

  pub lookup-put :
      (k k' : Bytes) (a : A) (m : Entries A)
      → lookup k (put k' a m) ≡ (if beq k k' then some a else lookup k m)
  lookup-put k k' a [] = refl
  lookup-put k k' a ((k'', b) ∷ rest) =
      let i = lookup-put k k' a rest in
      elim (Bool-cases (beq k' k'')) [
        | inl e ↦ let same = (beq_iff k' k'').0 e in ground arith
        | inr e ↦ elim (Bool-cases (beq k k')) [
          | inl e' ↦ let same = (beq_iff k k').0 e' in ground arith
          | inr e' ↦ ground arith
        ]
      ]

  pub lookup-remove :
      (k k' : Bytes) (m : Entries A)
      → Distinct m
      → lookup k (remove k' m) ≡ (if beq k k' then none else lookup k m)
  lookup-remove k k' [] d = ground arith
  lookup-remove k k' ((k'', b) ∷ rest) d =
      let i = lookup-remove k k' rest d.1 in
      elim (Bool-cases (beq k' k'')) [
        | inl e ↦ elim (Bool-cases (beq k k')) [
          | inl e' ↦
              let same = (beq_iff k k').0 e' ∙ (beq_iff k' k'').0 e in
              let gone : lookup k rest ≡ none = ap (λ x. lookup x rest) same ∙ d.0 in
              rw (e, e') gone
          | inr e' ↦ let same = (beq_iff k' k'').0 e in ground arith
        ]
        | inr e ↦ elim (Bool-cases (beq k k')) [
          | inl e' ↦ let same = (beq_iff k k').0 e' in ground arith
          | inr e' ↦ ground arith
        ]
      ]

  pub put-Distinct : (k : Bytes) (a : A) (m : Entries A) → Distinct m → Distinct (put k a m)
  put-Distinct k a [] d = (refl, tt)
  put-Distinct k a ((k', b) ∷ rest) d = elim (Bool-cases (beq k k')) [
    | inl e ↦ let same = (beq_iff k k').0 e in rw e (ap (λ x. lookup x rest) same ∙ d.0, d.1)
    | inr e ↦
        let other : beq k' k ≡ false = beq_sym k' k ∙ e in
        rw e (lookup-put k' k a rest ∙ rw other d.0, put-Distinct k a rest d.1)
  ]

  pub remove-Distinct : (k : Bytes) (m : Entries A) → Distinct m → Distinct (remove k m)
  remove-Distinct k [] d = tt
  remove-Distinct k ((k', b) ∷ rest) d = elim (Bool-cases (beq k k')) [
    | inl e ↦ rw e d.1
    | inr e ↦
        let other : beq k' k ≡ false = beq_sym k' k ∙ e in
        rw e (lookup-remove k' k rest d.1 ∙ rw other d.0, remove-Distinct k rest d.1)
  ]

  pub length-put :
      (k : Bytes) (a : A) (m : Entries A) → lookup k m ≡ none → length (put k a m) ≡ length m + 1
  length-put k a [] h = refl
  length-put k a ((k', b) ∷ rest) h = let i = length-put k a rest in ground arith

  pub length-remove :
      (k : Bytes) (m : Entries A) {a : A} → lookup k m ≡ some a → length m ≡ length (remove k m) + 1
  length-remove k [] h = cc
  length-remove k ((k', b) ∷ rest) {a} h = let i = length-remove k rest {a = a} in ground arith

  pub lookup-empty : (m : Entries A) → ((k : Bytes) → lookup k m ≡ none) → m ≡ []
  lookup-empty [] h = refl
  lookup-empty ((k, a) ∷ rest) h = let gone = h k in let same = beq-same k in absurd (cc)
