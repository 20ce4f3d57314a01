-- ===== src/Registry/Map.antt =====
-- What the loops of the registry do with the entries of its map.

use sql_cli.Db.Types.{Error}
use mathlib.Core.List.{Memᴰ}
use mathlib.Core.List.Memᴰ
use sql_cli.Base.{
  Bool-cases, Bytes, Distinct, Entries, List, Option, [], ap, arith, beq, beq-same, beq_iff, inl,
  inr, length, length-remove, lookup, lookup-empty, lookup-remove, map, none, refl, remove,
  remove-Distinct, some, sym, ◌↔◌, ◌∙◌, ◌∷◌, ◌≡◌, ◌≢◌,
}
use sql_cli.Db.Open.{Pools, Session, close_session}
use sql_cli.Registry.{close_each, with_close_error}

module _ {ℓ} {A : Type ℓ} where
  -- A loop over a map meets the entries of the map, each once.
  pub record IsRangeOf (order m : Entries A) : Type ℓ where
    pub once : Distinct order
    pub same : (k : Bytes) → lookup k order ≡ lookup k m

  abbrev pub IsRange : (Entries A → Entries A) → Type ℓ
  IsRange range = (m : Entries A) → Distinct m → IsRangeOf (range m) m

  rest-IsRangeOf :
      (k : Bytes) (a : A) (rest m : Entries A)
      → Distinct m
      → IsRangeOf ((k, a) ∷ rest) m
      → IsRangeOf rest (remove k m)
  rest-IsRangeOf k a rest m d r = record {
    once = r.once.1;
    same = λ k'. elim (Bool-cases (beq k' k)) [
      | inl e ↦
          ap (λ x. lookup x rest) ((beq_iff k' k).0 e)
          ∙ r.once.0
          ∙ sym (lookup-remove k' k m d ∙ rw e refl)
      | inr e ↦ sym (lookup-remove k' k m d ∙ rw e (sym (r.same k') ∙ rw e refl))
    ];
  }

  pub length-IsRangeOf :
      (order m : Entries A) → Distinct m → IsRangeOf order m → length order ≡ length m
  length-IsRangeOf [] m d r = rw (lookup-empty m (λ k. sym (r.same k))) refl
  length-IsRangeOf ((k, a) ∷ rest) m d r =
      let here : lookup k m ≡ some a = sym (r.same k) ∙ rw (beq-same k) refl in
      let i =
        length-IsRangeOf rest (remove k m) (remove-Distinct k m d)
          (rest-IsRangeOf k a rest m d r) in
      let j = length-remove k m here in omega arith

  -- What stays under a key, where a loop removes what it meets.
  abbrev survivor : Option A → Option A → Option A
  survivor none kept = kept
  survivor (some a) kept = none

  survivor-none : (o : Option A) → survivor o none ≡ none
  survivor-none none = refl
  survivor-none (some a) = refl

  survivor-same : (o : Option A) → survivor o o ≡ none
  survivor-same none = refl
  survivor-same (some a) = refl

  abbrev pub names : Entries A → List Bytes
  names m = map (λ entry. entry.0) m

  names-lookup : (k : Bytes) (m : Entries A) → Memᴰ k (names m) → lookup k m ≢ none
  names-lookup k [] mem = absurd (Memᴰ.not-nil mem)
  names-lookup k ((k', a) ∷ rest) (Memᴰ.head e) =
      λ h. let t = (beq_iff k k').1 e in absurd (ground arith)
  names-lookup k ((k', a) ∷ rest) (Memᴰ.tail mem) =
      let i = names-lookup k rest mem in λ h. absurd (ground arith)

  lookup-names : (k : Bytes) (m : Entries A) → lookup k m ≢ none → Memᴰ k (names m)
  lookup-names k [] h = absurd (h refl)
  lookup-names k ((k', a) ∷ rest) h = elim (Bool-cases (beq k k')) [
    | inl e ↦ Memᴰ.head ((beq_iff k k').0 e)
    | inr e ↦ Memᴰ.tail (lookup-names k rest (λ g. h (rw e g)))
  ]

  pub names_iff : (k : Bytes) (m : Entries A) → Memᴰ k (names m) ↔ (lookup k m ≢ none)
  names_iff k m = (names-lookup k m, lookup-names k m)

module _ (p : Pools) where
  open p use {World, Pool}

  close_each-lookup :
      (k : Bytes) (order m : Entries (Session Pool)) (w : World)
      → Distinct m
      → lookup k (close_each p order m w).0 ≡ survivor (lookup k order) (lookup k m)
  close_each-lookup k [] m w d = refl
  close_each-lookup k ((name, s) ∷ rest) m w d =
      let i =
        close_each-lookup k rest (remove name m) (close_session p s w).0
          (remove-Distinct name m d) in
      let gone = lookup-remove k name m d in
      elim (Bool-cases (beq k name)) [
        | inl e ↦
            rw e
              (i ∙ ap (survivor (lookup k rest)) (gone ∙ rw e refl) ∙ survivor-none (lookup k rest))
        | inr e ↦ rw e (i ∙ ap (survivor (lookup k rest)) (gone ∙ rw e refl))
      ]

  -- `CloseAll` leaves nothing in the map.
  pub close_each-empty :
      (order m : Entries (Session Pool)) (w : World)
      → Distinct m
      → IsRangeOf order m
      → (close_each p order m w).0 ≡ []
  close_each-empty order m w d r = lookup-empty (close_each p order m w).0 (λ k.
      close_each-lookup k order m w d
      ∙ ap (λ o. survivor o (lookup k m)) (r.same k)
      ∙ survivor-same (lookup k m))

  -- Sessions closed one after another, with the errors.
  abbrev pub closings : Entries (Session Pool) → World → World × List Error
  closings [] w = (w, [])
  closings ((name, s) ∷ rest) w =
      let (w', e) = close_session p s w in
      let (w'', errs) = closings rest w' in (w'', with_close_error name e errs)

  pub close_each-closings :
      (order m : Entries (Session Pool)) (w : World)
      → ((close_each p order m w).1, (close_each p order m w).2) ≡ closings order w
  close_each-closings [] m w = refl
  close_each-closings ((name, s) ∷ rest) m w =
      let i = close_each-closings rest (remove name m) (close_session p s w).0 in
      ap (λ r. (r.0, with_close_error name (close_session p s w).1 r.1)) i
