-- ===== src/Sqlnorm/Keyword/Search.antt =====
-- The loop of `matchKeyword` visits every occurrence, and ends.
use sql_cli.Base.{
  Bool, Bool-cases, Bytes, Option, [], arith, drop, drop-drop, drop_all, false, inl, inr, leb,
  length, ltb, none, refl, some, suc, true, zero, ℕ, ◌+◌, ◌-◌, ◌<◌, ◌==◌, ◌≡◌, ◌≢◌, ◌≤◌,
}
use sql_cli.Sqlnorm.Keyword.{stands_alone, next_index, keyword_loop}
use sql_cli.Strings.{has_prefix, shift, index, index_found, index_first, index-none, has_prefix-nil}

module _ (upper keyword : Bytes) where
  -- The keyword stands at a position, and the tests of the loop pass there.
  abbrev pub AloneAt : ℕ → Type 0
  AloneAt i = (has_prefix (drop i upper) keyword ≡ true) × (stands_alone upper keyword i ≡ true)

  abbrev pub IsOccurrence : Option ℕ → Type 0
  IsOccurrence none = Unit
  IsOccurrence (some i) = has_prefix (drop i upper) keyword ≡ true

  shift-IsOccurrence :
      (n : ℕ) (o : Option ℕ) → index (drop n upper) keyword ≡ o → IsOccurrence (shift n o)
  shift-IsOccurrence n none h = tt
  shift-IsOccurrence n (some i) h =
      rw (← drop-drop i n (i + n) upper refl) (index_found (drop n upper) keyword i h)

  next_index-IsOccurrence : (i : ℕ) → IsOccurrence (next_index upper keyword i)
  unfolding next_index
  next_index-IsOccurrence i = elim (Bool-cases (leb (length upper) (i + 1))) [
    | inl e ↦ rw e tt
    | inr e ↦ rw e (shift-IsOccurrence (i + 1) _ refl)
  ]

  -- A hit of the loop is an occurrence that passes the tests.
  pub keyword_loop_sound :
      (f : ℕ) (o : Option ℕ)
      → IsOccurrence o
      → keyword_loop f upper keyword o ≡ some true
      → (i : ℕ) × AloneAt i
  unfolding keyword_loop
  keyword_loop_sound zero o occ h = absurd (cc)
  keyword_loop_sound (suc f) none occ h = absurd (cc)
  keyword_loop_sound (suc f) (some i) occ h = elim (Bool-cases (stands_alone upper keyword i)) [
    | inl e ↦ (i, (occ, e))
    | inr e ↦
        keyword_loop_sound f (next_index upper keyword i) (next_index-IsOccurrence i) (rw e at h)
  ]

  -- No position before the one that the loop is at passes the tests.
  abbrev pub Clear : Option ℕ → Type 0
  Clear none = (j : ℕ) → ¬ AloneAt j
  Clear (some i) = (j : ℕ) → j < i → ¬ AloneAt j

  shift-Clear :
      (n : ℕ) (o : Option ℕ)
      → keyword ≢ []
      → index (drop n upper) keyword ≡ o
      → ((j : ℕ) → j < n → ¬ AloneAt j)
      → Clear (shift n o)
  shift-Clear n none ne h before = λ j alone. elim (Bool-cases (ltb j n)) [
    | inl e ↦ before j (ground arith) alone
    | inr e ↦
        let k : n ≤ j = ground arith in
        let gone = index-none (drop n upper) keyword (j - n) ne h in
        let same = drop-drop (j - n) n j upper (omega arith) in cc (gone, same, alone.0)
  ]
  shift-Clear n (some i) ne h before = λ j lt alone. elim (Bool-cases (ltb j n)) [
    | inl e ↦ before j (ground arith) alone
    | inr e ↦
        let k : n ≤ j = ground arith in
        let gone = index_first (drop n upper) keyword i (j - n) h (omega arith) in
        let same = drop-drop (j - n) n j upper (omega arith) in cc (gone, same, alone.0)
  ]

  -- Behind the end of the text nothing stands.
  pub past_end : (i : ℕ) → keyword ≢ [] → length upper ≤ i → ¬ AloneAt i
  past_end i ne le alone = cc (has_prefix-nil keyword ne, drop_all i upper le, alone.0)

  next_index-Clear :
      (i : ℕ)
      → keyword ≢ []
      → stands_alone upper keyword i ≡ false
      → Clear (some i)
      → Clear (next_index upper keyword i)
  unfolding next_index
  next_index-Clear i ne fails clear = elim (Bool-cases (leb (length upper) (i + 1))) [
    | inl e ↦ rw e (λ j alone. elim (Bool-cases (leb (length upper) j)) [
      | inl past ↦ past_end j ne (ground arith) alone
      | inr inside ↦ upto j (ground arith) alone
    ])
    | inr e ↦ rw e (shift-Clear (i + 1) _ ne refl upto)
  ]
    where
      upto : (j : ℕ) → j < i + 1 → ¬ AloneAt j
      upto j lt alone = elim (Bool-cases (j == i)) [
        | inl same ↦ let e : j ≡ i = ground arith in cc (rw e at alone.1, fails)
        | inr other ↦ clear j (ground arith) alone
      ]

  -- Where the loop answers no, no occurrence passes the tests.
  pub keyword_loop_complete :
      (f : ℕ) (o : Option ℕ)
      → keyword ≢ []
      → Clear o
      → keyword_loop f upper keyword o ≡ some false
      → (j : ℕ) → ¬ AloneAt j
  unfolding keyword_loop
  keyword_loop_complete zero o ne clear h = absurd (cc)
  keyword_loop_complete (suc f) none ne clear h = clear
  keyword_loop_complete (suc f) (some i) ne clear h =
      elim (Bool-cases (stands_alone upper keyword i)) [
        | inl e ↦ absurd (cc (rw e at h))
        | inr e ↦
            keyword_loop_complete f (next_index upper keyword i) ne (next_index-Clear i ne e clear)
              (rw e at h)
      ]

  -- The rounds that the loop may still make.
  abbrev pub rounds : Option ℕ → ℕ
  rounds none = 0
  rounds (some i) = suc (length upper - i)

  rounds-shift : (n : ℕ) (o : Option ℕ) → rounds (shift n o) ≤ suc (length upper - n)
  rounds-shift n none = omega arith
  rounds-shift n (some i) = omega arith

  next_index-rounds : (i : ℕ) → rounds (next_index upper keyword i) < rounds (some i)
  unfolding next_index
  next_index-rounds i = ground (arith, rounds-shift (i + 1) (index (drop (i + 1) upper) keyword))

  -- With a round for each byte the loop ends with an answer.
  pub keyword_loop_total :
      (f : ℕ) (o : Option ℕ) → rounds o < f → (b : Bool) × (keyword_loop f upper keyword o ≡ some b)
  unfolding keyword_loop
  keyword_loop_total zero o h = elim h [ ]
  keyword_loop_total (suc f) none h = (false, refl)
  keyword_loop_total (suc f) (some i) h = elim (Bool-cases (stands_alone upper keyword i)) [
    | inl e ↦ (true, rw e)
    | inr e ↦
        rw e
          (keyword_loop_total f (next_index upper keyword i) (omega (arith, next_index-rounds i)))
  ]

  -- What holds where the loop starts.
  pub index-IsOccurrence : (o : Option ℕ) → index upper keyword ≡ o → IsOccurrence o
  index-IsOccurrence none h = tt
  index-IsOccurrence (some i) h = index_found upper keyword i h

  pub index-Clear : (o : Option ℕ) → keyword ≢ [] → index upper keyword ≡ o → Clear o
  index-Clear none ne h = λ j alone. cc (index-none upper keyword j ne h, alone.0)
  index-Clear (some i) ne h = λ j lt alone. cc (index_first upper keyword i j h lt, alone.0)

  pub rounds-le : (o : Option ℕ) → rounds o ≤ length upper + 1
  rounds-le none = omega arith
  rounds-le (some i) = omega arith
