-- ===== src/Guard/Dangerous.antt =====
-- Which statements `IsDangerousOp` recognises.
use sql_cli.Base.{
  Bytes, [], append-nil, arith, codes, drop, drop-cases, false, get_or, get_or-length_append, inl,
  inr, length, length-append, length-map, none, refl, some, take, true, ℕ, ◌++◌, ◌<◌, ◌↔◌, ◌∷◌, ◌≡◌,
  ◌⊎◌,
}
use sql_cli.Guard.{
  GuardError, Policy, any_op, check, is_boundary, is_dangerous_op, matches_op, same_upper, verdict,
}
use sql_cli.Sqlnorm.Operation.{operation}
use sql_cli.Strings.{is_space, to_upper, trim_space-cons, upper_byte}

-- The text is a word, in any case, with its end or a boundary byte behind it.
pub record StartsWith (sql word : Bytes) : Type 0 where
  pub head : Bytes
  pub rest : Bytes
  pub splits : sql ≡ head ++ rest
  pub same : to_upper head ≡ word
  pub ends : (rest ≡ []) ⊎ ((c : ℕ) × (s : Bytes) × (rest ≡ c ∷ s) × (is_boundary c ≡ true))

abbrev pub IsDangerous : Bytes → Type 0
IsDangerous sql = StartsWith sql (codes "DROP") ⊎ StartsWith sql (codes "TRUNCATE")

same_upper_splits :
    (sql op : Bytes)
    → same_upper sql op ≡ true
    → (sql ≡ take (length op) sql ++ drop (length op) sql) × (to_upper (take (length op) sql) ≡ op)
unfolding same_upper to_upper upper_byte
same_upper_splits sql [] h = (refl, refl)
same_upper_splits [] (k ∷ ks) h = absurd (cc)
same_upper_splits (c ∷ sql) (k ∷ ks) h = ground (arith, same_upper_splits sql ks)

same_upper-append : (head rest : Bytes) → same_upper (head ++ rest) (to_upper head) ≡ true
unfolding same_upper to_upper upper_byte
same_upper-append [] [] = refl
same_upper-append [] (c ∷ rest) = refl
same_upper-append (c ∷ head) rest = ground (arith, same_upper-append head rest)

matches_op-same_upper : (sql op : Bytes) → matches_op sql op ≡ true → same_upper sql op ≡ true
unfolding matches_op
matches_op-same_upper sql op h = ground arith

matches_op-is_boundary :
    (sql op : Bytes)
    → matches_op sql op ≡ true
    → length op < length sql
    → is_boundary (get_or sql (length op) 0) ≡ true
unfolding matches_op
matches_op-is_boundary sql op h lt = ground arith

matches_op-StartsWith : (sql op : Bytes) → matches_op sql op ≡ true → StartsWith sql op
matches_op-StartsWith sql op h =
    let (e, same) = same_upper_splits sql op (matches_op-same_upper sql op h) in
    record {
      head = take (length op) sql;
      rest = drop (length op) sql;
      splits = e;
      same = same;
      ends = elim (drop-cases (length op) sql 0) [
        | inl (none_left, le) ↦ inl none_left
        | inr (c, s, eq, at, lt) ↦ inr (c, s, eq, rw at at (matches_op-is_boundary sql op h lt))
      ];
    }

length-to_upper : (s : Bytes) → length (to_upper s) ≡ length s
unfolding to_upper
length-to_upper = length-map upper_byte

matches_op-append :
    (head rest : Bytes)
    → (rest ≡ []) ⊎ ((c : ℕ) × (s : Bytes) × (rest ≡ c ∷ s) × (is_boundary c ≡ true))
    → matches_op (head ++ rest) (to_upper head) ≡ true
unfolding matches_op
matches_op-append head rest (inl e) =
    rw (same_upper-append head rest, length-to_upper head, e, append-nil head) (ground arith)
matches_op-append head rest (inr (c, s, e, b)) =
    rw
      (
        same_upper-append head rest,
        length-to_upper head,
        get_or-length_append head rest 0,
        length-append head rest,
        e,
      )
      (ground arith)

StartsWith-matches_op : (sql op : Bytes) → StartsWith sql op → matches_op sql op ≡ true
StartsWith-matches_op sql op w = rw (w.splits, ← w.same) (matches_op-append w.head w.rest w.ends)

any_op_iff :
    (sql : Bytes)
    → (is_dangerous_op sql ≡ true)
      ↔ ((matches_op sql (codes "DROP") ≡ true) ⊎ (matches_op sql (codes "TRUNCATE") ≡ true))
unfolding is_dangerous_op any_op
any_op_iff sql = ground arith

-- `IsDangerousOp` answers yes exactly for the statements that start with DROP or TRUNCATE, in any
-- case, with their end, a space, a tab, a newline or a parenthesis behind the word.
pub is_dangerous_op_iff : (sql : Bytes) → (is_dangerous_op sql ≡ true) ↔ IsDangerous sql
is_dangerous_op_iff sql = (
  λ h. elim ((any_op_iff sql).0 h) [
    | inl d ↦ inl (matches_op-StartsWith sql (codes "DROP") d)
    | inr t ↦ inr (matches_op-StartsWith sql (codes "TRUNCATE") t)
  ],
  λ w. (any_op_iff sql).1 (elim w [
    | inl d ↦ inl (StartsWith-matches_op sql (codes "DROP") d)
    | inr t ↦ inr (StartsWith-matches_op sql (codes "TRUNCATE") t)
  ]),
)

space-is_dangerous_op :
    (c : ℕ) (sql : Bytes) → is_space c ≡ true → is_dangerous_op (c ∷ sql) ≡ false
unfolding is_dangerous_op any_op matches_op same_upper is_space
space-is_dangerous_op c sql h = ground arith

-- A statement with a space in front is never recognised, and passes under every policy, although
-- `Operation` skips the space.
pub check_behind_space :
    (policy : Policy) (c : ℕ) (sql : Bytes)
    → is_space c ≡ true
    → (check policy (c ∷ sql) ≡ none) × (operation (c ∷ sql) ≡ operation sql)
unfolding check operation
check_behind_space policy c sql h =
    (rw (space-is_dangerous_op c sql h) (ground arith), rw (trim_space-cons c sql h))

check-is_dangerous_op :
    (policy : Policy) (sql : Bytes) (e : GuardError)
    → check policy sql ≡ some e
    → (is_dangerous_op sql ≡ true) × (verdict policy ≡ some e)
unfolding check
check-is_dangerous_op policy sql e h = ground arith

is_dangerous_op-check :
    (policy : Policy) (sql : Bytes) (e : GuardError)
    → is_dangerous_op sql ≡ true
    → verdict policy ≡ some e
    → check policy sql ≡ some e
unfolding check
is_dangerous_op-check policy sql e d v = ground arith

-- Every policy but `PolicyBlock` and `PolicyPrompt` lets everything pass; these two refuse the
-- dangerous statements, each with its own error, and no others.
pub check_iff :
    (policy : Policy) (sql : Bytes) (e : GuardError)
    → (check policy sql ≡ some e) ↔ (IsDangerous sql × (verdict policy ≡ some e))
check_iff policy sql e = (
  λ h. (
    (is_dangerous_op_iff sql).0 (check-is_dangerous_op policy sql e h).0,
    (check-is_dangerous_op policy sql e h).1,
  ),
  λ h. is_dangerous_op-check policy sql e ((is_dangerous_op_iff sql).1 h.0) h.1,
)
