-- ===== src/Sqlnorm/Keyword/Correct.antt =====
-- `matchKeyword` against a description with no positions: the keyword stands somewhere in the upper
-- case text, with an end of the text or a delimiter on each side.
use sql_cli.Base.{
  Bool, Bool-cases, Bytes, [], and_left, and_right, ap, append-nil, append_assoc, arith, drop,
  drop-length_append, false, get_or, get_or-length_append, inl, inr, leb, length, length-append,
  length-take, refl, some, suc, sym, take, take-append-drop, true, ℕ, ◌&&◌, ◌++◌, ◌+◌, ◌-◌, ◌==◌,
  ◌||◌, ◌↔◌, ◌∙◌, ◌∷◌, ◌≡◌, ◌≢◌, ◌≤◌,
}
use sql_cli.Sqlnorm.Keyword.{is_delimiter, is_found, keyword_loop, match_keyword, stands_alone}
use sql_cli.Sqlnorm.Keyword.Search.{
  AloneAt, index-Clear, index-IsOccurrence, keyword_loop_complete, keyword_loop_sound,
  keyword_loop_total, past_end, rounds-le,
}
use sql_cli.Strings.{has_prefix_append, has_prefix_splits, index, to_upper}

-- Empty, or with a delimiter as its last byte.
abbrev pub ends_delimited : Bytes → Bool
ends_delimited [] = true
ends_delimited (c ∷ []) = is_delimiter c
ends_delimited (c ∷ d ∷ s) = ends_delimited (d ∷ s)

-- Empty, or with a delimiter as its first byte.
abbrev pub starts_delimited : Bytes → Bool
starts_delimited [] = true
starts_delimited (c ∷ s) = is_delimiter c

pub record StandsIn (text keyword : Bytes) : Type 0 where
  pub before : Bytes
  pub after : Bytes
  pub splits : text ≡ before ++ (keyword ++ after)
  pub left : ends_delimited before ≡ true
  pub right : starts_delimited after ≡ true

last-ends_delimited :
    (c : ℕ) (p r : Bytes)
    → is_delimiter (get_or (c ∷ (p ++ r)) (length p) 0) ≡ ends_delimited (c ∷ p)
last-ends_delimited c [] r = refl
last-ends_delimited c (d ∷ p) r = last-ends_delimited d p r

before_iff :
    (p r : Bytes)
    → (length p == 0 || is_delimiter (get_or (p ++ r) (length p - 1) 0)) ≡ ends_delimited p
before_iff [] r = refl
before_iff (c ∷ p) r =
    let e : suc (length p) - 1 ≡ length p = omega arith in
    rw e (ground (arith, last-ends_delimited c p r))

after_iff :
    (m q : Bytes)
    → (leb (length (m ++ q)) (length m) || is_delimiter (get_or (m ++ q) (length m) 0))
      ≡ starts_delimited q
after_iff m [] = rw append-nil (ground arith)
after_iff m (c ∷ q) = rw (get_or-length_append m (c ∷ q) 0, length-append m (c ∷ q)) (ground arith)

stands_alone_iff :
    (p k q : Bytes)
    → stands_alone (p ++ (k ++ q)) k (length p) ≡ (ends_delimited p && starts_delimited q)
unfolding stands_alone
stands_alone_iff p k q =
    let e : length p + length k ≡ length (p ++ k) = sym (length-append p k) in
    rw (before_iff p (k ++ q), e, ← append_assoc p k q, after_iff (p ++ k) q)

StandsIn-of_splits :
    (upper k p q : Bytes)
    → upper ≡ p ++ (k ++ q)
    → stands_alone upper k (length p) ≡ true
    → StandsIn upper k
StandsIn-of_splits upper k p q e h =
    let both = rw (e, stands_alone_iff p k q) at h in
    record {
      before = p;
      after = q;
      splits = e;
      left = and_left _ _ both;
      right = and_right _ _ both;
    }

AloneAt-StandsIn :
    (upper k : Bytes) (i : ℕ) → i ≤ length upper → AloneAt upper k i → StandsIn upper k
AloneAt-StandsIn upper k i h alone =
    let p = take i upper in
    let long : length p ≡ i = omega (arith, length-take i upper) in
    let rest = has_prefix_splits (drop i upper) k alone.0 in
    StandsIn-of_splits upper k p (drop (length k) (drop i upper))
      (sym (take-append-drop i upper) ∙ ap (λ r. p ++ r) rest) (rw long alone.1)

StandsIn-AloneAt : {upper k : Bytes} (w : StandsIn upper k) → AloneAt upper k (length w.before)
StandsIn-AloneAt {upper} {k} w = (
  rw (w.splits, drop-length_append w.before (k ++ w.after)) (has_prefix_append k w.after),
  rw (w.splits, stands_alone_iff w.before k w.after, w.left, w.right),
)

match_keyword_loop :
    (sql k : Bytes) (b : Bool)
    → match_keyword sql k ≡ b
    → is_found (keyword_loop (length (to_upper sql) + 2) (to_upper sql) k (index (to_upper sql) k))
      ≡ b
unfolding match_keyword
match_keyword_loop sql k b h = h

module _ (upper k : Bytes) (ne : k ≢ []) where
  loop_answers : (b : Bool) × (keyword_loop (length upper + 2) upper k (index upper k) ≡ some b)
  loop_answers =
      keyword_loop_total upper k (length upper + 2) (index upper k)
        (omega (arith, rounds-le upper k (index upper k)))

  loop_finds :
      is_found (keyword_loop (length upper + 2) upper k (index upper k)) ≡ true → StandsIn upper k
  loop_finds h =
      let (b, e) = loop_answers in
      let yes_ : keyword_loop (length upper + 2) upper k (index upper k) ≡ some true =
        e ∙ ap some (rw e at h) in
      let (i, alone) =
        keyword_loop_sound upper k (length upper + 2) (index upper k)
          (index-IsOccurrence upper k (index upper k) refl) yes_ in
      elim (Bool-cases (leb i (length upper))) [
        | inl inside ↦ AloneAt-StandsIn upper k i (ground arith) alone
        | inr past ↦ absurd (past_end upper k i ne (ground arith) alone)
      ]

  loop_misses :
      is_found (keyword_loop (length upper + 2) upper k (index upper k)) ≡ false
      → ¬ StandsIn upper k
  loop_misses h w =
      let (b, e) = loop_answers in
      let no_ : keyword_loop (length upper + 2) upper k (index upper k) ≡ some false =
        e ∙ ap some (rw e at h) in
      keyword_loop_complete upper k (length upper + 2) (index upper k) ne
        (index-Clear upper k (index upper k) ne refl) no_ (length w.before) (StandsIn-AloneAt w)

-- `matchKeyword` answers yes exactly when the keyword, which must not be empty, stands alone in the
-- upper case text: with an end of the text or a delimiter on its left and on its right.
pub match_keyword_iff :
    (sql k : Bytes) → k ≢ [] → (match_keyword sql k ≡ true) ↔ StandsIn (to_upper sql) k
match_keyword_iff sql k ne = (
  λ h. loop_finds (to_upper sql) k ne (match_keyword_loop sql k true h),
  λ w. elim (Bool-cases (match_keyword sql k)) [
    | inl e ↦ e
    | inr e ↦ absurd (loop_misses (to_upper sql) k ne (match_keyword_loop sql k false e) w)
  ],
)
