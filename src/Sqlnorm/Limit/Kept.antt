-- ===== src/Sqlnorm/Limit/Kept.antt =====
-- A clause that was appended is found again.
use sql_cli.Base.{
  Bool-cases, Bytes, Option-cases, [], and_right, ap, append_assoc, arith, beq_iff, codes, drop,
  inl, inr, length, map-append, refl, some, some_inj, subst, sym, take, take-append-drop, true, ℕ,
  ℤ, ◌++◌, ◌-◌, ◌∙◌, ◌∷◌, ◌≡◌, ◌≢◌,
}
use sql_cli.Sqlnorm.Itoa.{itoa}
use sql_cli.Sqlnorm.Keyword.{has_limit, has_offset, is_delimiter, match_keyword}
use sql_cli.Sqlnorm.Keyword.Correct.{ends_delimited, match_keyword_iff}
use sql_cli.Sqlnorm.Limit.{
  append_limit, append_offset, body_of, has_semi, semicolon, suffix, with_clause,
}
use sql_cli.Sqlnorm.Quoted.{Quote, outside, strip_byte, strip_from, strip_quoted}
use sql_cli.Sqlnorm.Quoted.Laws.{IsBalanced, quote_after, strip_quoted-append}
use sql_cli.Strings.{
  has_suffix, is_space, push_trimmed, to_upper, trim_left, trim_right, trim_space, upper_byte,
}

space-strip_byte : (q : Quote) (c : ℕ) → is_space c ≡ true → (strip_byte q c).0 ≡ q
unfolding strip_byte is_space
space-strip_byte outside c h = ground arith
space-strip_byte _ c h = ground arith

-- Spaces at the ends do not change which quotes are open.
quote_after-trim_left : (s : Bytes) → quote_after outside (trim_left s) ≡ quote_after outside s
unfolding trim_left quote_after
quote_after-trim_left [] = refl
quote_after-trim_left (c ∷ s) = ground (arith, quote_after-trim_left s, space-strip_byte outside c)

quote_after-push_trimmed :
    (q : Quote) (c : ℕ) (s : Bytes)
    → quote_after q (push_trimmed c s) ≡ quote_after (strip_byte q c).0 s
unfolding quote_after
quote_after-push_trimmed q c [] = ground (arith, space-strip_byte q c)
quote_after-push_trimmed q c (d ∷ s) = ground arith

quote_after-trim_right : (s : Bytes) (q : Quote) → quote_after q (trim_right s) ≡ quote_after q s
unfolding trim_right
quote_after-trim_right [] q = refl
quote_after-trim_right (c ∷ s) q =
    quote_after-push_trimmed q c (trim_right s)
    ∙ quote_after-trim_right s (strip_byte q c).0
    ∙ unfold quote_after in refl

quote_after-append :
    (q : Quote) (a b : Bytes) → quote_after q (a ++ b) ≡ quote_after (quote_after q a) b
unfolding quote_after
quote_after-append q [] b = refl
quote_after-append q (c ∷ a) b = quote_after-append (strip_byte q c).0 a b

to_upper-append : (a b : Bytes) → to_upper (a ++ b) ≡ to_upper a ++ to_upper b
unfolding to_upper
to_upper-append a b = map-append upper_byte a b

to_upper-space : (s : Bytes) → to_upper (b' ' ∷ s) ≡ b' ' ∷ to_upper s
unfolding to_upper upper_byte
to_upper-space s = refl

upper_splits :
    (p k q : Bytes)
    → to_upper k ≡ k
    → to_upper (p ++ (b' ' ∷ (k ++ (b' ' ∷ q))))
      ≡ (to_upper p ++ b' ' ∷ []) ++ (k ++ (b' ' ∷ to_upper q))
upper_splits p k q up = simp (to_upper-append, to_upper-space, up, append_assoc)

semicolon_end : (s : Bytes) → has_suffix s semicolon ≡ true → s ≡ take (length s - 1) s ++ semicolon
unfolding has_suffix
semicolon_end s h =
    let last = (beq_iff (drop (length s - 1) s) semicolon).0 (and_right _ _ h) in
    sym (take-append-drop (length s - 1) s) ∙ ap (λ r. take (length s - 1) s ++ r) last

semicolon-quote_after : (q : Quote) → quote_after q semicolon ≡ q
unfolding quote_after strip_byte
semicolon-quote_after outside = refl
semicolon-quote_after _ = refl

trim_space-IsBalanced : (sql : Bytes) → IsBalanced sql → IsBalanced (trim_space sql)
unfolding trim_space
trim_space-IsBalanced sql bal =
    quote_after-trim_right (trim_left sql) outside ∙ quote_after-trim_left sql ∙ bal

take-IsBalanced :
    (s : Bytes) → has_suffix s semicolon ≡ true → IsBalanced s → IsBalanced (take (length s - 1) s)
take-IsBalanced s h bal =
    let b = take (length s - 1) s in
    sym (semicolon-quote_after (quote_after outside b))
    ∙ sym (quote_after-append outside b semicolon)
    ∙ (rw (semicolon_end s h) at bal)

body_of-IsBalanced : (sql : Bytes) → IsBalanced sql → IsBalanced (body_of sql)
unfolding body_of
body_of-IsBalanced sql bal =
    let trimmed = trim_space-IsBalanced sql bal in
    elim (Bool-cases (has_suffix (trim_space sql) semicolon)) [
      | inl e ↦ rw e (take-IsBalanced (trim_space sql) e trimmed)
      | inr e ↦ rw e trimmed
    ]

ends_delimited-space : (p : Bytes) → ends_delimited (p ++ b' ' ∷ []) ≡ true
unfolding is_delimiter
ends_delimited-space [] = refl
ends_delimited-space (c ∷ []) = refl
ends_delimited-space (c ∷ d ∷ p) = ends_delimited-space (d ∷ p)

-- An upper case keyword between spaces is found, whatever stands around them.
match_keyword-between_spaces :
    (text p k q : Bytes)
    → k ≢ []
    → to_upper k ≡ k
    → text ≡ p ++ (b' ' ∷ (k ++ (b' ' ∷ q)))
    → match_keyword text k ≡ true
match_keyword-between_spaces text p k q ne up e = (match_keyword_iff text k ne).1 (record {
  before = to_upper p ++ b' ' ∷ [];
  after = b' ' ∷ to_upper q;
  splits = rw e (upper_splits p k q up);
  left = ends_delimited-space (to_upper p);
  right = unfold is_delimiter in refl;
})

pub clause_found :
    (sql k rest : Bytes)
    → k ≢ []
    → to_upper k ≡ k
    → IsBalanced sql
    → strip_quoted (b' ' ∷ (k ++ (b' ' ∷ rest))) ≡ b' ' ∷ (k ++ (b' ' ∷ strip_quoted rest))
    → match_keyword (strip_quoted (body_of sql ++ (b' ' ∷ (k ++ (b' ' ∷ rest))))) k ≡ true
clause_found sql k rest ne up bal plain =
    match_keyword-between_spaces _ (strip_quoted (body_of sql)) k (strip_quoted rest) ne up (
      strip_quoted-append (body_of sql) (b' ' ∷ (k ++ (b' ' ∷ rest))) (body_of-IsBalanced sql bal)
      ∙ ap (λ r. strip_quoted (body_of sql) ++ r) plain)

-- Where `AppendLIMIT` returns, and the statement closes its quotes, the result has a LIMIT clause.
pub append_limit-has_limit :
    (sql : Bytes) (limit : ℤ) {out : Bytes}
    → IsBalanced sql
    → append_limit sql limit ≡ some out
    → has_limit out ≡ true
unfolding append_limit has_limit
append_limit-has_limit sql limit {out} bal h = elim (Option-cases (itoa limit)) [
  | inl e ↦ absurd (cc (rw e at h))
  | inr (d, e) ↦
      let same : some (with_clause sql (codes " LIMIT ") d) ≡ some out = rw e at h in
      subst (λ o. match_keyword (strip_quoted o) (codes "LIMIT") ≡ true) (some_inj same)
        (clause_found sql (codes "LIMIT") (d ++ suffix (has_semi sql)) (cc)
          (unfold to_upper upper_byte in refl) bal
          (unfold strip_quoted strip_from strip_byte in refl))
]

-- Where `AppendOFFSET` returns, and the statement closes its quotes, the result has an OFFSET
-- clause.
pub append_offset-has_offset :
    (sql : Bytes) (offset : ℤ) {out : Bytes}
    → IsBalanced sql
    → append_offset sql offset ≡ some out
    → has_offset out ≡ true
unfolding append_offset has_offset
append_offset-has_offset sql offset {out} bal h = elim (Option-cases (itoa offset)) [
  | inl e ↦ absurd (cc (rw e at h))
  | inr (d, e) ↦
      let same : some (with_clause sql (codes " OFFSET ") d) ≡ some out = rw e at h in
      subst (λ o. match_keyword (strip_quoted o) (codes "OFFSET") ≡ true) (some_inj same)
        (clause_found sql (codes "OFFSET") (d ++ suffix (has_semi sql)) (cc)
          (unfold to_upper upper_byte in refl) bal
          (unfold strip_quoted strip_from strip_byte in refl))
]
