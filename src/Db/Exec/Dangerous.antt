-- ===== src/Db/Exec/Dangerous.antt =====
-- A DROP or TRUNCATE is no UPDATE or DELETE: a policy that allows it leaves no guard.
use sql_cli.Base.{
  Bytes, [], ap, arith, codes, inl, inr, none, subst, sym, true, ℕ, ◌∙◌, ◌∷◌, ◌≡◌, ◌≢◌, ◌⊎◌,
}
use sql_cli.Config.{Config}
use sql_cli.Db.Exec.Safety.{Refuses, dangerous, unconditional}
use sql_cli.Db.Types.{Error}
use sql_cli.Guard.{is_boundary, verdict}
use sql_cli.Guard.Dangerous.{IsDangerous, StartsWith}
use sql_cli.Sqlnorm.Operation.{operation}
use sql_cli.Sqlnorm.Operation.Laws.{
  IsWord, Separated, operation_first, to_upper-IsWord, trim_right-Separated,
}
use sql_cli.Strings.{byte_in, is_space, to_upper, trim_right}

ends-Separated :
    (rest : Bytes)
    → (rest ≡ []) ⊎ ((c : ℕ) × (s : Bytes) × (rest ≡ c ∷ s) × (is_boundary c ≡ true))
    → Separated (trim_right rest)
unfolding is_boundary byte_in
ends-Separated rest (inl e) =
    subst (λ r. Separated (trim_right r)) (sym e) (unfold trim_right in tt)
ends-Separated rest (inr (c, s, e, b)) =
    subst (λ r. Separated (trim_right r)) (sym e) (trim_right-Separated c s (ground arith))

to_upper-nonempty : (word : Bytes) {c : ℕ} {s : Bytes} → to_upper word ≡ c ∷ s → word ≢ []
unfolding to_upper
to_upper-nonempty [] h = absurd (cc)
to_upper-nonempty (c ∷ word) h = λ e. cc

StartsWith-operation :
    (sql : Bytes) (c : ℕ) (word : Bytes)
    → IsWord (c ∷ word)
    → StartsWith sql (c ∷ word)
    → operation sql ≡ c ∷ word
StartsWith-operation sql c word solid w =
    ap operation w.splits
    ∙ operation_first w.head w.rest (to_upper-nonempty w.head w.same)
        (to_upper-IsWord w.head (subst IsWord (sym w.same) solid)) (ends-Separated w.rest w.ends)
    ∙ w.same

IsDangerous-operation :
    (sql : Bytes)
    → IsDangerous sql
    → (operation sql ≡ codes "DROP") ⊎ (operation sql ≡ codes "TRUNCATE")
unfolding is_space byte_in
IsDangerous-operation sql (inl w) =
    inl (StartsWith-operation sql b'D' (codes "ROP") (ground arith) w)
IsDangerous-operation sql (inr w) =
    inr (StartsWith-operation sql b'T' (codes "RUNCATE") (ground arith) w)

apart :
    (op : Bytes)
    → (op ≡ codes "DROP") ⊎ (op ≡ codes "TRUNCATE")
    → (op ≡ codes "UPDATE") ⊎ (op ≡ codes "DELETE")
    → ⊥
apart op (inl a) (inl b) = absurd (cc)
apart op (inl a) (inr b) = absurd (cc)
apart op (inr a) (inl b) = absurd (cc)
apart op (inr a) (inr b) = absurd (cc)

-- A configuration whose policy allows dangerous statements refuses none of them.
pub IsDangerous-allowed :
    (cfg : Config) (sql : Bytes)
    → verdict cfg.dangerous_op_policy ≡ none
    → IsDangerous sql
    → (e : Error) → ¬ Refuses cfg sql e
IsDangerous-allowed cfg sql v d e (dangerous g d' w same) = absurd (cc (v, w))
IsDangerous-allowed cfg sql v d e (unconditional safe r u same) =
    apart (operation sql) (IsDangerous-operation sql d) u.0
