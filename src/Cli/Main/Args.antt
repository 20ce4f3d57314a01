-- ===== src/Cli/Main/Args.antt =====
-- Which DSN and which statement the arguments give.
use sql_cli.Base.{
  Bool-cases, Bytes, List, [], false, get_or, inl, inr, refl, true, ◌∷◌, ◌≡◌, ◌≢◌, ◌⊎◌,
}
use sql_cli.Cli.Main.{
  QcEnv, Target, choose_target, looks_like_dsn, needs_sql, or_text, resolve, with_dsn,
}
use sql_cli.Db.Types.{Result, err, ok, ◌>>=◌}

-- Where a DSN and a statement come from. An argument that looks like a DSN comes before the
-- environment; one that does not is a statement for the environment's DSN under a command that takes
-- one, and else it is the DSN.
pub data Chosen (env_dsn cmd first second : Bytes) (t : Target) : Type 0 where
  by_argument :
      first ≢ []
      → looks_like_dsn first ≡ true
      → t.dsn ≡ first
      → t.sql ≡ second
      → Chosen env_dsn cmd first second t
  by_environment :
      first ≢ []
      → looks_like_dsn first ≡ false
      → needs_sql cmd ≡ true
      → t.dsn ≡ env_dsn
      → t.sql ≡ first
      → Chosen env_dsn cmd first second t
  by_plain_argument :
      first ≢ []
      → looks_like_dsn first ≡ false
      → (env_dsn ≡ []) ⊎ (needs_sql cmd ≡ false)
      → t.dsn ≡ first
      → t.sql ≡ []
      → Chosen env_dsn cmd first second t
  by_default : first ≡ [] → t.dsn ≡ env_dsn → t.sql ≡ [] → Chosen env_dsn cmd first second t

abbrev pub TargetOf : Bytes → Bytes → Bytes → Bytes → Result Target → Type 0
TargetOf env_dsn cmd first second (ok t) = (t.dsn ≢ []) × Chosen env_dsn cmd first second t
TargetOf env_dsn cmd first second (err e) = (first ≡ []) × (env_dsn ≡ [])

chosen-TargetOf :
    (env_dsn cmd first second : Bytes)
    → TargetOf env_dsn cmd first second (choose_target env_dsn cmd first second >>= with_dsn)
unfolding choose_target
chosen-TargetOf [] cmd [] second = (refl, refl)
chosen-TargetOf (d ∷ env_dsn) cmd [] second = elim (Bool-cases (needs_sql cmd)) [
  | inl h ↦ rw h (λ k. cc, by_default refl refl refl)
  | inr h ↦ rw h (λ k. cc, by_default refl refl refl)
]
chosen-TargetOf [] cmd (c ∷ first) second = elim (Bool-cases (looks_like_dsn (c ∷ first))) [
  | inl h ↦ rw h (λ k. cc, by_argument (λ k. cc) h refl refl)
  | inr h ↦ rw h (λ k. cc, by_plain_argument (λ k. cc) h (inl refl) refl refl)
]
chosen-TargetOf (d ∷ env_dsn) cmd (c ∷ first) second =
    elim (Bool-cases (looks_like_dsn (c ∷ first))) [
      | inl h ↦ rw h (λ k. cc, by_argument (λ k. cc) h refl refl)
      | inr h ↦ elim (Bool-cases (needs_sql cmd)) [
        | inl n ↦ rw (h, n) (λ k. cc, by_environment (λ k. cc) h n refl refl)
        | inr n ↦ rw (h, n) (λ k. cc, by_plain_argument (λ k. cc) h (inr n) refl refl)
      ]
    ]

-- The program goes on with a DSN that is not empty, chosen between the first argument behind the
-- command and the environment's, which is the variable QC_DSN before the file. It stops only where
-- there is no argument and no DSN in the environment.
pub resolve-TargetOf :
    (file : QcEnv) (env : Bytes) (args : List Bytes)
    → TargetOf
        (or_text env file.dsn)
        (get_or args 0 [])
        (get_or args 1 [])
        (get_or args 2 [])
        (resolve file env args)
unfolding resolve
resolve-TargetOf file env args =
    chosen-TargetOf (or_text env file.dsn) (get_or args 0 []) (get_or args 1 []) (get_or args 2 [])
