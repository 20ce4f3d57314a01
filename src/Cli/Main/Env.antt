-- ===== src/Cli/Main/Env.antt =====
-- What `loadDotEnv` of cmd/cli/main.go reads.
use sql_cli.Base.{
  All, Bool-cases, Bytes, List, [], ap, arith, beq, beq_iff, codes, false, inl, inr, refl, some,
  subst, sym, true, ◌++◌, ◌==◌, ◌||◌, ◌∙◌, ◌∷◌, ◌≡◌, ◌≢◌, ◌⊎◌,
}
use sql_cli.Cli.Main.{QcEnv, cut, env_line, env_lines, load_dot_env, no_env, set_env, split_lines}
use sql_cli.Cli.Main.Cut.{HasNoEquals, cut-cases, cut_append}
use sql_cli.Strings.{has_prefix, is_empty, trim_space}

abbrev pub HasNoBreak : Bytes → Type 0
HasNoBreak s = All (λ c. (c == b'\n') ≡ false) s

split_lines-line : (s : Bytes) → HasNoBreak s → split_lines s ≡ s ∷ []
unfolding split_lines
split_lines-line [] h = refl
split_lines-line (c ∷ s) h = rw (h.0, split_lines-line s h.1) refl

-- A text of lines is never without one.
first_line : (s : Bytes) → (l : Bytes) × (ls : List Bytes) × (split_lines s ≡ l ∷ ls)
unfolding split_lines
first_line [] = ([], [], refl)
first_line (c ∷ s) =
    let (l, ls, e) = first_line s in
    elim (Bool-cases (c == b'\n')) [
      | inl h ↦ ([], split_lines s, rw h refl)
      | inr h ↦ (c ∷ l, ls, rw (h, e) refl)
    ]

split_lines-append : (s t : Bytes) → split_lines (s ++ b'\n' ∷ t) ≡ split_lines s ++ split_lines t
unfolding split_lines
split_lines-append [] t = refl
split_lines-append (c ∷ s) t =
    let i = split_lines-append s t in
    let (l, ls, e) = first_line s in
    elim (Bool-cases (c == b'\n')) [ inl h ↦ rw (h, i) refl | inr h ↦ rw (h, i, e) refl ]

env_lines-append :
    (xs ys : List Bytes) (env : QcEnv) → env_lines env (xs ++ ys) ≡ env_lines (env_lines env xs) ys
env_lines-append [] ys env = refl
env_lines-append (x ∷ xs) ys env = env_lines-append xs ys (env_line env x)

-- The line sets a variable: it is no comment, and behind the first `=` stands the value.
abbrev pub Sets : Bytes → Bytes → Bytes → Type 0
Sets key value line =
    (name : Bytes) × (rest : Bytes) × (trim_space line ≡ name ++ b'=' ∷ rest)
    × HasNoEquals name
    × (has_prefix (trim_space line) (codes "#") ≡ false)
    × (trim_space name ≡ key)
    × (trim_space rest ≡ value)

abbrev pub SetsNot : Bytes → Bytes → Type 0
SetsNot key line = (value : Bytes) → ¬ Sets key value line

-- The value is that of the last line that sets the variable, or else the one before them all.
abbrev pub IsLast : Bytes → Bytes → List Bytes → Bytes → Type 0
IsLast key before_all lines value =
    ((value ≡ before_all) × All (SetsNot key) lines)
    ⊎ ((before : List Bytes) × (line : Bytes) × (after : List Bytes) × (lines
          ≡ before ++ line ∷ after)
        × Sets key value line
        × All (SetsNot key) after)

-- The lines of a file, with the break between them.
abbrev pub join_lines : Bytes → List Bytes → Bytes
join_lines line [] = line
join_lines line (next ∷ lines) = line ++ b'\n' ∷ join_lines next lines

split_lines-join_lines :
    (line : Bytes) (lines : List Bytes)
    → HasNoBreak line
    → All HasNoBreak lines
    → split_lines (join_lines line lines) ≡ line ∷ lines
split_lines-join_lines line [] h hs = split_lines-line line h
split_lines-join_lines line (next ∷ lines) h hs =
    split_lines-append line (join_lines next lines)
    ∙ ap (λ ls. ls ++ split_lines (join_lines next lines)) (split_lines-line line h)
    ∙ ap (◌∷◌ line) (split_lines-join_lines next lines hs.0 hs.1)

-- A variable of the record, and how one assignment changes it.
record Variable : Type 0 where
  read : QcEnv → Bytes
  key : Bytes
  assigned :
      (env : QcEnv) (a b : Bytes)
      → ((trim_space a ≡ key) × (read (set_env env (some (a, b))) ≡ trim_space b))
        ⊎ ((trim_space a ≢ key) × (read (set_env env (some (a, b))) ≡ read env))

set_env-dsn :
    (env : QcEnv) (a b : Bytes)
    → ((trim_space a ≡ codes "QC_DSN") × ((set_env env (some (a, b))).dsn ≡ trim_space b))
      ⊎ ((trim_space a ≢ codes "QC_DSN") × ((set_env env (some (a, b))).dsn ≡ env.dsn))
set_env-dsn env a b =
    let test = beq_iff (trim_space a) (codes "QC_DSN") in
    elim (Bool-cases (beq (trim_space a) (codes "QC_DSN"))) [
      | inl h ↦ inl (test.0 h, rw h refl)
      | inr h ↦ inr (
        λ k. cc (test.1 k, h),
        elim (Bool-cases (beq (trim_space a) (codes "QC_DRIVER"))) [
          | inl d ↦ rw (h, d) refl
          | inr d ↦ rw (h, d) refl
        ],
      )
    ]

set_env-driver :
    (env : QcEnv) (a b : Bytes)
    → ((trim_space a ≡ codes "QC_DRIVER") × ((set_env env (some (a, b))).driver ≡ trim_space b))
      ⊎ ((trim_space a ≢ codes "QC_DRIVER") × ((set_env env (some (a, b))).driver ≡ env.driver))
set_env-driver env a b =
    let test = beq_iff (trim_space a) (codes "QC_DRIVER") in
    elim (Bool-cases (beq (trim_space a) (codes "QC_DRIVER"))) [
      | inl h ↦ let same = test.0 h in inl (same, rw same refl)
      | inr h ↦ inr (
        λ k. cc (test.1 k, h),
        elim (Bool-cases (beq (trim_space a) (codes "QC_DSN"))) [
          | inl d ↦ rw (h, d) refl
          | inr d ↦ rw (h, d) refl
        ],
      )
    ]

abbrev dsn_variable : Variable
dsn_variable = record { read = λ env. env.dsn; key = codes "QC_DSN"; assigned = set_env-dsn }

abbrev driver_variable : Variable
driver_variable = record {
  read = λ env. env.driver;
  key = codes "QC_DRIVER";
  assigned = set_env-driver;
}

-- A line with an `=` in it is not empty.
is_empty_append : (a b : Bytes) → is_empty (a ++ b'=' ∷ b) ≡ false
is_empty_append [] b = refl
is_empty_append (c ∷ a) b = refl

module _ (x : Variable) where
  -- What a line does, by whether it is passed over and by where it is cut.
  passed_over :
      (env : QcEnv) (line : Bytes)
      → is_empty (trim_space line) || has_prefix (trim_space line) (codes "#") ≡ true
      → (x.read (env_line env line) ≡ x.read env) × SetsNot x.key line
  unfolding env_line
  passed_over env line h = (
    rw h refl,
    λ value s.
        let (name, rest, e, n, mark, k, v) = s in
        let full : is_empty (trim_space line) ≡ false = ap is_empty e ∙ is_empty_append name rest in
        absurd (ground arith),
  )

  line-cases :
      (env : QcEnv) (line : Bytes)
      → Sets x.key (x.read (env_line env line)) line
        ⊎ ((x.read (env_line env line) ≡ x.read env) × SetsNot x.key line)
  unfolding env_line
  line-cases env line =
      elim (Bool-cases (is_empty (trim_space line) || has_prefix (trim_space line) (codes "#"))) [
        | inl h ↦ inr (passed_over env line h)
        | inr h ↦
            let mark : has_prefix (trim_space line) (codes "#") ≡ false = ground arith in
            elim (cut-cases (trim_space line)) [
              | inl none_cut ↦ inr (
                rw (h, none_cut) refl,
                λ value s.
                    let (name, rest, e, n, m, k, v) = s in
                    let found = ap cut e ∙ cut_append name rest n in absurd (cc),
              )
              | inr (a, b, c, e, n) ↦ elim (x.assigned env a b) [
                | inl (k, v) ↦ inl (a, b, e, n, mark, k, sym v ∙ sym (rw (h, c) refl))
                | inr (k, v) ↦ inr (
                  rw (h, c) v,
                  λ value s.
                      let (name, rest, e', n', m, k', v') = s in
                      let found : cut (trim_space line) ≡ some (name, rest) =
                        ap cut e' ∙ cut_append name rest n' in
                      let same : a ≡ name = cc in absurd (k (ap trim_space same ∙ k')),
                )
              ]
            ]
      ]

  lines-IsLast :
      (env : QcEnv) (lines : List Bytes)
      → IsLast x.key (x.read env) lines (x.read (env_lines env lines))
  lines-IsLast env [] = inl (refl, tt)
  lines-IsLast env (line ∷ lines) = elim (lines-IsLast (env_line env line) lines) [
    | inr (before, l, after, e, s, n) ↦ inr (line ∷ before, l, after, ap (◌∷◌ line) e, s, n)
    | inl (e, n) ↦ elim (line-cases env line) [
      | inl s ↦ inr ([], line, lines, refl, subst (λ v. Sets x.key v line) (sym e) s, n)
      | inr (e', k) ↦ inl (e ∙ e', (k, n))
    ]
  ]

-- A `.env` file of lines gives each of QC_DSN and QC_DRIVER the value of the last line that sets it,
-- whatever the other lines are, and leaves it empty where none does. A line sets a variable when,
-- trimmed, it does not begin with `#` and the text in front of its first `=` is the variable's name
-- with white space around it or none; the value is what stands behind that `=`, trimmed.
pub load_dot_env-IsLast :
    (line : Bytes) (lines : List Bytes)
    → HasNoBreak line
    → All HasNoBreak lines
    → let env = load_dot_env (some (join_lines line lines)) in
      IsLast (codes "QC_DSN") [] (line ∷ lines) env.dsn
      × IsLast (codes "QC_DRIVER") [] (line ∷ lines) env.driver
unfolding load_dot_env
load_dot_env-IsLast line lines h hs = rw (split_lines-join_lines line lines h hs) (
  lines-IsLast dsn_variable no_env (line ∷ lines),
  lines-IsLast driver_variable no_env (line ∷ lines),
)
