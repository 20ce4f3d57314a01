-- ===== src/Guard.antt =====
-- pkg/guard/guard.go. A policy is a Go int: the four constants, or another number.
pub mod Dangerous
use sql_cli.Base.{
  Bool, Bytes, List, Option, [], codes, false, get_or, if◌then◌else◌, leb, length, ltb, none, not,
  some, true, ℕ, ℤ, ◌&&◌, ◌-◌, ◌==◌, ◌||◌, ◌∷◌,
}

pub data Policy : Type 0 where
  block warn allow prompt : Policy
  other : ℤ → Policy

pub data GuardError : Type 0 where
  dangerous_op dangerous_op_prompt : GuardError

unfoldable pub string : Policy → Bytes
string block = codes "block"
string warn = codes "warn"
string allow = codes "allow"
string prompt = codes "prompt"
string (other n) = codes "unknown"

abbrev pub dangerous_ops : List Bytes
dangerous_ops = codes "DROP" ∷ codes "TRUNCATE" ∷ []

-- The loop of `matchesOp`; it reads as many bytes as `op` has.
unfoldable pub same_upper : Bytes → Bytes → Bool
same_upper sql [] = true
same_upper [] (k ∷ ks) = false
same_upper (c ∷ sql) (k ∷ ks) =
    (if leb b'a' c && leb c b'z' then c - 32 else c) == k && same_upper sql ks

unfoldable pub is_boundary : ℕ → Bool
is_boundary next = next == b' ' || next == b'\t' || next == b'(' || next == b'\n'

unfoldable pub matches_op : Bytes → Bytes → Bool
matches_op sql op =
    if ltb (length sql) (length op)
    then false
    else if not (same_upper sql op)
    then false
    else if ltb (length op) (length sql)
    then is_boundary (get_or sql (length op) 0)
    else true

unfoldable pub any_op : Bytes → List Bytes → Bool
any_op sql [] = false
any_op sql (op ∷ ops) = if matches_op sql op then true else any_op sql ops

unfoldable pub is_dangerous_op : Bytes → Bool
is_dangerous_op sql = any_op sql dangerous_ops

abbrev pub is_allow : Policy → Bool
is_allow allow = true
is_allow _ = false

-- The `switch` of `Check`.
abbrev pub verdict : Policy → Option GuardError
verdict block = some dangerous_op
verdict prompt = some dangerous_op_prompt
verdict _ = none

unfoldable pub check : Policy → Bytes → Option GuardError
check policy sql =
    if is_allow policy then none else if not (is_dangerous_op sql) then none else verdict policy
