-- ===== src/Db/Query/Limits.antt =====
-- The limits and the texts that the query functions prepare.

use sql_cli.Base.{Bytes, arith, codes, negsuc, pos, refl, some, true, ℤ, ◌≡◌, ◌≤ℤ◌}
use sql_cli.Config.{Config}
use sql_cli.Db.Query.{applied_limit}
use sql_cli.Sqlnorm.Itoa.Value.{Fits, itoa-value, value}
use sql_cli.Sqlnorm.Keyword.{has_limit}
use sql_cli.Sqlnorm.Limit.{append_limit, with_clause}
use sql_cli.Sqlnorm.Limit.Kept.{append_limit-has_limit}
use sql_cli.Sqlnorm.Quoted.Laws.{IsBalanced}

-- The default limit and the maximum are positive, and the maximum has at most twelve digits.
pub record IsSane (cfg : Config) : Type 0 where
  pub default_positive : pos 1 ≤ℤ cfg.default_limit
  pub max_positive : pos 1 ≤ℤ cfg.max_limit
  pub max_fits : cfg.max_limit ≤ℤ pos 999999999999

-- The applied limit lies between 1 and the maximum, and is the caller's where that one does.
pub applied_limit_bounds :
    (cfg : Config) (limit : ℤ)
    → IsSane cfg
    → (pos 1 ≤ℤ applied_limit cfg limit)
      × (applied_limit cfg limit ≤ℤ cfg.max_limit)
      × (pos 1 ≤ℤ limit → limit ≤ℤ cfg.max_limit → applied_limit cfg limit ≡ limit)
unfolding applied_limit
applied_limit_bounds cfg limit h = (ground arith, ground arith, λ lo hi. ground arith)

between-Fits : (z : ℤ) → pos 1 ≤ℤ z → z ≤ℤ pos 999999999999 → Fits z
between-Fits (pos n) lo hi = omega arith
between-Fits (negsuc m) lo hi = omega arith

-- The text with its clause: the digits stand for a limit between 1 and the maximum, and the clause
-- is found again.
pub record Limited (cfg : Config) (sql out : Bytes) (applied : ℤ) : Type 0 where
  pub digits : Bytes
  pub is : out ≡ with_clause sql (codes " LIMIT ") digits
  pub means : value digits ≡ applied
  pub positive : pos 1 ≤ℤ applied
  pub capped : applied ≤ℤ cfg.max_limit
  pub found : has_limit out ≡ true

pub append_limit-Limited :
    (cfg : Config) (sql : Bytes) (n : ℤ)
    → IsSane cfg
    → IsBalanced sql
    → pos 1 ≤ℤ n
    → n ≤ℤ cfg.max_limit
    → (out : Bytes) × (append_limit sql n ≡ some out) × Limited cfg sql out n
append_limit-Limited cfg sql n sane bal lo hi =
    let (d, e, v) = itoa-value n (between-Fits n lo (omega (arith, sane.max_fits))) in
    let eq : append_limit sql n ≡ some (with_clause sql (codes " LIMIT ") d) =
      unfold append_limit in rw e in
    (
      with_clause sql (codes " LIMIT ") d,
      eq,
      record {
        digits = d;
        is = refl;
        means = v;
        positive = lo;
        capped = hi;
        found = append_limit-has_limit sql n bal eq;
      },
    )
