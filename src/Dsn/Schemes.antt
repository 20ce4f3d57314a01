-- ===== src/Dsn/Schemes.antt =====
-- DSNs that start with a scheme.
use sql_cli.Db.Types.{ok}
use sql_cli.Base.{
  Bool, Bytes, [], ap, arith, beq, beq_iff, codes, false, get_or, leb, length, length-append,
  length-map, refl, subst, sym, take, take-length_append, true, ℕ, ◌++◌, ◌==◌, ◌||◌, ◌∙◌, ◌∷◌, ◌≡◌,
  ◌≢◌,
}
use sql_cli.Dsn.{detect, detect_trimmed, driver_mysql, driver_postgres, has_prefix_fold}
use sql_cli.Strings.{Solid, is_space, lower_byte, to_lower, trim_right, trim_space-append}

lower_byte-is_space : (c : ℕ) → is_space (lower_byte c) ≡ is_space c
unfolding lower_byte is_space
lower_byte-is_space c = ground arith

to_lower-Solid : (p : Bytes) → Solid (to_lower p) → Solid p
unfolding to_lower
to_lower-Solid [] h = tt
to_lower-Solid (c ∷ p) h = (sym (lower_byte-is_space c) ∙ h.0, to_lower-Solid p h.1)

has_prefix_fold-append :
    (p s k : Bytes) → to_lower p ≡ to_lower k → has_prefix_fold (p ++ s) k ≡ true
unfolding has_prefix_fold to_lower
has_prefix_fold-append p s k h =
    let same : length k ≡ length p =
      sym (length-map lower_byte k) ∙ ap length (sym h) ∙ length-map lower_byte p in
    let whole : take (length k) (p ++ s) ≡ p =
      ap (λ n. take n (p ++ s)) same ∙ take-length_append p s in
    let fits : leb (length k) (length (p ++ s)) ≡ true =
      let l = length-append p s in ground arith in
    let equal : beq (to_lower (take (length k) (p ++ s))) (to_lower k) ≡ true =
      (beq_iff (to_lower (take (length k) (p ++ s))) (to_lower k)).1 (ap to_lower whole ∙ h) in
    rw (fits, equal) refl

-- Another first letter is another scheme.
other_scheme :
    (c : ℕ) (p s : Bytes) (d : ℕ) (k : Bytes)
    → (lower_byte c == lower_byte d) ≡ false
    → has_prefix_fold ((c ∷ p) ++ s) (d ∷ k) ≡ false
unfolding has_prefix_fold to_lower
other_scheme c p s d k h = rw h (ground arith)

pub data Scheme : Bytes → Bytes → Type 0 where
  postgres_scheme : Scheme (codes "postgres://") driver_postgres
  postgresql_scheme : Scheme (codes "postgresql://") driver_postgres
  mysql_scheme : Scheme (codes "mysql://") driver_mysql

Scheme-Solid : {k driver : Bytes} → Scheme k driver → Solid k
unfolding is_space
Scheme-Solid postgres_scheme = ground arith
Scheme-Solid postgresql_scheme = ground arith
Scheme-Solid mysql_scheme = ground arith

-- A scheme is in lower case.
Scheme-to_lower : {k driver : Bytes} → Scheme k driver → to_lower k ≡ k
unfolding to_lower lower_byte
Scheme-to_lower postgres_scheme = refl
Scheme-to_lower postgresql_scheme = refl
Scheme-to_lower mysql_scheme = refl

not_postgres :
    (c : ℕ) (p : Bytes)
    → to_lower (c ∷ p) ≡ codes "mysql://"
    → (lower_byte c == lower_byte b'p') ≡ false
unfolding to_lower lower_byte
not_postgres c p h = let first = ap (λ l. get_or l 0 0) h in ground arith

or_right : (a : Bool) {b : Bool} → b ≡ true → (a || b) ≡ true
or_right a h = ground arith

no-Scheme : {k driver : Bytes} → Scheme k driver → to_lower [] ≢ k
unfolding to_lower
no-Scheme postgres_scheme = λ h. cc
no-Scheme postgresql_scheme = λ h. cc
no-Scheme mysql_scheme = λ h. cc

detect_trimmed-Scheme :
    (c : ℕ) (p s : Bytes) {k driver : Bytes}
    → Scheme k driver
    → to_lower (c ∷ p) ≡ k
    → detect_trimmed ((c ∷ p) ++ s) ≡ ok driver
unfolding detect_trimmed
detect_trimmed-Scheme c p s postgres_scheme h =
    rw
      (has_prefix_fold-append (c ∷ p) s (codes "postgres://")
        (h ∙ sym (Scheme-to_lower postgres_scheme)))
      refl
detect_trimmed-Scheme c p s postgresql_scheme h =
    let found =
      has_prefix_fold-append (c ∷ p) s (codes "postgresql://")
        (h ∙ sym (Scheme-to_lower postgresql_scheme)) in
    rw (or_right (has_prefix_fold ((c ∷ p) ++ s) (codes "postgres://")) found) refl
detect_trimmed-Scheme c p s mysql_scheme h =
    let found =
      has_prefix_fold-append (c ∷ p) s (codes "mysql://")
        (h ∙ sym (Scheme-to_lower mysql_scheme)) in
    let first = not_postgres c p h in
    rw
      (
        other_scheme c p s b'p' (codes "ostgres://") first,
        other_scheme c p s b'p' (codes "ostgresql://") first,
        found,
      )
      refl

-- A DSN whose scheme is postgres, postgresql or mysql, in letters of any case, is for that driver,
-- whatever stands behind the scheme.
pub detect-Scheme :
    (p s : Bytes) {k driver : Bytes}
    → Scheme k driver
    → to_lower p ≡ k
    → detect (p ++ s) ≡ ok driver
unfolding detect
detect-Scheme [] s k h = absurd (no-Scheme k h)
detect-Scheme (c ∷ p) s k h =
    let solid = to_lower-Solid (c ∷ p) (subst Solid (sym h) (Scheme-Solid k)) in
    rw (trim_space-append c p s solid) (detect_trimmed-Scheme c p (trim_right s) k h)
