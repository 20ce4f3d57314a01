-- ===== src/Strings/Index.antt =====
-- `HasPrefix` and `Index` against the text that they describe.
use sql_cli.Base.{
  Bytes, [], arith, drop, false, length, none, refl, some, suc, true, zero, ℕ, ◌++◌, ◌<◌, ◌∷◌, ◌≡◌,
  ◌≢◌,
}
use sql_cli.Strings.Defs.{has_prefix, index}

pub has_prefix_append : (k q : Bytes) → has_prefix (k ++ q) k ≡ true
unfolding has_prefix
has_prefix_append [] [] = refl
has_prefix_append [] (c ∷ q) = refl
has_prefix_append (c ∷ k) q = ground (arith, has_prefix_append k q)

pub has_prefix_splits : (s k : Bytes) → has_prefix s k ≡ true → s ≡ k ++ drop (length k) s
unfolding has_prefix
has_prefix_splits s [] h = refl
has_prefix_splits [] (k ∷ ks) h = ground arith
has_prefix_splits (c ∷ s) (k ∷ ks) h = ground (arith, has_prefix_splits s ks)

pub has_prefix-nil : (k : Bytes) → k ≢ [] → has_prefix [] k ≡ false
unfolding has_prefix
has_prefix-nil [] h = absurd (h refl)
has_prefix-nil (c ∷ k) h = refl

-- What `index` returns is an occurrence.
pub index_found : (s k : Bytes) (i : ℕ) → index s k ≡ some i → has_prefix (drop i s) k ≡ true
unfolding index has_prefix
index_found [] [] zero h = refl
index_found [] [] (suc i) h = ground arith
index_found [] (c ∷ k) i h = ground arith
index_found (c ∷ s) k zero h = ground arith
index_found (c ∷ s) k (suc i) h = ground (arith, index_found s k i)

-- No occurrence stands before it.
pub index_first :
    (s k : Bytes) (i j : ℕ) → index s k ≡ some i → j < i → has_prefix (drop j s) k ≡ false
unfolding index has_prefix
index_first [] [] i j h lt = ground arith
index_first [] (c ∷ k) i j h lt = ground arith
index_first (c ∷ s) k zero j h lt = absurd (omega arith)
index_first (c ∷ s) k (suc i) zero h lt = ground arith
index_first (c ∷ s) k (suc i) (suc j) h lt = ground (arith, index_first s k i j)

-- Where it finds none there is none.
pub index-none : (s k : Bytes) (j : ℕ) → k ≢ [] → index s k ≡ none → has_prefix (drop j s) k ≡ false
unfolding index has_prefix
index-none [] [] j ne h = absurd (ne refl)
index-none [] (c ∷ k) zero ne h = refl
index-none [] (c ∷ k) (suc j) ne h = refl
index-none (c ∷ s) k zero ne h = ground arith
index-none (c ∷ s) k (suc j) ne h = ground (arith, index-none s k j ne)
