-- ===== src/Strings/Defs.antt =====
-- What the program uses of Go's package strings, on ASCII texts.
use sql_cli.Base.{
  Bool, Bytes, Option, [], beq, drop, false, if◌then◌else◌, leb, length, map, none, some, true, ℕ,
  ◌&&◌, ◌+◌, ◌-◌, ◌==◌, ◌||◌, ◌∷◌,
}

-- `unicode.IsSpace`.
unfoldable pub is_space : ℕ → Bool
is_space c = (leb b'\t' c && leb c b'\r') || c == b' '

unfoldable pub trim_left : Bytes → Bytes
trim_left [] = []
trim_left (c ∷ s) = let rest = trim_left s in if is_space c then rest else c ∷ s

abbrev pub is_empty : Bytes → Bool
is_empty [] = true
is_empty (c ∷ s) = false

-- One byte in front of a text whose right end is trimmed already.
abbrev pub push_trimmed : ℕ → Bytes → Bytes
push_trimmed c s = if is_space c && is_empty s then [] else c ∷ s

unfoldable pub trim_right : Bytes → Bytes
trim_right [] = []
trim_right (c ∷ s) = push_trimmed c (trim_right s)

-- `strings.TrimSpace`.
unfoldable pub trim_space : Bytes → Bytes
trim_space s = trim_right (trim_left s)

unfoldable pub upper_byte : ℕ → ℕ
upper_byte c = if leb b'a' c && leb c b'z' then c - 32 else c

-- `strings.ToUpper`.
unfoldable pub to_upper : Bytes → Bytes
to_upper = map upper_byte

unfoldable pub lower_byte : ℕ → ℕ
lower_byte c = if leb b'A' c && leb c b'Z' then c + 32 else c

-- `strings.ToLower`.
unfoldable pub to_lower : Bytes → Bytes
to_lower = map lower_byte

-- `strings.HasPrefix`.
unfoldable pub has_prefix : Bytes → Bytes → Bool
has_prefix s [] = true
has_prefix [] (k ∷ ks) = false
has_prefix (c ∷ s) (k ∷ ks) = c == k && has_prefix s ks

-- `strings.HasSuffix`.
unfoldable pub has_suffix : Bytes → Bytes → Bool
has_suffix s suffix =
    leb (length suffix) (length s) && beq (drop (length s - length suffix) s) suffix

abbrev pub shift : ℕ → Option ℕ → Option ℕ
shift n none = none
shift n (some i) = some (i + n)

-- `strings.Index`; `none` stands for -1.
unfoldable pub index : Bytes → Bytes → Option ℕ
index [] [] = some 0
index [] (k ∷ ks) = none
index (c ∷ s) keyword =
    let rest = index s keyword in if has_prefix (c ∷ s) keyword then some 0 else shift 1 rest

-- `strings.Contains`.
unfoldable pub contains : Bytes → Bytes → Bool
contains s keyword = elim (index s keyword) [ none ↦ false | some i ↦ true ]

-- The byte is one of `chars`.
unfoldable pub byte_in : ℕ → Bytes → Bool
byte_in c [] = false
byte_in c (k ∷ ks) = c == k || byte_in c ks

-- `strings.IndexAny`, `strings.IndexByte`; `none` stands for -1.
unfoldable pub index_any : Bytes → Bytes → Option ℕ
index_any [] chars = none
index_any (c ∷ s) chars = if byte_in c chars then some 0 else shift 1 (index_any s chars)
