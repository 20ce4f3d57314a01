-- ===== src/Sanitize.antt =====
-- internal/sanitize/sanitize.go: parameters and statements made fit for a log, on ASCII texts. Nothing
-- in the program calls it.
pub mod Hidden
use sql_cli.Base.{
  Bool, Bytes, List, [], codes, false, if◌then◌else◌, leb, length, ltb, map, not, take, true, ℕ,
  ◌&&◌, ◌*◌, ◌+◌, ◌/◌, ◌==◌, ◌||◌, ◌∷◌,
}
use sql_cli.Db.Types.{Value, bytes, null, number, text}
use sql_cli.Strings.{contains, has_prefix, is_empty, to_lower}

abbrev pub any_of : (Bytes → Bool) → List Bytes → Bool
any_of test [] = false
any_of test (k ∷ ks) = test k || any_of test ks

abbrev pub sensitive_prefixes : List Bytes
sensitive_prefixes =
    codes "sk-" ∷ codes "sk_" ∷ codes "pk-" ∷ codes "pk_" ∷ codes "AKIA" ∷ codes "ASIA" ∷ []

abbrev pub sensitive_keywords : List Bytes
sensitive_keywords =
    codes "password"
    ∷ codes "secret"
    ∷ codes "token"
    ∷ codes "key"
    ∷ codes "credential"
    ∷ codes "passwd"
    ∷ codes "pwd"
    ∷ codes "auth"
    ∷ []

unfoldable pub is_alphanumeric : ℕ → Bool
is_alphanumeric c =
    (leb b'a' c && leb c b'z') || (leb b'A' c && leb c b'Z') || (leb b'0' c && leb c b'9')

-- How many letters and digits a text has.
unfoldable pub alpha_num : Bytes → ℕ
alpha_num [] = 0
alpha_num (c ∷ s) = let n = alpha_num s in if is_alphanumeric c then n + 1 else n

-- `looksSensitive`; only the search for keywords reads the text cut to 32 bytes.
unfoldable pub looks_sensitive : Bytes → Bool
looks_sensitive s =
    not (is_empty s)
    && (any_of (has_prefix s) sensitive_prefixes
        || (ltb 20 (length s) && ltb (length s * 80 / 100) (alpha_num s))
        || any_of (contains (to_lower (take 32 s))) sensitive_keywords)

abbrev pub redacted : Bytes
redacted = codes "[REDACTED]"

unfoldable pub sanitize_value : Value → Value
sanitize_value (text s) = if looks_sensitive s then text redacted else text s
sanitize_value null = null
sanitize_value (bytes s) = bytes s
sanitize_value (number n) = number n

-- `Params`.
unfoldable pub sanitize_params : List Value → List Value
sanitize_params args = map sanitize_value args

-- The loop of `replaceQuoted`; the second argument is `inQuote`.
abbrev pub mask : ℕ → Bool → Bytes → Bytes
mask quote in_quote [] = []
mask quote in_quote (c ∷ s) =
    let outside = mask quote false s in
    let inside = mask quote true s in
    if c == quote
    then c ∷ (if in_quote then outside else inside)
    else if in_quote
    then b'*' ∷ inside
    else c ∷ outside

unfoldable pub replace_quoted : Bytes → ℕ → Bytes
replace_quoted s quote = mask quote false s

-- `SQL`.
unfoldable pub sanitize_sql : Bytes → Bytes
sanitize_sql s = replace_quoted (replace_quoted s b'\'') b'"'
