-- ===== src/Web/AccountsApi/Fields.antt =====
-- web/models.py: the fields of AccountCreateRequest, which are checked before create_account of
-- web/routes/accounts.py runs. A text is as long as it has code points.
pub mod Names
use Prim.Native.Char.{code}
use funding_tool.Prelude.{ℕ, zero, suc, Bool, true, false, ◌&&◌, ◌||◌, leb, ◌==◌, String}
use funding_tool.Models.{PermissionReport}
use funding_tool.Vault.{Cipher, Keys, Tables}
use funding_tool.Web.{Awaited, Handled}
use funding_tool.Web.AccountsApi.{AccountCreateRequest, AccountOut, create_account}

-- A body whose fields are refused is answered with 422, and the handler does not run.
pub data Posted (A : Type 0) : Type 0 where
  unprocessable : Posted A
  handled : Handled A → Posted A

unfoldable pub len : String → ℕ
len String.[] = 0
len (String.◌∷◌ c s) = suc (len s)

-- [A-Za-z0-9_\-]
unfoldable pub is_name_char : ℕ → Bool
is_name_char c =
    (leb b'A' c && leb c b'Z')
    || (leb b'a' c && leb c b'z')
    || (leb b'0' c && leb c b'9')
    || c == b'_'
    || c == b'-'

unfoldable pub all_name_chars : String → Bool
all_name_chars String.[] = true
all_name_chars (String.◌∷◌ c s) = is_name_char (code c) && all_name_chars s

-- ^[A-Za-z0-9_\-]+$
unfoldable pub matches_name : String → Bool
matches_name String.[] = false
matches_name (String.◌∷◌ c s) = all_name_chars (String.◌∷◌ c s)

-- min_length and max_length
unfoldable pub has_length : ℕ → ℕ → String → Bool
has_length lo hi s = leb lo (len s) && leb (len s) hi

unfoldable pub fields_ok : AccountCreateRequest → Bool
fields_ok p =
    has_length 1 64 p.name
    && matches_name p.name
    && has_length 0 128 p.label
    && has_length 8 128 p.api_key
    && has_length 8 256 p.api_secret

-- POST /accounts
unfoldable pub post_account :
    {Key Nonce Code : Type 0}
    → Cipher Key Nonce Code
    → Keys Key
    → (String → Bool)
    → AccountCreateRequest
    → Awaited PermissionReport
    → String
    → String
    → Nonce
    → Tables Nonce Code
    → Posted AccountOut × Tables Nonce Code
post_account cipher keys blank p v now checked_at nonce t = elim (fields_ok p) [
  | false ↦ (unprocessable, t)
  | true ↦
      let (answer, t') = create_account cipher keys blank p v now checked_at nonce t in
      (handled answer, t')
]
