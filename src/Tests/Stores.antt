-- ===== src/Tests/Stores.antt =====
-- The stores of accounts, the history of an account, its tasks, and the checks of a request.
use funding_tool.Prelude.{
  ℕ, ◌≡◌, ◌⊎◌, inl, ◌↔◌, ◌&&◌, refl, ap, ◌∙◌, Bool, true, false, str_eq, if◌then◌else◌, String,
  Option, none, some, List, [], ◌∷◌, arith,
}
use funding_tool.Errors.{ok, err, exchange_error, key_error}
use funding_tool.Decimal.{from_nat}
use funding_tool.Time.{DateTime}
use funding_tool.Models.{ApiCredentials, IncomeRecord, HistoryResult}
use funding_tool.Accounts
use funding_tool.Accounts.{Keyring, Account, Store, plain}
use funding_tool.Accounts.Credentials.{IsKeyring, get_credentials-add}
use funding_tool.Accounts.Default.{
  HasDefault, Change, adding, removing, after_changes, after_changes-HasDefault,
}
use funding_tool.History.{run_account_history}
use funding_tool.History.Totals.{Reports, run_account_history-Reports}
use funding_tool.Tasks
use funding_tool.Tasks.{Manager, Task, Status, done, running, submit, finish, restart}
use funding_tool.Tasks.Answers.{
  IsReachable, initial, after, submitted, finished, restarted, status-Step,
}
use funding_tool.Vault
use funding_tool.Vault.{
  Cipher, Plaintext, Keys, Tables, VaultRow, Sealed, add_account, delete_account, credentials,
}
use funding_tool.Vault.Access.{IsCipher, get_credentials-rotated}
use funding_tool.Csrf.{Url, Request, check, accepted}
use funding_tool.Csrf.Accepts.{IsOwn, check-accepted_iff}
use funding_tool.Binance.Permissions.{Signed, read_only, advised, verify_credentials}

abbrev pub creds : ApiCredentials
creds = record { api_key = "abcdef12"; api_secret = "secret34"; passphrase = none }

-- A keyring of two texts in a function.
abbrev pub Passwords : Type 0
Passwords = String → String → Option String

abbrev pub keyring : Keyring Passwords
keyring = record {
  get_password = λ k s u. ok (k s u);
  set_password = λ k service username value.
      ok (λ s u. if str_eq service s && str_eq username u then some value else k s u);
  delete_password = λ k service username.
      ok (λ s u. if str_eq service s && str_eq username u then none else k s u);
}

ok_if : (b : Bool) (x y : Option String) → ok (if b then x else y) ≡ (if b then ok x else ok y)
ok_if true x y = refl
ok_if false x y = refl

ok_same : {A : Type 0} {x y : A} → ok x ≡ ok y → y ≡ x
ok_same h = cc

keyring-IsKeyring : IsKeyring keyring
keyring-IsKeyring = record {
  get_set = λ k service username value s u h.
      ap (λ f. ok (f s u)) (ok_same h)
      ∙ ok_if (str_eq service s && str_eq username u) (some value) (k s u);
  set_ok = λ k service username value a. (_, refl);
}

abbrev pub empty : Store Passwords
empty = record { default = none; accounts = []; keyring = λ s u. none }

get_credentials-add_example :
    let (answer, st') =
      Accounts.add keyring "main" "binance_usdm" creds "2026-01-01" none false empty in
    (answer ≡ ok tt) × (Accounts.get_credentials keyring "main" st' ≡ ok creds)
get_credentials-add_example =
    get_credentials-add keyring keyring-IsKeyring "main" "binance_usdm" creds "2026-01-01" none
      false empty (unfold Accounts.find in refl) refl refl
      (inl (unfold Accounts.keyring_available Accounts.succeeds in refl))

abbrev changes : List (Change keyring)
changes =
    adding "main" "binance_usdm" creds "2026-01-01" none false
    ∷ adding "other" "binance_usdm" creds "2026-01-02" none false
    ∷ removing "main"
    ∷ []

after_changes-HasDefault_example : HasDefault (after_changes keyring changes empty)
after_changes-HasDefault_example = after_changes-HasDefault keyring changes empty refl

abbrev pub month_of : DateTime → String
month_of t = "2026-01"

abbrev pub income : IncomeRecord
income = record {
  timestamp = record { us = 1767225600000000; aware = true };
  symbol = "BTCUSDT";
  amount_usdt = from_nat 3;
  tran_id = "1";
}

abbrev pub new_year : DateTime
new_year = record { us = 1767225600000000; aware = true }

abbrev pub next_day : DateTime
next_day = record { us = 1767312000000000; aware = true }

run_account_history-Reports_example :
    (h : HistoryResult) × (run_account_history month_of new_year next_day
        (ok (income ∷ income ∷ []))
      ≡ ok h)
    × Reports month_of (income ∷ income ∷ []) h
run_account_history-Reports_example =
    run_account_history-Reports month_of new_year next_day (income ∷ income ∷ []) refl refl
      (omega arith)

abbrev no_tasks : Manager ℕ
no_tasks = record { memory = []; files = [] }

abbrev task : Task ℕ
task = record { status = running; created = 100 }

abbrev done_task : Task ℕ
done_task = record { status = done 7; created = 100 }

abbrev with_task : Manager ℕ
with_task = submit "t1" 100 no_tasks

abbrev with_answer : Manager ℕ
with_answer = finish "t1" task (ok 7) with_task

with_answer-IsReachable : IsReachable 3600 with_answer
unfolding Tasks.find submit Tasks.assign
with_answer-IsReachable =
    after with_task with_answer
      (after no_tasks with_task initial (submitted no_tasks "t1" 100 refl refl))
      (finished with_task "t1" task (ok 7) refl refl)

status-Step_example :
    (Tasks.status "t1" (restart with_answer) ≡ ok done_task)
    ⊎ (Tasks.status "t1" (restart with_answer) ≡ err key_error)
unfolding Tasks.status Tasks.find submit Tasks.assign finish Tasks.ended
status-Step_example =
    status-Step 3600 with_answer (restart with_answer) "t1" done_task with_answer-IsReachable
      (restarted with_answer) refl (λ e. cc)

-- A cipher that keeps the plaintext.
abbrev pub cipher : Cipher ℕ ℕ Plaintext
cipher = record { encrypt = λ k n p. p; decrypt = λ k n c. ok c }

pub cipher-IsCipher : IsCipher cipher
cipher-IsCipher = record { decrypt_encrypt = λ k n p. refl }

abbrev pub keys : Keys ℕ
keys = record { master = 11; prev = none; active = 1 }

abbrev pub row : VaultRow ℕ Plaintext
row = record {
  name = "main";
  label = "";
  created_at = "2026-01-01";
  key_first6 = "abcdef";
  contents = record { key_version = 1; nonce = 5; ciphertext = credentials creds };
  perm_read = none;
  perm_trade = none;
  perm_withdraw = none;
  perm_checked_at = none;
}

abbrev pub one_row : Tables ℕ Plaintext
one_row = record { accounts = row ∷ []; canary = none }

get_credentials-rotated_example :
    Vault.get_credentials cipher (record { master = 22; prev = some 11; active = 2 }) "main" one_row
    ≡ Vault.get_credentials cipher keys "main" one_row
unfolding Vault.find_row
get_credentials-rotated_example =
    get_credentials-rotated cipher cipher-IsCipher keys 22 "main" one_row row refl refl

abbrev pub parse : String → Option Url
parse s = some (record { scheme = "https"; netloc = "example.org"; path = "/funding/history" })

abbrev pub request : Request
request = record {
  cookie_token = some "token";
  header_token = some "token";
  origin = some "https://example.org";
  referer = some "https://example.org/funding/history";
}

check-accepted_iff_example :
    (check parse "https://example.org" request ≡ accepted)
    ↔ IsOwn parse "https://example.org" request
check-accepted_iff_example = check-accepted_iff parse "https://example.org" request

abbrev answers : Signed
answers = record { server_time = ok 1; balance = ok tt; restrictions = err exchange_error }

credentials_verified : verify_credentials answers ≡ ok read_only
unfolding verify_credentials advised
credentials_verified = refl
