-- ===== src/Tests/Records.antt =====
-- What is logged, and the files of the account store.
use funding_tool.Prelude.{ℕ, ◌≡◌, refl, inl, inr, Option, none, some, List, [], ◌∷◌, ◌++◌}
use funding_tool.Errors.{Result, ok}
use funding_tool.Regex.{match, match_many, or_else, count_while, finish, match_at, sub_from, sub}
use funding_tool.Text.{codes}
use funding_tool.Log.{
  is_value, is_space, is_quote, is_separator, is_joint, is_alnum, between, fold_case, word, times,
  boundary, key_pattern, secret_pattern, signature_pattern, scrub, LogRecord, get_message, filter,
  stars,
}
use funding_tool.Log.Messages.{filter-hidden}
use funding_tool.Binance.Signing.{
  income_url, urlencode, income_params, balance_url, restrictions_url, account_params,
}
use funding_tool.Binance.Signing.Logged.{scrub-signed_urls}
use funding_tool.Accounts.Files.{
  Index, Document, mapping, Files, open_tmp, open_new, unlink, write, with_text, written,
}
use funding_tool.Accounts.Files.Crashes.{IsRecoverable, Saving-IsRecoverable}

-- A program that is never asked to put in arguments.
abbrev interpolate : List ℕ → List ℕ → Result (List ℕ)
interpolate msg args = ok msg

abbrev request_record : LogRecord ℕ
request_record = record { msg = codes "GET /x?api_key=abcdef0123&signature=ab12, done"; args = [] }

-- The scrubber on the forms that the patterns are for.
scrub_header : scrub (codes "{'X-MBX-APIKEY': 'abcdef0123'}") ≡ codes "{'X-MBX-APIKEY': 'abcdef…'}"
unfolding scrub key_pattern secret_pattern signature_pattern boundary word times match_at is_value
    is_alnum is_joint is_quote is_separator is_space fold_case between match match_many or_else
    finish count_while sub sub_from
scrub_header = refl

scrub_dict : scrub (codes "{\"API-Secret\" : \"s3\"} x") ≡ codes "{\"API-Secret\" : \"***\"} x"
unfolding scrub key_pattern secret_pattern signature_pattern boundary word times match_at is_value
    is_alnum is_joint is_quote is_separator is_space fold_case between match match_many or_else
    finish count_while sub sub_from
scrub_dict = refl

filter-hidden_example :
    get_message interpolate (filter interpolate request_record).1
    ≡ ok (
        scrub (codes "GET /x?api_key=abcdef0123")
        ++ b'&' ∷ (codes "signature=" ++ stars ++ scrub (codes ", done")))
unfolding is_value is_space is_quote between get_message
filter-hidden_example =
    filter-hidden interpolate request_record (codes "GET /x?api_key=abcdef0123")
      (codes "signature=") (codes "ab12") (codes ", done") b'&' (inr (inl refl)) (inl refl)
      (refl, (refl, (refl, (refl, tt)))) (inl refl) refl

abbrev hash : List ℕ → List ℕ → List ℕ
hash key message = 255 ∷ 16 ∷ []

scrub-signed_urls_example :
    let symbol = some (codes "BTCUSDT") in
    (scrub (income_url hash (codes "s") symbol 1 2 3)
      ≡ codes "/fapi/v1/income?"
        ++ urlencode (income_params symbol 1 2 3)
        ++ codes "&signature=***")
    × (scrub (balance_url hash (codes "s") 3)
        ≡ codes "/fapi/v3/balance?" ++ urlencode (account_params 3) ++ codes "&signature=***")
    × (scrub (restrictions_url hash (codes "s") 3)
        ≡ codes "/sapi/v1/account/apiRestrictions?"
          ++ urlencode (account_params 3)
          ++ codes "&signature=***")
scrub-signed_urls_example = scrub-signed_urls hash (codes "s") (some (codes "BTCUSDT")) 1 2 3

-- Texts that are the indexes themselves, or broken.
abbrev dump : Index → Option Index
dump d = some d

abbrev parse : Option Index → Document
parse none = Document.invalid
parse (some d) = mapping (some d.default) (some d.accounts)

abbrev new_index : Index
new_index = record { default = some "main"; accounts = [] }

abbrev old_files : Files (Option Index)
old_files = record {
  main = some (record { mode = 384; text = some (record { default = none; accounts = [] }) });
  tmp = some (record { mode = 420; text = none });
}

abbrev opened_files : Files (Option Index)
opened_files = record old_files { tmp = some (record { mode = 384; text = none }) }

Saving-IsRecoverable_example :
    IsRecoverable dump parse none (λ d. refl) new_index old_files opened_files
unfolding open_tmp open_new unlink write with_text
Saving-IsRecoverable_example =
    Saving-IsRecoverable dump parse none (λ d. refl) new_index old_files opened_files
      (written opened_files none refl)
