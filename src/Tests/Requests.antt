-- ===== src/Tests/Requests.antt =====
-- Histories, backtests and symbols that are asked for over the web, behind their dependencies.
use funding_tool.Prelude.{
  ◌≡◌, ◌⊎◌, ◌↔◌, ◌≤◌, ◌+◌, refl, true, String, none, some, List, [], ◌∷◌, map, All, arith,
}
use funding_tool.Errors.{Error, Result, ok, err, network_error}
use funding_tool.Models.{ApiCredentials}
use funding_tool.Vault.{Plaintext, Tables, find_row}
use funding_tool.Vault
use funding_tool.Auth.{decoded}
use funding_tool.Tasks.{Manager, submit, ended}
use funding_tool.Web.{
  Handled, returned, failed, raised, respond, error, answered, Envelope, http, coded,
}
use funding_tool.Web.Ranges.{days_us, check_range}
use funding_tool.Web.HistoryApi.{
  HistoryRequest, HistoryPayload, running, job, task_status, history_result, admitted,
  submit_history, found_account,
}
use funding_tool.Web.HistoryApi.Polls.{
  Event, begins, ends, sweeps, IsOther, happen_all, end_task, submit_history-returned_iff,
  history_result-submit_history,
}
use funding_tool.Web.BacktestApi.{BacktestRequest}
use funding_tool.Web.Symbols.{SymbolCache, first_matches, symbols}
use funding_tool.Web.Symbols.Fresh.{SymbolRequest, symbols_all, symbols_all-refetched}
use funding_tool.Web.Guards.{Incoming, serve, IsTrusted, IsDenial, serve-cases}
use funding_tool.Web.AccountsApi.{delete_account}
use funding_tool.Tests.Stores.{
  cipher, keys, one_row, parse, request, month_of, income, new_year, next_day,
}
use funding_tool.Tests.Access.{config, checks, locked_table}
use funding_tool.Tests.Rates.{one_coin}

abbrev body : HistoryRequest
body = record { account_name = "main"; start = new_year; end = next_day; symbol = none }

abbrev no_tasks : Manager HistoryPayload
no_tasks = record { memory = []; files = [] }

abbrev dump : HistoryPayload → HistoryPayload
dump p = p

abbrev validate : HistoryPayload → Result HistoryPayload
validate p = ok p

submit_history-returned_iff_example :
    ((submit_history cipher keys body one_row "t1" 100 no_tasks
        ≡ (returned "t1", submit "t1" 100 no_tasks))
      ↔ ((true ≡ true)
          × (next_day.us ≤ new_year.us + days_us 1095)
          × ((c : ApiCredentials) × (Vault.get_credentials cipher keys "main" one_row ≡ ok c))))
    × ((submit_history cipher keys body one_row "t1" 100 no_tasks
          ≡ (returned "t1", submit "t1" 100 no_tasks))
        ⊎ ((f : funding_tool.Web.Failure) × (submit_history cipher keys body one_row "t1" 100
                no_tasks
              ≡ (failed f, no_tasks))))
submit_history-returned_iff_example =
    submit_history-returned_iff dump validate cipher keys body one_row "t1" 100 no_tasks

submitted : (submit_history cipher keys body one_row "t1" 100 no_tasks).0 ≡ returned "t1"
unfolding submit_history admitted funding_tool.Web.and_then check_range found_account
    Vault.get_credentials Vault.find_row Vault.unseal Vault.open_with Vault.key_of
    Vault.credentials_in
submitted = refl

abbrev meanwhile : List (Event HistoryPayload)
meanwhile = begins "t2" 101 ∷ ends "t2" (err network_error) ∷ sweeps 5000 ∷ []

meanwhile-IsOther : All (IsOther "t1") meanwhile
unfolding IsOther
meanwhile-IsOther = (refl, (refl, (tt, tt)))

history_result-submit_history_example :
    let m' =
      happen_all 3600 meanwhile (submit_history cipher keys body one_row "t1" 100 no_tasks).1 in
    let outcome = job dump validate month_of body (ok (income ∷ [])) in
    (history_result dump validate "t1" m' ≡ returned running)
    × (history_result dump validate "t1" (happen_all 3600 meanwhile (end_task "t1" outcome m'))
        ≡ task_status dump validate (ended outcome))
history_result-submit_history_example =
    history_result-submit_history dump validate cipher keys 3600 month_of body one_row "t1" 100
      no_tasks (ok (income ∷ [])) meanwhile meanwhile submitted meanwhile-IsOther meanwhile-IsOther

abbrev backtest_body : BacktestRequest
backtest_body = record {
  symbol = one_coin.symbol;
  side = one_coin.side;
  start = one_coin.start;
  end = one_coin.end;
  size_mode = one_coin.size_mode;
  size = one_coin.size;
}

abbrev first_request : SymbolRequest
first_request = record { q = "BTC"; now = 5000000; listed = ok ("BTCUSDT" ∷ "ETHUSDT" ∷ []) }

abbrev second_request : SymbolRequest
second_request = record { q = "ETH"; now = 8000000; listed = err network_error }

abbrev upper : String → String
upper s = s

abbrev listed : List String
listed = "BTCUSDT" ∷ "ETHUSDT" ∷ []

abbrev old_cache : SymbolCache
old_cache = some (1000000, "XRPUSDT" ∷ [])

symbols_all-refetched_example :
    (ok listed ≡ ok listed
      → symbols_all upper (first_request ∷ second_request ∷ []) old_cache ≡ (
        map (λ s. returned (first_matches upper s.q listed)) (first_request ∷ second_request ∷ []),
        some (5000000, listed),
      ))
    × ((e : Error)
        → ok listed ≡ err e
        → symbols upper "BTC" 5000000 (ok listed) old_cache ≡ (failed (raised e), old_cache))
symbols_all-refetched_example =
    symbols_all-refetched upper first_request (second_request ∷ []) old_cache listed (omega arith)
      (omega arith, tt)

abbrev incoming : Incoming
incoming = record {
  client = some "127.0.0.1";
  x_real_ip = some "10.0.0.1";
  authorization = decoded "admin:secret";
  csrf = request;
}

serve-cases_example :
    let r =
      serve checks config upper parse "https://example.org" incoming 500 501
        (delete_account "main")
        locked_table
        one_row in
    let trusted =
      IsTrusted checks config upper parse "https://example.org" incoming 500 locked_table in
    (trusted
      × (r.0 ≡ respond (delete_account "main" one_row).0)
      × (r.2 ≡ (delete_account "main" one_row).1))
    ⊎ (¬ trusted
        × ((e : Envelope) × IsDenial checks config upper parse "https://example.org" incoming 500
              locked_table e
            × (r.0 ≡ error e))
        × (r.2 ≡ one_row))
serve-cases_example =
    serve-cases checks config upper parse "https://example.org" incoming 500 501
      (delete_account "main") locked_table one_row
