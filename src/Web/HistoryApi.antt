-- ===== src/Web/HistoryApi.antt =====
-- web/routes/history.py, with the models of its answers in web/models.py: a history is fetched by a
-- background task, and polled. `dump` is model_dump(mode="json") of a payload, and `validate` is
-- model_validate. The manager is the one that the first request makes, with nothing in memory.
pub mod Polls
use funding_tool.Prelude.{
  ℕ, ◌+◌, ◌*◌, Bool, true, false, ltb, if◌then◌else◌, String, Option, none, some, List, [], ◌∷◌,
  map,
}
use funding_tool.Errors.{Error, Result, ok, err, key_error, type_error, ◌>>=◌}
use funding_tool.Decimal.{Decimal}
use funding_tool.Time.{DateTime}
use funding_tool.Models.{ApiCredentials, IncomeRecord, HistoryResult}
use funding_tool.History.{run_account_history}
use funding_tool.Vault.{Cipher, Keys, Tables, get_credentials}
use funding_tool.Tasks.{Status, Task, Manager, submit, status}
use funding_tool.Tasks
use funding_tool.WebErrors.{WebCode}
use funding_tool.Web.Ranges.{check_range}
use funding_tool.Web.{Failure, http, raised, coded, Handled, returned, failed, and_then}

pub record HistoryRequest : Type 0 where
  pub account_name : String
  pub start : DateTime
  pub end : DateTime
  pub symbol : Option String

pub record IncomeRecordOut : Type 0 where
  pub timestamp : DateTime
  pub symbol : String
  pub amount_usdt : Decimal
  pub tran_id : String

pub record HistoryPayload : Type 0 where
  pub start : DateTime
  pub end : DateTime
  pub total : Decimal
  pub by_symbol : List (String × Decimal)
  pub by_month : List (String × Decimal)
  pub records : List IncomeRecordOut

unfoldable pub income_record_out : IncomeRecord → IncomeRecordOut
income_record_out ir = record {
  timestamp = ir.timestamp;
  symbol = ir.symbol;
  amount_usdt = ir.amount_usdt;
  tran_id = ir.tran_id;
}

unfoldable pub to_history_payload : HistoryResult → HistoryPayload
to_history_payload r = record {
  start = r.start;
  end = r.end;
  total = r.total;
  by_symbol = r.by_symbol;
  by_month = r.by_month;
  records = map income_record_out r.records;
}

-- except KeyError, around get_credentials
unfoldable pub account_failure : Error → Failure
account_failure Error.key_error = http 404 (coded WebCode.validation_error (some "account_name"))
account_failure e = raised e

unfoldable pub found_account : Result ApiCredentials → Handled ApiCredentials
found_account (ok creds) = returned creds
found_account (err e) = failed (account_failure e)

-- The status of a task with its payload.
pub data HistoryTaskStatus : Type 0 where
  running : HistoryTaskStatus
  done : HistoryPayload → HistoryTaskStatus
  failed_with : WebCode → HistoryTaskStatus

-- except KeyError, around status
unfoldable pub status_failure : Error → Failure
status_failure Error.key_error = http 404 (coded WebCode.validation_error none)
status_failure e = raised e

module _ {Json : Type 0} (dump : HistoryPayload → Json)
    (validate : Json → Result HistoryPayload) where
  -- _job, with what the exchange answers it
  unfoldable pub job :
      (DateTime → String) → HistoryRequest → Result (List IncomeRecord) → Result Json
  job month_of body fetch = run_account_history month_of body.start body.end fetch >>= λ result.
      ok (dump (to_history_payload result))

  unfoldable pub valid_payload : Result HistoryPayload → Handled HistoryTaskStatus
  valid_payload (ok payload) = returned (done payload)
  valid_payload (err e) = failed (raised e)

  unfoldable pub task_status : Status Json → Handled HistoryTaskStatus
  task_status Status.running = returned running
  task_status (Status.done json) = valid_payload (validate json)
  task_status (Status.failed code) = returned (failed_with code)

  unfoldable pub polled : Result (Task Json) → Handled HistoryTaskStatus
  polled (ok t) = task_status t.status
  polled (err e) = failed (status_failure e)

  unfoldable pub history_result : String → Manager Json → Handled HistoryTaskStatus
  history_result id m = polled (status id m)

module _ {Key Nonce Code : Type 0} (cipher : Cipher Key Nonce Code) (keys : Keys Key) where
  -- What the handler finds before it submits.
  unfoldable pub admitted : HistoryRequest → Tables Nonce Code → Handled ApiCredentials
  admitted body t =
      and_then (check_range 1095 body.start body.end)
        λ u. found_account (get_credentials cipher keys body.account_name t)

  -- The answer is the task id.
  unfoldable pub submit_history :
      {Json : Type 0}
      → HistoryRequest
      → Tables Nonce Code
      → String
      → ℕ
      → Manager Json
      → Handled String × Manager Json
  submit_history body t id now m = elim (admitted body t) [
    | failed f ↦ (failed f, m)
    | returned creds ↦ (returned id, submit id now m)
  ]
