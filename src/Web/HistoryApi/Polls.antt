-- ===== src/Web/HistoryApi/Polls.antt =====
-- What submissions and polls of a history answer while the manager serves other tasks.
use funding_tool.Prelude.{
  ℕ, ◌+◌, ◌≤◌, ◌≡◌, ◌↔◌, ◌⊎◌, inl, inr, refl, ap, ◌∙◌, true, false, Option-cases, str_eq, eq_iff,
  String, none, some, List, [], ◌∷◌, All, arith,
}
use funding_tool.Errors.{Result, ok, Result-cases}
use funding_tool.Models.{ApiCredentials, IncomeRecord}
use funding_tool.Time.{DateTime}
use funding_tool.Vault.{Cipher, Keys, Tables, get_credentials}
use funding_tool.Tasks.{Status, Task, Manager, find, submit, ended, finish, cleanup_expired}
use funding_tool.Tasks.Answers.{status_memory}
use funding_tool.Tasks.Tables.{find-assign}
use funding_tool.Web.{Failure, returned, failed, and_then, Handled-cases}
use funding_tool.Web.Ranges.{days_us, check_range, check_range_iff}
use funding_tool.Web.HistoryApi.{
  HistoryRequest, HistoryPayload, found_account, running, job, task_status, polled, history_result,
  admitted, submit_history,
}

-- What a worker does besides: other tasks are submitted and end, and files are swept.
pub data Event (R : Type 0) : Type 0 where
  begins : String → ℕ → Event R
  ends : String → Result R → Event R
  sweeps : ℕ → Event R

module _ {R : Type 0} where
  -- The end of a task, if memory has it.
  unfoldable pub end_task : String → Result R → Manager R → Manager R
  end_task id outcome m = elim (find id m.memory) [ none ↦ m | some t ↦ finish id t outcome m ]

  unfoldable pub happen : ℕ → Event R → Manager R → Manager R
  happen ttl (begins id now) m = submit id now m
  happen ttl (ends id outcome) m = end_task id outcome m
  happen ttl (sweeps now) m = cleanup_expired ttl now m

  unfoldable pub happen_all : ℕ → List (Event R) → Manager R → Manager R
  happen_all ttl [] m = m
  happen_all ttl (e ∷ es) m = happen_all ttl es (happen ttl e m)

  -- The event is of another task.
  unfoldable pub IsOther : String → Event R → Type 0
  IsOther id (begins j now) = str_eq j id ≡ false
  IsOther id (ends j outcome) = str_eq j id ≡ false
  IsOther id (sweeps now) = Unit

  find-end_task :
      (id j : String) (outcome : Result R) (m : Manager R)
      → str_eq j id ≡ false
      → find id (end_task j outcome m).memory ≡ find id m.memory
  unfolding end_task finish
  find-end_task id j outcome m other = elim (Option-cases (find j m.memory)) [
    | inl gone ↦ rw (gone, end_task) refl
    | inr (t, there) ↦
        rw (there, end_task)
          (find-assign j id (record t { status = ended outcome }) m.memory ∙ rw other refl)
  ]

  find-happen :
      (ttl : ℕ) (id : String) (e : Event R) (m : Manager R)
      → IsOther id e
      → find id (happen ttl e m).memory ≡ find id m.memory
  unfolding happen IsOther submit cleanup_expired
  find-happen ttl id (begins j now) m other =
      find-assign j id (record { status = Status.running; created = now }) m.memory ∙ rw other refl
  find-happen ttl id (ends j outcome) m other = find-end_task id j outcome m other
  find-happen ttl id (sweeps now) m other = refl

  find-happen_all :
      (ttl : ℕ) (id : String) (es : List (Event R)) (m : Manager R)
      → All (IsOther id) es
      → find id (happen_all ttl es m).memory ≡ find id m.memory
  unfolding happen_all
  find-happen_all ttl id [] m h = refl
  find-happen_all ttl id (e ∷ es) m h =
      find-happen_all ttl id es (happen ttl e m) h.1 ∙ find-happen ttl id e m h.0

  find-end_task-same :
      (id : String) (outcome : Result R) (m : Manager R) (t : Task R)
      → find id m.memory ≡ some t
      → find id (end_task id outcome m).memory ≡ some (record t { status = ended outcome })
  unfolding end_task finish
  find-end_task-same id outcome m t there =
      let same : str_eq id id ≡ true = ground (arith, eq_iff id id) in
      rw (there, end_task)
        (find-assign id id (record t { status = ended outcome }) m.memory ∙ rw same refl)

module _ {Key Nonce Code Json : Type 0} (dump : HistoryPayload → Json)
    (validate : Json → Result HistoryPayload) (cipher : Cipher Key Nonce Code)
    (keys : Keys Key) where
  admitted_iff :
      (body : HistoryRequest) (t : Tables Nonce Code)
      → (((creds : ApiCredentials) × (admitted cipher keys body t ≡ returned creds)) ↔ (
          (body.start.aware ≡ body.end.aware)
          × (body.end.us ≤ body.start.us + days_us 1095)
          × ((creds : ApiCredentials) × (get_credentials cipher keys body.account_name t
                ≡ ok creds))))
  unfolding admitted and_then found_account
  admitted_iff body t =
      let range = check_range_iff 1095 body.start body.end in
      (
        λ (creds, e). elim (Handled-cases (check_range 1095 body.start body.end)) [
          | inl (u, good) ↦ elim (Result-cases (get_credentials cipher keys body.account_name t)) [
            | inl (c, there) ↦ let (same, near) = range.0 good in (same, near, (c, there))
            | inr (x, missing) ↦ absurd (ground (arith, good, missing, e))
          ]
          | inr (f, bad) ↦ absurd (ground (arith, bad, e))
        ],
        λ (same, near, (creds, there)). (creds, rw (range.1 (same, near), there, admitted) refl),
      )

  -- How a submission ends: accepted, with the task in the manager, or refused, with the manager as
  -- it was.
  submit_history-cases :
      (body : HistoryRequest) (t : Tables Nonce Code) (id : String) (now : ℕ) (m : Manager Json)
      → ((creds : ApiCredentials) × (admitted cipher keys body t ≡ returned creds)
          × (submit_history cipher keys body t id now m ≡ (returned id, submit id now m)))
        ⊎ ((f : Failure) × (admitted cipher keys body t ≡ failed f)
            × (submit_history cipher keys body t id now m ≡ (failed f, m)))
  unfolding submit_history
  submit_history-cases body t id now m = elim (Handled-cases (admitted cipher keys body t)) [
    | inl (creds, e) ↦ inl (creds, e, rw (e, submit_history) refl)
    | inr (f, e) ↦ inr (f, e, rw (e, submit_history) refl)
  ]

  -- A submission ends with the task in the manager exactly if its two datetimes are both aware or
  -- both naive, the range is at most 1095 days, and the credentials of the account can be read; in
  -- all other cases it fails and leaves the manager as it is.
  pub submit_history-returned_iff :
      (body : HistoryRequest) (t : Tables Nonce Code) (id : String) (now : ℕ) (m : Manager Json)
      → ((submit_history cipher keys body t id now m ≡ (returned id, submit id now m)) ↔ (
          (body.start.aware ≡ body.end.aware)
          × (body.end.us ≤ body.start.us + days_us 1095)
          × ((creds : ApiCredentials) × (get_credentials cipher keys body.account_name t
                ≡ ok creds))))
        × ((submit_history cipher keys body t id now m ≡ (returned id, submit id now m))
            ⊎ ((f : Failure) × (submit_history cipher keys body t id now m ≡ (failed f, m))))
  submit_history-returned_iff body t id now m =
      let allowed = admitted_iff body t in
      elim (submit_history-cases body t id now m) [
        | inl (creds, e, s) ↦ ((λ h. allowed.0 (creds, e), λ h. s), inl s)
        | inr (f, e, s) ↦ (
          (
            λ h. absurd (ground (arith, s, h)),
            λ h. let (creds, e') = allowed.1 h in absurd (ground (arith, e, e')),
          ),
          inr (f, s),
        )
      ]

  polled-memory :
      (id : String) (m : Manager Json) (t : Task Json)
      → find id m.memory ≡ some t
      → history_result dump validate id m ≡ task_status dump validate t.status
  unfolding history_result polled
  polled-memory id m t there = ap (polled dump validate) (status_memory id m t there)

  -- A history that is accepted is answered: a poll says that it runs, whatever happens to other
  -- tasks and files, and after its job has ended, whatever happens then but a restart, each poll
  -- answers the payload of the job as it is validated, or the code of the job's error.
  pub history_result-submit_history :
      (ttl : ℕ) (month_of : DateTime → String) (body : HistoryRequest) (t : Tables Nonce Code)
      (id : String) (now : ℕ) (m : Manager Json) (fetch : Result (List IncomeRecord))
      (es es' : List (Event Json))
      → (submit_history cipher keys body t id now m).0 ≡ returned id
      → All (IsOther id) es
      → All (IsOther id) es'
      → let m' = happen_all ttl es (submit_history cipher keys body t id now m).1 in
        let outcome = job dump validate month_of body fetch in
        (history_result dump validate id m' ≡ returned running)
        × (history_result dump validate id (happen_all ttl es' (end_task id outcome m'))
            ≡ task_status dump validate (ended outcome))
  unfolding task_status
  history_result-submit_history ttl month_of body t id now m fetch es es' accepted h h' =
      let m1 = (submit_history cipher keys body t id now m).1 in
      let outcome = job dump validate month_of body fetch in
      let first : Task Json = record { status = Status.running; created = now } in
      let stored : find id m1.memory ≡ some first = elim (submit_history-cases body t id now m) [
        | inl (creds, e, s) ↦
            let same : str_eq id id ≡ true = ground (arith, eq_iff id id) in
            rw s (unfold submit in find-assign id id first m.memory ∙ rw same refl)
        | inr (f, e, s) ↦ absurd (ground (arith, s, accepted))
      ] in
      let runs = find-happen_all ttl id es m1 h ∙ stored in
      let over = find-end_task-same id outcome (happen_all ttl es m1) first runs in
      (
        polled-memory id (happen_all ttl es m1) first runs,
        polled-memory id _ _
            (find-happen_all ttl id es' (end_task id outcome (happen_all ttl es m1)) h' ∙ over),
      )
