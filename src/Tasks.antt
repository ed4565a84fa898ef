-- ===== src/Tasks.antt =====
-- web/tasks.py: background tasks with a status in memory and a file for each that has ended. A file
-- holds the status that was written, as JSON gives it back. Times are whole seconds.
pub mod Answers
pub mod Tables
use funding_tool.Prelude.{
  ℕ, ◌+◌, Bool, ltb, str_eq, if◌then◌else◌, String, Option, none, some, List, [], ◌∷◌,
}
use funding_tool.Errors.{Result, ok, err, key_error}
use funding_tool.WebErrors.{WebCode, map_core_exception}

-- The status with what belongs to it.
pub data Status (R : Type 0) : Type 0 where
  running : Status R
  done : R → Status R
  failed : WebCode → Status R

pub record Task (R : Type 0) : Type 0 where
  pub status : Status R
  pub created : ℕ

-- self._status, and the files under base_dir by their task ids.
pub record Manager (R : Type 0) : Type 0 where
  pub memory : List (String × Task R)
  pub files : List (String × Task R)

module _ {R : Type 0} where
  unfoldable pub find : String → List (String × Task R) → Option (Task R)
  find id [] = none
  find id ((j, t) ∷ ts) = if str_eq j id then some t else find id ts

  unfoldable pub assign : String → Task R → List (String × Task R) → List (String × Task R)
  assign id t [] = (id, t) ∷ []
  assign id t ((j, u) ∷ ts) =
      let rest = assign id t ts in if str_eq j id then (j, t) ∷ ts else (j, u) ∷ rest

  -- submit: `id` is what uuid4 makes, and `now` the clock's reading.
  unfoldable pub submit : String → ℕ → Manager R → Manager R
  submit id now m = record m {
    memory = assign id (record { status = running; created = now }) m.memory;
  }

  unfoldable pub ended : Result R → Status R
  ended (ok r) = done r
  ended (err e) = failed (map_core_exception e).code

  -- The end of _run, with what the coroutine came to, for the task that it runs.
  unfoldable pub finish : String → Task R → Result R → Manager R → Manager R
  finish id t outcome m =
      let t' : Task R = record t { status = ended outcome } in
      record { memory = assign id t' m.memory; files = assign id t' m.files }

  unfoldable pub read_file : Option (Task R) → Result (Task R)
  read_file none = err key_error
  read_file (some t) = ok t

  unfoldable pub status : String → Manager R → Result (Task R)
  status id m = elim (find id m.memory) [ some t ↦ ok t | none ↦ read_file (find id m.files) ]

  -- The files that cleanup_expired leaves.
  unfoldable pub unexpired : ℕ → ℕ → List (String × Task R) → List (String × Task R)
  unexpired ttl now [] = []
  unexpired ttl now ((j, t) ∷ ts) =
      let rest = unexpired ttl now ts in if ltb (t.created + ttl) now then rest else (j, t) ∷ rest

  unfoldable pub cleanup_expired : ℕ → ℕ → Manager R → Manager R
  cleanup_expired ttl now m = record m { files = unexpired ttl now m.files }

  -- The constructor, in a new process over the old files.
  unfoldable pub restart : Manager R → Manager R
  restart m = record m { memory = [] }
