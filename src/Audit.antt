-- ===== src/Audit.antt =====
-- web/audit.py: AuditLogger.log, a line of the audit log as the dictionary that is written as JSON.
-- The dictionary of the extras has each key once.
pub mod Lines
use funding_tool.Prelude.{
  Bool, true, false, ◌||◌, str_eq, if◌then◌else◌, String, Option, none, some, List, [], ◌∷◌,
}
use funding_tool.Prelude.Int.{ℤ}
use funding_tool.Errors.{Result, ok, err, value_error, ◌>>=◌, ◌>>◌}

pub data Scalar : Type 0 where
  text : String → Scalar
  number : ℤ → Scalar
  flag : Bool → Scalar
  null : Scalar

-- A value of the extras: a scalar, or an object of another type.
pub data Extra : Type 0 where
  scalar : Scalar → Extra
  compound : Extra

pub data Outcome : Type 0 where
  success failure : Outcome

-- The arguments of log.
pub record Entry : Type 0 where
  pub action : String
  pub ip : String
  pub user : Option String
  pub result : Outcome
  pub target : Option String
  pub error_code : Option String
  pub error_id : Option String
  pub extras : List (String × Extra)

-- _FORBIDDEN_KEYS
unfoldable pub is_forbidden : String → Bool
is_forbidden k =
    str_eq k "api_key"
    || str_eq k "api_secret"
    || str_eq k "master_key"
    || str_eq k "master_fingerprint"
    || str_eq k "password"

unfoldable pub check_keys : List (String × Extra) → Result (Unit {0})
check_keys [] = ok tt
check_keys ((k, v) ∷ es) =
    let rest = check_keys es in if is_forbidden k then err value_error else rest

unfoldable pub scalar_of : Extra → Result Scalar
scalar_of (scalar v) = ok v
scalar_of compound = err value_error

unfoldable pub scalars : List (String × Extra) → Result (List (String × Scalar))
scalars [] = ok []
scalars ((k, v) ∷ es) = scalar_of v >>= λ s. scalars es >>= λ ss. ok ((k, s) ∷ ss)

unfoldable pub optional : Option String → Scalar
optional none = null
optional (some s) = text s

unfoldable pub result_text : Outcome → String
result_text success = "ok"
result_text failure = "fail"

-- `ts` is the text of the time.
unfoldable pub base_record : String → Entry → List (String × Scalar)
base_record ts e =
    ("ts", text ts)
    ∷ ("ip", text e.ip)
    ∷ ("user", optional e.user)
    ∷ ("action", text e.action)
    ∷ ("target", optional e.target)
    ∷ ("result", text (result_text e.result))
    ∷ ("error_code", optional e.error_code)
    ∷ ("error_id", optional e.error_id)
    ∷ []

-- record[k] = v
unfoldable pub put : String → Scalar → List (String × Scalar) → List (String × Scalar)
put k v [] = (k, v) ∷ []
put k v ((j, w) ∷ r) = let rest = put k v r in if str_eq j k then (j, v) ∷ r else (j, w) ∷ rest

-- record.update(extras)
unfoldable pub update : List (String × Scalar) → List (String × Scalar) → List (String × Scalar)
update [] r = r
update ((k, v) ∷ es) r = update es (put k v r)

unfoldable pub log : String → Entry → Result (List (String × Scalar))
log ts e =
    check_keys e.extras >> (scalars e.extras >>= λ extras. ok (update extras (base_record ts e)))
