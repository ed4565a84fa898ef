-- ===== src/Web/Startup/Canary.antt =====
-- What the canary lets through: the first start, each later one under the same key, and no start
-- under another.
use funding_tool.Prelude.{ℕ, ◌≡◌, refl, true, Option, none, some, String, ◌==◌, arith}
use funding_tool.Errors.{Error, ok, err, Ensures-bind, Ensures-then, Ensures-ok}
use funding_tool.Csrf.{Url}
use funding_tool.Vault.{
  canary_text, Cipher, Keys, Tables, key_of, seal, open_with, unseal, canary_or, init_schema,
  check_canary, verify_canary,
}
use funding_tool.Vault.Access.{IsCipher, unseal-seal}
use funding_tool.Web.Startup.{
  App, load_settings, load_master_key, set_variable, active_key, prev_key, configured, guards,
  opened, startup,
}

module _ {Key : Type 0} (size : Key → ℕ) where
  configured-active :
      (env : String → Option String) (read : String → String → Option Key) (app : App size)
      → configured size env read ≡ ok app
      → app.keys.active ≡ 1
  unfolding configured load_master_key
  configured-active env read app e =
      let IsFirst = λ (keys : Keys Key). keys.active ≡ 1 in
      Ensures-ok (λ (a : App size). IsFirst a.keys) (configured size env read)
        (Ensures-bind _ (load_settings env) _ λ settings.
          Ensures-then IsFirst _ (load_master_key size env read) _
            (Ensures-bind _ (set_variable (env "CREDENTIALS_DIRECTORY")) _ λ dir.
              Ensures-bind _ (active_key size (read dir "master_key")) _ λ active.
                Ensures-bind _ (prev_key size (read dir "master_key_prev")) _ λ prev. refl)
            (λ keys h. h))
        e

module _ {Key Nonce Code : Type 0} (size : Key → ℕ) (cipher : Cipher Key Nonce Code)
    (is : IsCipher cipher) (parse : String → Option Url) where
  -- With a cipher that decrypts what it encrypts, and settings from which the verifier and the guard
  -- can be made: the first start on a database without a canary succeeds and only adds one, and each
  -- later start with the same settings and keys succeeds and changes nothing.
  pub startup-fresh :
      (env : String → Option String) (read : String → String → Option Key) (app : App size)
      (t : Tables Nonce Code)
      → configured size env read ≡ ok app
      → guards parse app.settings ≡ ok tt
      → t.canary ≡ none
      → (nonce nonce' : Nonce)
      → let t' = record t { canary = some (seal cipher app.keys nonce canary_text) } in
        (startup size cipher parse env read nonce t ≡ (ok app, t'))
        × (startup size cipher parse env read nonce' t' ≡ (ok app, t'))
  unfolding startup opened init_schema canary_or verify_canary check_canary
  startup-fresh env read app t e made new nonce nonce' =
      let opens = unseal-seal cipher is app.keys nonce canary_text in
      (rw (e, startup) (rw (new, opens, made) refl), rw (e, startup) (rw (opens, made) refl))

  -- A start on a database without a canary adds one, also if it fails later.
  startup-canary :
      (env : String → Option String) (read : String → String → Option Key) (app : App size)
      (t : Tables Nonce Code) (nonce : Nonce)
      → configured size env read ≡ ok app
      → t.canary ≡ none
      → (startup size cipher parse env read nonce t).1
        ≡ record t { canary = some (seal cipher app.keys nonce canary_text) }
  unfolding startup opened init_schema canary_or
  startup-canary env read app t nonce e new = rw (e, startup) (rw new refl)

  opened-other_key :
      (app app' : App size) (t : Tables Nonce Code) (error : Error) (nonce nonce' : Nonce)
      → (app.keys.active == app'.keys.active) ≡ true
      → cipher.decrypt app'.keys.master nonce (cipher.encrypt app.keys.master nonce canary_text)
        ≡ err error
      → let t' = record t { canary = some (seal cipher app.keys nonce canary_text) } in
        opened size cipher parse nonce' app' t' ≡ (err error, t')
  unfolding opened init_schema canary_or verify_canary check_canary seal unseal open_with key_of
  opened-other_key app app' t error nonce nonce' same wrong = rw (same, wrong) refl

  -- After a first start, a start with an active key under which the canary cannot be decrypted fails
  -- with the error of the decryption and changes nothing, also if the key of the first start is
  -- given as the previous one.
  pub startup-other_key :
      (env env' : String → Option String) (read read' : String → String → Option Key)
      (app app' : App size) (t : Tables Nonce Code) (error : Error)
      → configured size env read ≡ ok app
      → configured size env' read' ≡ ok app'
      → t.canary ≡ none
      → (nonce nonce' : Nonce)
      → cipher.decrypt app'.keys.master nonce (cipher.encrypt app.keys.master nonce canary_text)
        ≡ err error
      → let t' = (startup size cipher parse env read nonce t).1 in
        startup size cipher parse env' read' nonce' t' ≡ (err error, t')
  startup-other_key env env' read read' app app' t error e e' new nonce nonce' wrong =
      let same : (app.keys.active == app'.keys.active) ≡ true =
        ground (
          arith,
          configured-active size env read app e,
          configured-active size env' read' app' e',
        ) in
      rw (startup-canary env read app t nonce e new) (
        unfold startup in
        rw (e', startup) (opened-other_key app app' t error nonce nonce' same wrong))
