-- ===== src/Tasks/Answers.antt =====
-- What a poll answers, as tasks are submitted and end, files are swept, and workers restart.
use funding_tool.Prelude.{
  ℕ, ◌≡◌, ◌≢◌, ◌⊎◌, inl, inr, refl, sym, ap, ◌∙◌, true, Bool-cases, Option-cases, str_eq, eq_iff,
  String, none, some, [], arith,
}
use funding_tool.Errors.{Result, ok, err, key_error}
use funding_tool.Tasks.{
  Status, running, Task, Manager, find, submit, ended, finish, read_file, status, cleanup_expired,
  restart,
}
use funding_tool.Tasks.Tables.{
  find-assign, IsTable, IsTable-assign, find-unexpired, IsTable-unexpired,
}

module _ {R : Type 0} where
  -- The events of a manager: a task is submitted under an id that is new, a task that runs ends,
  -- files are swept, and the worker restarts.
  pub data Step (ttl : ℕ) : Manager R → Manager R → Type 0 where
    submitted :
        (m : Manager R) (id : String) (now : ℕ)
        → find id m.memory ≡ none
        → find id m.files ≡ none
        → Step ttl m (submit id now m)
    finished :
        (m : Manager R) (id : String) (t : Task R) (outcome : Result R)
        → find id m.memory ≡ some t
        → t.status ≡ running
        → Step ttl m (finish id t outcome m)
    swept : (m : Manager R) (now : ℕ) → Step ttl m (cleanup_expired ttl now m)
    restarted : (m : Manager R) → Step ttl m (restart m)

  pub data IsReachable (ttl : ℕ) : Manager R → Type 0 where
    initial : IsReachable ttl (record { memory = []; files = [] })
    after : (m m' : Manager R) → IsReachable ttl m → Step ttl m m' → IsReachable ttl m'

  -- The files are a table, and where memory has a task with a file, it is the same.
  record Agrees (m : Manager R) : Type 0 where
    table : IsTable m.files
    same :
        (id : String) (t : Task R)
        → find id m.files ≡ some t
        → (find id m.memory ≡ none) ⊎ (find id m.memory ≡ some t)

  Agrees-Step : (ttl : ℕ) (m m' : Manager R) → Agrees m → Step ttl m m' → Agrees m'
  unfolding submit finish cleanup_expired restart
  Agrees-Step ttl _ _ a (submitted m id now new free) = record {
    table = a.table;
    same = λ j t h. ground (
      arith,
      find-assign id j (record { status = running; created = now }) m.memory,
      a.same j t h,
      eq_iff id j,
    );
  }
  Agrees-Step ttl _ _ a (finished m id t outcome there runs) =
      let t' : Task R = record t { status = ended outcome } in
      record {
        table = IsTable-assign id t' m.files a.table;
        same = λ j u h.
            ground (arith, find-assign id j t' m.memory, find-assign id j t' m.files, a.same j u);
      }
  Agrees-Step ttl _ _ a (swept m now) = record {
    table = IsTable-unexpired ttl now m.files a.table;
    same = λ j t h. elim (find-unexpired ttl now j m.files a.table) [
      | inl gone ↦ absurd (ground (arith, gone, h))
      | inr stays ↦ a.same j t (sym stays ∙ h)
    ];
  }
  Agrees-Step ttl _ _ a (restarted m) = record {
    table = a.table;
    same = λ j t h. inl (unfold find in refl);
  }

  Agrees-IsReachable : (ttl : ℕ) (m : Manager R) → IsReachable ttl m → Agrees m
  Agrees-IsReachable ttl _ initial = record {
    table = tt;
    same = λ j t h. inl (unfold find in refl);
  }
  Agrees-IsReachable ttl _ (after m m' r s) = Agrees-Step ttl m m' (Agrees-IsReachable ttl m r) s

  -- An answer that is no longer "running".
  abbrev pub IsTerminal : Status R → Type 0
  IsTerminal s = s ≢ running

  pub status_memory :
      (id : String) (m : Manager R) (t : Task R) → find id m.memory ≡ some t → status id m ≡ ok t
  unfolding status
  status_memory id m t h = rw (h, status) refl

  status_file :
      (id : String) (m : Manager R)
      → find id m.memory ≡ none
      → status id m ≡ read_file (find id m.files)
  unfolding status
  status_file id m h = rw (h, status) refl

  read_file-cases :
      (id : String) (m : Manager R) (t : Task R)
      → find id m.memory ≡ none
      → (find id m.files ≡ none) ⊎ (find id m.files ≡ some t)
      → (status id m ≡ ok t) ⊎ (status id m ≡ err key_error)
  unfolding read_file
  read_file-cases id m t h (inl gone) = inr (status_file id m h ∙ rw gone refl)
  read_file-cases id m t h (inr there) = inl (status_file id m h ∙ rw there refl)

  -- Where an answer comes from.
  answered :
      (id : String) (m : Manager R) (t : Task R)
      → status id m ≡ ok t
      → (find id m.memory ≡ some t) ⊎ ((find id m.memory ≡ none) × (find id m.files ≡ some t))
  unfolding read_file
  answered id m t h = elim (Option-cases (find id m.memory)) [
    | inr (u, there) ↦
        let e = sym (status_memory id m u there) ∙ h in inl (ground (arith, there, e))
    | inl gone ↦
        let e = sym (status_file id m gone) ∙ h in
        elim (Option-cases (find id m.files)) [
          | inl none' ↦ absurd (ground (arith, none', e))
          | inr (u, file) ↦ inr (gone, ground (arith, file, e))
        ]
  ]

  find-same :
      (j id : String) (m : Manager R) (u t : Task R)
      → str_eq j id ≡ true
      → find j m.memory ≡ some u
      → find id m.memory ≡ some t
      → u ≡ t
  find-same j id m u t same there held = ground (arith, same, there, held, eq_iff j id)

  -- Once a poll has answered that a task is done or has failed, it gives the same answer after any
  -- one event that follows, or says that there is no such task: a result is never replaced, and the
  -- task never runs again.
  pub status-Step :
      (ttl : ℕ) (m m' : Manager R) (id : String) (t : Task R)
      → IsReachable ttl m
      → Step ttl m m'
      → status id m ≡ ok t
      → IsTerminal t.status
      → (status id m' ≡ ok t) ⊎ (status id m' ≡ err key_error)
  unfolding submit finish cleanup_expired restart
  status-Step ttl _ _ id t r (submitted m j now new free) answer over =
      let found = find-assign j id (record { status = running; created = now }) m.memory in
      elim (answered id m t answer) [
        | inl held ↦
            inl
              (status_memory id (submit j now m) t (ground (arith, found, held, new, eq_iff j id)))
        | inr (gone, file) ↦
            read_file-cases id (submit j now m) t
              (ground (arith, found, gone, free, file, eq_iff j id)) (inr file)
      ]
  status-Step ttl _ _ id t r (finished m j u outcome there runs) answer over =
      let u' : Task R = record u { status = ended outcome } in
      let found = find-assign j id u' m.memory in
      let filed = find-assign j id u' m.files in
      elim (answered id m t answer) [
        | inl held ↦ inl (
            status_memory id (finish j u outcome m) t (elim (Bool-cases (str_eq j id)) [
              | inl same ↦
                  absurd
                    (over (ap (λ x. x.status) (sym (find-same j id m u t same there held)) ∙ runs))
              | inr other ↦ found ∙ rw other held
            ]))
        | inr (gone, file) ↦
            read_file-cases id (finish j u outcome m) t
              (ground (arith, found, gone, there, eq_iff j id))
              (inr (ground (arith, filed, gone, there, file, eq_iff j id)))
      ]
  status-Step ttl _ _ id t r (swept m now) answer over = elim (answered id m t answer) [
    | inl held ↦ inl (status_memory id (cleanup_expired ttl now m) t held)
    | inr (gone, file) ↦
        read_file-cases id (cleanup_expired ttl now m) t gone
          (elim (find-unexpired ttl now id m.files (Agrees-IsReachable ttl m r).table) [
            | inl swept' ↦ inl swept'
            | inr stays ↦ inr (stays ∙ file)
          ])
  ]
  status-Step ttl _ _ id t r (restarted m) answer over =
      let agrees = Agrees-IsReachable ttl m r in
      read_file-cases id (restart m) t (unfold find in refl)
        (elim (Option-cases (find id m.files)) [
          | inl gone ↦ inl gone
          | inr (u, file) ↦
              let same = agrees.same id u file in
              inr (elim (answered id m t answer) [
                | inl held ↦ ground (arith, same, held, file)
                | inr (_, here) ↦ here
              ])
        ])
