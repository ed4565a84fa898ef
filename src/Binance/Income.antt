-- ===== src/Binance/Income.antt =====
-- fetch_funding_income: no record twice, and the records in the order of time.
use funding_tool.Prelude.{
  ℕ, zero, suc, ◌-◌, ◌≤◌, ◌≡◌, inl, inr, refl, ◌∙◌, false, ◌||◌, Bool-cases, ltb, leb, eq_iff,
  String, Option, List, [], ◌∷◌, ◌++◌, All, arith,
}
use funding_tool.Errors.{Result, ok, err, ◌>>=◌, Ensures, Ensures-bind, Ensures-ok}
use funding_tool.Time.{DateTime}
use funding_tool.Models.{IncomeRecord}
use funding_tool.Binance.{Api}
use funding_tool.Binance.Funding.{
  iter_income_pages, has_tran_id, add_new, window_end, income_windows, insert_record, sort_records,
  fetch_funding_income,
}

-- No two records have one tranId.
abbrev pub HasUniqueIds : List IncomeRecord → Type 0
HasUniqueIds [] = Unit
HasUniqueIds (r ∷ rs) = (has_tran_id r.tran_id rs ≡ false) × HasUniqueIds rs

abbrev pub IsByTime : List IncomeRecord → Type 0
IsByTime [] = Unit
IsByTime (r ∷ rs) = All (λ x. r.timestamp.us ≤ x.timestamp.us) rs × IsByTime rs

has_tran_id-append :
    (id : String) (rs ss : List IncomeRecord)
    → has_tran_id id (rs ++ ss) ≡ (has_tran_id id rs || has_tran_id id ss)
unfolding has_tran_id
has_tran_id-append id [] ss = refl
has_tran_id-append id (r ∷ rs) ss = ground (arith, has_tran_id-append id rs ss)

HasUniqueIds-append :
    (rs : List IncomeRecord) (r : IncomeRecord)
    → HasUniqueIds rs
    → has_tran_id r.tran_id rs ≡ false
    → HasUniqueIds (rs ++ r ∷ [])
unfolding has_tran_id
HasUniqueIds-append [] r u h = (refl, tt)
HasUniqueIds-append (x ∷ rs) r u h = (
  has_tran_id-append x.tran_id rs (r ∷ [])
      ∙ ground (arith, eq_iff x.tran_id r.tran_id, eq_iff r.tran_id x.tran_id),
  HasUniqueIds-append rs r u.1 (ground arith),
)

HasUniqueIds-add_new :
    (records page : List IncomeRecord) → HasUniqueIds records → HasUniqueIds (add_new records page)
unfolding add_new
HasUniqueIds-add_new records [] u = u
HasUniqueIds-add_new records (r ∷ page) u = elim (Bool-cases (has_tran_id r.tran_id records)) [
  | inl seen ↦ rw seen (HasUniqueIds-add_new records page u)
  | inr new ↦
      rw new (HasUniqueIds-add_new (records ++ r ∷ []) page (HasUniqueIds-append records r u new))
]

-- An id is there after a page exactly if it was there before or is in the page.
pub has_tran_id-add_new :
    (id : String) (records page : List IncomeRecord)
    → has_tran_id id (add_new records page) ≡ (has_tran_id id records || has_tran_id id page)
unfolding add_new
has_tran_id-add_new id records [] = unfold has_tran_id in ground arith
has_tran_id-add_new id records (r ∷ page) = elim (Bool-cases (has_tran_id r.tran_id records)) [
  | inl seen ↦ rw seen (
      has_tran_id-add_new id records page
      ∙ unfold has_tran_id in ground (arith, eq_iff r.tran_id id))
  | inr new ↦ rw new (
      has_tran_id-add_new id (records ++ r ∷ []) page
      ∙ unfold has_tran_id in ground (arith, has_tran_id-append id records (r ∷ [])))
]

has_tran_id-insert_record :
    (id : String) (r : IncomeRecord) (rs : List IncomeRecord)
    → has_tran_id id (insert_record r rs) ≡ has_tran_id id (r ∷ rs)
unfolding has_tran_id insert_record
has_tran_id-insert_record id r [] = refl
has_tran_id-insert_record id r (x ∷ rs) = ground (arith, has_tran_id-insert_record id r rs)

pub has_tran_id-sort_records :
    (id : String) (rs : List IncomeRecord) → has_tran_id id (sort_records rs) ≡ has_tran_id id rs
unfolding sort_records has_tran_id
has_tran_id-sort_records id [] = refl
has_tran_id-sort_records id (r ∷ rs) =
    has_tran_id-insert_record id r (sort_records rs)
    ∙ ground (arith, has_tran_id-sort_records id rs)

HasUniqueIds-insert_record :
    (r : IncomeRecord) (rs : List IncomeRecord)
    → has_tran_id r.tran_id rs ≡ false
    → HasUniqueIds rs
    → HasUniqueIds (insert_record r rs)
unfolding insert_record has_tran_id
HasUniqueIds-insert_record r [] h u = (refl, tt)
HasUniqueIds-insert_record r (x ∷ rs) h u = elim (Bool-cases (leb r.timestamp.us x.timestamp.us)) [
  | inl before ↦ rw before (h, u)
  | inr behind ↦ rw behind (
    has_tran_id-insert_record x.tran_id r rs
        ∙ ground (arith, eq_iff x.tran_id r.tran_id, eq_iff r.tran_id x.tran_id),
    HasUniqueIds-insert_record r rs (ground arith) u.1,
  )
]

pub HasUniqueIds-sort_records :
    (rs : List IncomeRecord) → HasUniqueIds rs → HasUniqueIds (sort_records rs)
unfolding sort_records
HasUniqueIds-sort_records [] u = tt
HasUniqueIds-sort_records (r ∷ rs) u =
    HasUniqueIds-insert_record r (sort_records rs) (has_tran_id-sort_records r.tran_id rs ∙ u.0)
      (HasUniqueIds-sort_records rs u.1)

All-insert_record :
    (t : ℕ) (r : IncomeRecord) (rs : List IncomeRecord)
    → t ≤ r.timestamp.us
    → All (λ x. t ≤ x.timestamp.us) rs
    → All (λ x. t ≤ x.timestamp.us) (insert_record r rs)
unfolding insert_record
All-insert_record t r [] h k = (h, tt)
All-insert_record t r (x ∷ rs) h k = elim (Bool-cases (leb r.timestamp.us x.timestamp.us)) [
  | inl before ↦ rw before (h, k)
  | inr behind ↦ rw behind (k.0, All-insert_record t r rs h k.1)
]

All-later :
    (t u : ℕ) (rs : List IncomeRecord)
    → t ≤ u
    → All (λ x. u ≤ x.timestamp.us) rs
    → All (λ x. t ≤ x.timestamp.us) rs
All-later t u [] h k = tt
All-later t u (x ∷ rs) h k = (omega arith, All-later t u rs h k.1)

IsByTime-insert_record :
    (r : IncomeRecord) (rs : List IncomeRecord) → IsByTime rs → IsByTime (insert_record r rs)
unfolding insert_record
IsByTime-insert_record r [] s = (tt, tt)
IsByTime-insert_record r (x ∷ rs) s = elim (Bool-cases (leb r.timestamp.us x.timestamp.us)) [
  | inl before ↦
      let le : r.timestamp.us ≤ x.timestamp.us = ground arith in
      rw before ((le, All-later _ x.timestamp.us rs le s.0), s)
  | inr behind ↦
      rw behind
        (All-insert_record x.timestamp.us r rs (ground arith) s.0, IsByTime-insert_record r rs s.1)
]

pub IsByTime-sort_records : (rs : List IncomeRecord) → IsByTime (sort_records rs)
unfolding sort_records
IsByTime-sort_records [] = tt
IsByTime-sort_records (r ∷ rs) =
    IsByTime-insert_record r (sort_records rs) (IsByTime-sort_records rs)

pub Ensures-income_windows :
    (further : ℕ) (api : Api) (symbol : Option String) (fuel : ℕ) (records : List IncomeRecord)
    (start end : DateTime)
    → HasUniqueIds records
    → Ensures HasUniqueIds (income_windows further api symbol fuel records start end)
unfolding income_windows
Ensures-income_windows further api symbol zero records start end u = tt
Ensures-income_windows further api symbol (suc fuel) records start end u =
    elim (Bool-cases (ltb start.us end.us)) [
      | inl more ↦
          rw (more, income_windows)
            (Ensures-bind HasUniqueIds
              (iter_income_pages further api symbol start (window_end start end)) _
              λ page.
                Ensures-income_windows further api symbol fuel (add_new records page)
                  (window_end start end) end (HasUniqueIds-add_new records page u))
      | inr done ↦ rw (done, income_windows) u
    ]

-- Whatever the server answers, and however many further pages it may be asked for, the returned records are in the order of time, and no two of them
-- have the same tranId.
pub fetch_funding_income-HasUniqueIds :
    (further : ℕ) (api : Api) (symbol : Option String) (start end : DateTime)
    {rs : List IncomeRecord}
    → fetch_funding_income further api symbol start end ≡ ok rs
    → HasUniqueIds rs × IsByTime rs
unfolding fetch_funding_income
fetch_funding_income-HasUniqueIds further api symbol start end {rs} e =
    let fuel = suc (suc end.us - start.us) in
    Ensures-ok (λ x. HasUniqueIds x × IsByTime x) _
      (Ensures-bind (λ x. HasUniqueIds x × IsByTime x) api.server_time _
        λ server.
          (sorted (income_windows further api symbol fuel [] start end)
            (Ensures-income_windows further api symbol fuel [] start end tt)))
      e
  where
    sorted :
        (m : Result (List IncomeRecord))
        → Ensures HasUniqueIds m
        → Ensures (λ x. HasUniqueIds x × IsByTime x) (m >>= λ records. ok (sort_records records))
    sorted (ok x) u = (HasUniqueIds-sort_records x u, IsByTime-sort_records x)
    sorted (err x) u = tt
