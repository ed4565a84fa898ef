-- ===== src/Binance/Coverage.antt =====
-- fetch_funding_income against a server that holds the income records: it returns, and nothing of the
-- range is missing.
use funding_tool.Prelude.{
  ℕ, zero, suc, ◌+◌, ◌-◌, ◌≤◌, ◌<◌, ◌≡◌, ◌⊎◌, inl, inr, refl, sym, ap, ◌∙◌, true, Bool-cases, ltb,
  leb, eq_iff, String, Option, List, [], ◌∷◌, ◌++◌, map, take, All, arith,
}
use mathlib.Core.List.{append_assoc, append-nil}
use funding_tool.Errors.{ok, ◌>>=◌}
use funding_tool.Time.{DateTime, to_ms}
use funding_tool.Cache.Stored.{to_ms_aware}
use funding_tool.Models.{IncomeRecord}
use funding_tool.Paging.{use_batch}
use funding_tool.Paging.Complete.{
  window, Ascends, Ascends-window, All-of_window, window_empty, window-window, page_step,
}
use funding_tool.Binance.{IncomeItem, Api}
use funding_tool.Binance.Funding.{
  income_record, income_pages, iter_income_pages, has_tran_id, add_new, window_end, income_windows,
  sort_records, fetch_funding_income, seven_days,
}
use funding_tool.Binance.Income.{
  HasUniqueIds, IsByTime, has_tran_id-add_new, has_tran_id-sort_records,
  fetch_funding_income-HasUniqueIds,
}

abbrev pub items_of : ℕ → ℕ → List IncomeItem → List IncomeItem
items_of = window (λ i. i.time)

-- The server holds these items in strictly ascending order, and answers a request with the first
-- 1000 items of its range.
pub record HoldsIncome (api : Api) (symbol : Option String) (all : List IncomeItem) : Type 0 where
  pub now : ℕ
  pub timed : api.server_time ≡ ok now
  pub ascend : Ascends (λ i. i.time) all
  pub answer : (lo hi : ℕ) → api.income symbol lo hi ≡ ok (take 1000 (items_of lo hi all))

-- The records have the ids of these items.
abbrev pub HasAll : List IncomeRecord → List IncomeItem → Type 0
HasAll rs = All (λ i. has_tran_id i.tran_id rs ≡ true)

HasAll-append_windows :
    (rs : List IncomeRecord) (lo mid hi : ℕ) (all : List IncomeItem)
    → HasAll rs (items_of lo mid all)
    → HasAll rs (items_of mid hi all)
    → HasAll rs (items_of lo hi all)
unfolding window
HasAll-append_windows rs lo mid hi [] h k = tt
HasAll-append_windows rs lo mid hi (i ∷ all) h k =
    ground (arith, HasAll-append_windows rs lo mid hi all)

HasAll-weaken :
    (rs ss : List IncomeRecord) (items : List IncomeItem)
    → ((id : String) → has_tran_id id rs ≡ true → has_tran_id id ss ≡ true)
    → HasAll rs items
    → HasAll ss items
HasAll-weaken rs ss [] f h = tt
HasAll-weaken rs ss (i ∷ items) f h = (f i.tran_id h.0, HasAll-weaken rs ss items f h.1)

HasAll-map : (items : List IncomeItem) → HasAll (map income_record items) items
unfolding has_tran_id income_record
HasAll-map [] = tt
HasAll-map (i ∷ items) = (
  ground (arith, eq_iff i.tran_id i.tran_id),
  HasAll-weaken (map income_record items) (map income_record (i ∷ items)) items
      (λ id h. ground arith) (HasAll-map items),
)

-- A page adds what it holds, and keeps what is there.
HasAll-page :
    (records : List IncomeRecord) (l0 lo mid : ℕ) (all : List IncomeItem)
    → HasAll records (items_of l0 lo all) ⊎ (l0 ≡ lo)
    → HasAll (add_new records (map income_record (items_of lo mid all))) (items_of l0 mid all)
HasAll-page records l0 lo mid all before =
    let items = items_of lo mid all in
    let page = map income_record items in
    let new : HasAll (add_new records page) items =
      HasAll-weaken page _ items (λ id h. ground (arith, has_tran_id-add_new id records page))
        (HasAll-map items) in
    elim before [
      | inl h ↦
          HasAll-append_windows (add_new records page) l0 lo mid all
            (HasAll-weaken records _ (items_of l0 lo all)
              (λ id h. ground (arith, has_tran_id-add_new id records page)) h)
            new
      | inr e ↦ rw e new
    ]

aware_of : (dt : DateTime) {ms : ℕ} → to_ms dt ≡ ok ms → dt.aware ≡ true
unfolding to_ms
aware_of dt h = ground arith

-- The milliseconds of an instant are unique.
same_ms : (s t : DateTime) {m n : ℕ} → s.us ≡ t.us → to_ms s ≡ ok m → to_ms t ≡ ok n → m ≡ n
same_ms s t e hs ht =
    let same : s ≡ t = λ i. record { us = e i; aware = (aware_of s hs ∙ sym (aware_of t ht)) i } in
    let both = sym hs ∙ ap to_ms same ∙ ht in cc

window_end-between :
    (start end : DateTime)
    → start.us < end.us
    → start.aware ≡ true
    → end.aware ≡ true
    → (start.us < (window_end start end).us)
      × ((window_end start end).us ≤ end.us)
      × ((window_end start end).aware ≡ true)
unfolding window_end
window_end-between start end lt a b = elim (Bool-cases (leb (start.us + seven_days) end.us)) [
  | inl full ↦ rw full (omega arith, ground arith, a)
  | inr cut ↦ rw cut (lt, omega arith, b)
]

module _ {api : Api} {symbol : Option String} {all : List IncomeItem}
    (holds : HoldsIncome api symbol all) (further : ℕ) where
  income_pages-window :
      (fuel : ℕ) (acc : List IncomeItem) (cursor end : ℕ)
      → suc (suc end - cursor) < fuel
      → income_pages (api.income symbol) fuel acc cursor end ≡ ok (acc ++ items_of cursor end all)
  unfolding income_pages use_batch
  income_pages-window zero acc cursor end h = elim h [ ]
  income_pages-window (suc fuel) acc cursor end h =
      rw (holds.answer, income_pages)
        (elim (Bool-cases (ltb end cursor)) [
          | inl behind ↦
              rw (window_empty (λ i. i.time) cursor end all (ground arith))
                (ap ok (sym (append-nil acc)))
          | inr more ↦
              page_step (λ i. i.time) 999 ◌++◌ (λ a. append-nil a) (λ a xs ys. append_assoc a xs ys)
                acc cursor end (items_of cursor end all) _
                (Ascends-window (λ i. i.time) cursor end all holds.ascend)
                (All-of_window (λ i. i.time) cursor end all)
                λ acc' next lt.
                  income_pages-window fuel acc' next end (ground arith)
                  ∙ ap (λ w. ok (acc' ++ w))
                      (sym (window-window (λ i. i.time) cursor next end all (omega arith)))
        ])

  iter_income_pages-window :
      (start end : DateTime) {lo hi : ℕ}
      → to_ms start ≡ ok lo
      → to_ms end ≡ ok hi
      → iter_income_pages further api symbol start end ≡ ok (map income_record (items_of lo hi all))
  unfolding iter_income_pages
  iter_income_pages-window start end {lo} {hi} from to =
      rw (from, to, income_pages-window (further + suc (suc (suc hi - lo))) [] lo hi (omega arith))
        refl

  income_windows-HasAll :
      (fuel : ℕ) (records : List IncomeRecord) (start end : DateTime) {l0 lo hi : ℕ}
      → suc end.us - start.us < fuel
      → start.us ≤ end.us
      → to_ms start ≡ ok lo
      → to_ms end ≡ ok hi
      → HasAll records (items_of l0 lo all) ⊎ ((start.us < end.us) × (l0 ≡ lo))
      → (rs : List IncomeRecord) × (income_windows further api symbol fuel records start end
          ≡ ok rs)
        × HasAll rs (items_of l0 hi all)
  unfolding income_windows
  income_windows-HasAll zero records start end h le from to before = elim h [ ]
  income_windows-HasAll (suc fuel) records start end {l0} {lo} {hi} h le from to before =
      elim (Bool-cases (ltb start.us end.us)) [
        | inr done ↦
            let has : HasAll records (items_of l0 lo all) = elim before [
              | inl b ↦ b
              | inr (lt, _) ↦ absurd (ground arith)
            ] in
            rw (done, income_windows)
              (records, refl, rw (sym (same_ms start end (ground arith) from to)) has)
        | inl more ↦
            let stop = window_end start end in
            let lt : start.us < end.us = ground arith in
            let (up, low, aware) =
              window_end-between start end lt (aware_of start from) (aware_of end to) in
            let (mid, at) = to_ms_aware stop aware in
            let page = map income_record (items_of lo mid all) in
            let here =
              HasAll-page records l0 lo mid all (elim before [ inl b ↦ inl b | inr b ↦ inr b.1 ]) in
            let rest =
              income_windows-HasAll fuel (add_new records page) stop end (omega arith) low at to
                (inl here) in
            rw (more, income_windows) (rw (iter_income_pages-window start stop from at) rest)
      ]

  -- The start is before the end, both are aware, and the server holds the items in strictly ascending
  -- order and answers with the first 1000 of a range. Then the loops end, and need no further rounds:
  -- fetch_funding_income returns records that have the tranId of every item of the range, none of them
  -- twice, in the order of time.
  pub fetch_funding_income-HasAll :
      (start end : DateTime) {lo hi : ℕ}
      → start.us < end.us
      → to_ms start ≡ ok lo
      → to_ms end ≡ ok hi
      → (rs : List IncomeRecord) × (fetch_funding_income further api symbol start end ≡ ok rs)
        × HasAll rs (items_of lo hi all)
        × HasUniqueIds rs
        × IsByTime rs
  unfolding fetch_funding_income
  fetch_funding_income-HasAll start end {lo} {hi} lt from to =
      let (rs, ran, has) =
        income_windows-HasAll (suc (suc end.us - start.us)) [] start end {l0 = lo} (omega arith)
          (omega arith) from to (inr (lt, refl)) in
      let result : fetch_funding_income further api symbol start end ≡ ok (sort_records rs) =
        ap
          (λ m. m >>= λ server.
            income_windows further api symbol (suc (suc end.us - start.us)) [] start end
            >>= λ records. ok (sort_records records))
          holds.timed
        ∙ ap (λ m. m >>= λ records. ok (sort_records records)) ran in
      let (unique, by_time) =
        fetch_funding_income-HasUniqueIds further api symbol start end result in
      (
        sort_records rs,
        result,
        HasAll-weaken rs (sort_records rs) (items_of lo hi all)
            (λ id h. has_tran_id-sort_records id rs ∙ h) has,
        unique,
        by_time,
      )
