-- ===== src/Backend/History/Range.antt =====
-- The loop of a history ends with the logs of its dates (backend/app/services/attendance_service.py).
use mathlib.Core.List.{Permᴰ}
use mathlib.Core.List.Permᴰ as Perm
use pwa_attendance_record_sy.Prelude.{
  ℕ, zero, suc, ◌+◌, ◌-◌, ◌≤◌, ◌<◌, ◌≡◌, refl, ap, ◌∙◌, Bool, true, false, ◌&&◌, List, [], ◌∷◌,
  ◌++◌, filter, All, arith, ltb, leb, Bool-cases, inl, inr,
}
use pwa_attendance_record_sy.Text.{Text, text_eq}
use pwa_attendance_record_sy.Backend.History.{
  AttendanceLog, max_date, sort_logs, is_of, find_by_employee_and_date, done, overflow_error,
  history_from, get_history,
}
use pwa_attendance_record_sy.Backend.History.Order.{
  is_before, IsOrdered, All-impl, All-append, IsOrdered-append, All-filter-is_of, All-sort_logs,
  sort_logs-Perm, sort_logs-IsOrdered,
}

-- A log of the employee in a range of dates
abbrev pub is_between : Text → ℕ → ℕ → AttendanceLog → Bool
is_between emp_id start_date end_date l =
    text_eq l.emp_id emp_id && leb start_date l.date && leb l.date end_date

filter_keep :
    (p : AttendanceLog → Bool) (l : AttendanceLog) (ls : List AttendanceLog)
    → p l ≡ true
    → filter p (l ∷ ls) ≡ l ∷ filter p ls
filter_keep p l ls e = ap (λ b. elim b [ true ↦ l ∷ filter p ls | false ↦ filter p ls ]) e

filter_skip :
    (p : AttendanceLog → Bool) (l : AttendanceLog) (ls : List AttendanceLog)
    → p l ≡ false
    → filter p (l ∷ ls) ≡ filter p ls
filter_skip p l ls e = ap (λ b. elim b [ true ↦ l ∷ filter p ls | false ↦ filter p ls ]) e

filter_outside :
    (emp_id : Text) (start_date end_date : ℕ) (ls : List AttendanceLog)
    → end_date < start_date
    → filter (is_between emp_id start_date end_date) ls ≡ []
filter_outside emp_id start_date end_date [] h = refl
filter_outside emp_id start_date end_date (l ∷ ls) h =
    filter_skip (is_between emp_id start_date end_date) l ls (ground arith)
    ∙ filter_outside emp_id start_date end_date ls h

-- The logs of the first date, and those of the dates after it
split-Perm :
    (emp_id : Text) (start_date end_date : ℕ) (ls : List AttendanceLog)
    → start_date ≤ end_date
    → Permᴰ
        (filter (is_of emp_id start_date) ls
          ++ filter (is_between emp_id (suc start_date) end_date) ls)
        (filter (is_between emp_id start_date end_date) ls)
split-Perm emp_id start_date end_date [] h = Perm.nil
split-Perm emp_id start_date end_date (l ∷ ls) h =
    let rest = split-Perm emp_id start_date end_date ls h in
    let first = is_of emp_id start_date in
    let later = is_between emp_id (suc start_date) end_date in
    let every = is_between emp_id start_date end_date in
    elim (Bool-cases (every l)) [
      | inr e ↦
          rw
            (
              filter_skip every l ls e,
              filter_skip first l ls (ground arith),
              filter_skip later l ls (ground arith),
            )
            rest
      | inl e ↦ elim (Bool-cases (first l)) [
        | inl d ↦
            rw
              (
                filter_keep every l ls e,
                filter_keep first l ls d,
                filter_skip later l ls (ground arith),
              )
              (Perm.cons refl rest)
        | inr d ↦
            rw
              (
                filter_keep every l ls e,
                filter_skip first l ls d,
                filter_keep later l ls (ground arith),
              )
              (Perm.trans (Perm.middle l (filter first ls) (filter later ls)) (Perm.cons refl rest))
      ]
    ]

-- What a range yields: the logs, in order and from its first date on
abbrev Yields : List AttendanceLog → Text → ℕ → ℕ → List AttendanceLog → Type 0
Yields table emp_id start_date end_date logs =
    Permᴰ logs (filter (is_between emp_id start_date end_date) table)
    × IsOrdered logs
    × All (λ l. start_date ≤ l.date) logs

before_later :
    (date : ℕ) (xs ys : List AttendanceLog)
    → All (λ l. l.date ≡ date) xs
    → All (λ l. suc date ≤ l.date) ys
    → All (λ x. All (λ y. is_before x y ≡ true) ys) xs
before_later date [] ys h k = tt
before_later date (x ∷ xs) ys (h, hs) k =
    (All-impl _ _ (λ y later. ground arith) ys k, before_later date xs ys hs k)

-- The logs of one date before those of the next ones
extend-Yields :
    (table : List AttendanceLog) (emp_id : Text) (date end_date : ℕ) (logs : List AttendanceLog)
    → date ≤ end_date
    → Yields table emp_id (suc date) end_date logs
    → Yields table emp_id date end_date (sort_logs (filter (is_of emp_id date) table) ++ logs)
extend-Yields table emp_id date end_date logs h (perm, ordered, later) =
    let own = filter (is_of emp_id date) table in
    let dates : All (λ l. l.date ≡ date) (sort_logs own) =
      All-sort_logs _ own (All-filter-is_of emp_id date table) in
    (
      Perm.trans (Perm.append_right logs (sort_logs-Perm own))
          (Perm.trans (Perm.append_left own perm) (split-Perm emp_id date end_date table h)),
      IsOrdered-append (sort_logs own) logs
          (sort_logs-IsOrdered date own (All-filter-is_of emp_id date table)) ordered
          (before_later date (sort_logs own) logs dates later),
      All-append _ (sort_logs own) logs
          (All-impl _ _ (λ l e. omega (arith, e)) (sort_logs own) dates)
          (All-impl _ _ (λ l e. omega (arith, e)) logs later),
    )

history_from-Yields :
    (fuel : ℕ) (table : List AttendanceLog) (emp_id : Text) (start_date end_date : ℕ)
    → suc end_date - start_date < fuel
    → end_date < max_date
    → (logs : List AttendanceLog) × (history_from fuel table emp_id start_date end_date ≡ done logs)
      × Yields table emp_id start_date end_date logs
unfolding history_from find_by_employee_and_date
history_from-Yields zero table emp_id start_date end_date f m = absurd (omega arith)
history_from-Yields (suc fuel) table emp_id start_date end_date f m =
    elim (Bool-cases (leb start_date end_date)) [
      | inr e ↦ (
        [],
        rw e refl,
        (rw (filter_outside emp_id start_date end_date table (ground arith)) Perm.nil, tt, tt),
      )
      | inl e ↦
          let below : start_date ≤ end_date = ground arith in
          let (logs, result, yields) =
            history_from-Yields fuel table emp_id (suc start_date) end_date (omega arith) m in
          let found : ltb start_date max_date ≡ true = ground arith in
          (
            sort_logs (filter (is_of emp_id start_date) table) ++ logs,
            rw (e, found, result) refl,
            extend-Yields table emp_id start_date end_date logs below yields,
          )
    ]

-- For a range of dates that ends before the last date there is, the loop of the history ends, with the
-- employee's logs of these dates, each of them once, in the order of time.
pub get_history-IsOrdered :
    (table : List AttendanceLog) (emp_id : Text) (start_date end_date : ℕ)
    → end_date < max_date
    → (logs : List AttendanceLog) × (get_history table emp_id start_date end_date ≡ done logs)
      × Permᴰ logs (filter (is_between emp_id start_date end_date) table)
      × IsOrdered logs
unfolding get_history
get_history-IsOrdered table emp_id start_date end_date m =
    let (logs, result, (perm, ordered, later)) =
      history_from-Yields (suc (suc end_date - start_date)) table emp_id start_date end_date
        (omega arith) m in
    (logs, result, perm, ordered)

history_from-overflow_error :
    (n fuel : ℕ) (table : List AttendanceLog) (emp_id : Text) (start_date : ℕ)
    → start_date + n ≡ max_date
    → n < fuel
    → history_from fuel table emp_id start_date max_date ≡ overflow_error
unfolding history_from find_by_employee_and_date
history_from-overflow_error n zero table emp_id start_date e f = absurd (omega arith)
history_from-overflow_error zero (suc fuel) table emp_id start_date e f =
    let inside : leb start_date max_date ≡ true = ground arith in
    let last : ltb start_date max_date ≡ false = ground arith in rw (inside, last) refl
history_from-overflow_error (suc n) (suc fuel) table emp_id start_date e f =
    let inside : leb start_date max_date ≡ true = ground arith in
    let found : ltb start_date max_date ≡ true = ground arith in
    rw
      (
        inside,
        found,
        history_from-overflow_error n fuel table emp_id (suc start_date) (omega arith)
            (omega arith),
      )
      refl

-- A range up to the last date there is raises an OverflowError.
pub get_history-overflow_error :
    (table : List AttendanceLog) (emp_id : Text) (start_date : ℕ)
    → start_date ≤ max_date
    → get_history table emp_id start_date max_date ≡ overflow_error
unfolding get_history
get_history-overflow_error table emp_id start_date h =
    history_from-overflow_error (max_date - start_date) (suc (suc max_date - start_date)) table
      emp_id start_date (omega arith) (omega arith)
