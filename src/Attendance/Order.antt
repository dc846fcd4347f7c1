-- ===== src/Attendance/Order.antt =====
-- The order in which the answers of frontend/src/app/attendance/page.tsx arrive.
use pwa_attendance_record_sy.Prelude.{
  append_nil, remove_at, ℕ, ◌≡◌, ◌⊎◌, inl, inr, refl, sym, ap, subst, Bool, true, false, List, [],
  ◌∷◌, ◌++◌, Option, none, some, or_else, All, get_elem?, if◌then◌else◌,
}
use pwa_attendance_record_sy.Text.{Text, codes, text_eq}
use pwa_attendance_record_sy.Messages.{Thrown, message_or}
use pwa_attendance_record_sy.Attendance.{
  AttendancePage, Range, Loaded, range_of, fetch_logs, fetch_done, fetch_refused, fill_map,
  set_start_date, set_end_date,
}

-- The page with the loads under way, in the order in which they were sent
pub record System : Type 0 where
  pub page : AttendancePage
  pub pending : List Range

pub data Move : Type 0 where
  start_input end_input : Text → Move
  -- the load at a position is answered, or its request for the logs fails
  answered : ℕ → Move
  refused : ℕ → Thrown → Move

abbrev pub sent : Option Range → List Range
sent none = []
sent (some r) = r ∷ []

after : System → AttendancePage × Option Range → System
after s r = record { page = r.0; pending = s.pending ++ sent r.1 }

-- One move, where the service answers each range with `answer`, unless a request fails
unfoldable pub move : (Range → Loaded) → System → Move → System
unfolding after
move answer s (start_input t) = after s (set_start_date t s.page)
move answer s (end_input t) = after s (set_end_date t s.page)
move answer s (answered i) = elim (get_elem? s.pending i) [
  | none ↦ s
  | some r ↦ record { page = fetch_done (answer r) s.page; pending = remove_at i s.pending }
]
move answer s (refused i err) = elim (get_elem? s.pending i) [
  | none ↦ s
  | some r ↦ record { page = fetch_refused err s.page; pending = remove_at i s.pending }
]

unfoldable pub run : (Range → Loaded) → System → List Move → System
run answer s [] = s
run answer s (m ∷ ms) = run answer (move answer s m) ms

-- The answers arrive in the order of their requests.
abbrev pub IsInOrder : Move → Type 0
IsInOrder (answered i) = i ≡ 0
IsInOrder (refused i err) = i ≡ 0
IsInOrder _ = Unit

-- The page shows the answer for the range of its inputs, or the error of a failed load.
abbrev pub IsShowing : (Range → Loaded) → AttendancePage → Type 0
IsShowing answer p =
    (p.is_loading ≡ false)
    × (((p.logs ≡ (answer (range_of p)).logs)
          × (p.summary_map ≡ fill_map [] (or_else (answer (range_of p)).summaries [])))
        ⊎ ((err : Thrown) × (p.error ≡ some (message_or err (codes "attendance.failedToLoad")))))

-- The load sent last is the one for the range of the inputs; without a load under way its answer is
-- shown.
IsLatest : (Range → Loaded) → AttendancePage → List Range → Type 0
IsLatest answer p [] = IsShowing answer p
IsLatest answer p (r ∷ []) = r ≡ range_of p
IsLatest answer p (r ∷ q ∷ rs) = IsLatest answer p (q ∷ rs)

IsLatest-append_last :
    (answer : Range → Loaded) (p : AttendancePage) (rs : List Range)
    → IsLatest answer p (rs ++ range_of p ∷ [])
unfolding IsLatest
IsLatest-append_last answer p [] = refl
IsLatest-append_last answer p (r ∷ []) = refl
IsLatest-append_last answer p (r ∷ q ∷ rs) = IsLatest-append_last answer p (q ∷ rs)

IsLatest-fetch_done :
    (answer : Range → Loaded) (a : Loaded) (p : AttendancePage) (r : Range) (rs : List Range)
    → IsLatest answer p (r ∷ rs)
    → IsLatest answer (fetch_done a p) (r ∷ rs)
unfolding IsLatest range_of fetch_done
IsLatest-fetch_done answer a p r [] h = h
IsLatest-fetch_done answer a p r (q ∷ rs) h = IsLatest-fetch_done answer a p q rs h

IsLatest-fetch_refused :
    (answer : Range → Loaded) (err : Thrown) (p : AttendancePage) (r : Range) (rs : List Range)
    → IsLatest answer p (r ∷ rs)
    → IsLatest answer (fetch_refused err p) (r ∷ rs)
unfolding IsLatest range_of fetch_refused
IsLatest-fetch_refused answer err p r [] h = h
IsLatest-fetch_refused answer err p r (q ∷ rs) h = IsLatest-fetch_refused answer err p q rs h

-- The system after an input
after-IsLatest :
    (answer : Range → Loaded) (s : System) (t : Text) (same : Bool) (q : AttendancePage)
    → IsLatest answer s.page s.pending
    → let r : AttendancePage × Option Range = if same then (s.page, none) else fetch_logs q in
      IsLatest answer (after s r).page (after s r).pending
unfolding after fetch_logs
after-IsLatest answer s t true q h = subst (IsLatest answer s.page) (sym (append_nil s.pending)) h
after-IsLatest answer s t false q h =
    IsLatest-append_last answer (record q { is_loading = true; error = none }) s.pending

answered-IsLatest :
    (answer : Range → Loaded) (p : AttendancePage) (rs : List Range)
    → IsLatest answer p rs
    → let s = move answer (record { page = p; pending = rs }) (answered 0) in
      IsLatest answer s.page s.pending
unfolding move range_of
answered-IsLatest answer p [] h = h
answered-IsLatest answer p (r ∷ []) h =
    unfold IsLatest fetch_done in
    (
      refl,
      inl (ap (λ q. (answer q).logs) h, ap (λ q. fill_map [] (or_else (answer q).summaries [])) h),
    )
answered-IsLatest answer p (r ∷ q ∷ rs) h =
    IsLatest-fetch_done answer (answer r) p q rs (unfold IsLatest in h)

refused-IsLatest :
    (answer : Range → Loaded) (err : Thrown) (p : AttendancePage) (rs : List Range)
    → IsLatest answer p rs
    → let s = move answer (record { page = p; pending = rs }) (refused 0 err) in
      IsLatest answer s.page s.pending
unfolding move
refused-IsLatest answer err p [] h = h
refused-IsLatest answer err p (r ∷ []) h = unfold IsLatest fetch_refused in (refl, inr (err, refl))
refused-IsLatest answer err p (r ∷ q ∷ rs) h =
    IsLatest-fetch_refused answer err p q rs (unfold IsLatest in h)

move-IsLatest :
    (answer : Range → Loaded) (s : System) (m : Move)
    → IsInOrder m
    → IsLatest answer s.page s.pending
    → IsLatest answer (move answer s m).page (move answer s m).pending
move-IsLatest answer s (start_input t) o h =
    unfold move set_start_date in
    after-IsLatest answer s t (text_eq t s.page.start_date) (record s.page { start_date = t }) h
move-IsLatest answer s (end_input t) o h =
    unfold move set_end_date in
    after-IsLatest answer s t (text_eq t s.page.end_date) (record s.page { end_date = t }) h
move-IsLatest answer s (answered i) o h =
    subst
      (λ k. IsLatest answer (move answer s (answered k)).page (move answer s (answered k)).pending)
      (sym o) (answered-IsLatest answer s.page s.pending h)
move-IsLatest answer s (refused i err) o h =
    subst (λ k. let t = move answer s (refused k err) in IsLatest answer t.page t.pending) (sym o)
      (refused-IsLatest answer err s.page s.pending h)

run-IsLatest :
    (answer : Range → Loaded) (s : System) (ms : List Move)
    → All IsInOrder ms
    → IsLatest answer s.page s.pending
    → IsLatest answer (run answer s ms).page (run answer s ms).pending
unfolding run
run-IsLatest answer s [] o h = h
run-IsLatest answer s (m ∷ ms) (o, os) h =
    run-IsLatest answer (move answer s m) ms os (move-IsLatest answer s m o h)

-- As long as loads end in the order in which they were sent, a page that has no load under way any
-- more does not say that it is loading, and shows the logs and statuses for the dates of its inputs,
-- or else the error of a load that failed: whatever was typed since it was opened with its first
-- load, and whichever loads failed.
pub run-IsShowing :
    (answer : Range → Loaded) (p : AttendancePage) (ms : List Move)
    → All IsInOrder ms
    → (run answer (record { page = p; pending = range_of p ∷ [] }) ms).pending ≡ []
    → IsShowing answer (run answer (record { page = p; pending = range_of p ∷ [] }) ms).page
run-IsShowing answer p ms o e =
    let s = run answer (record { page = p; pending = range_of p ∷ [] }) ms in
    unfold IsLatest in
    subst (IsLatest answer s.page) e
      (run-IsLatest answer (record { page = p; pending = range_of p ∷ [] }) ms o refl)

-- On a page without a load under way, where the first day is changed to another one and again to
-- another, and the answer for the second change comes before the one for the first, the page ends
-- with the logs for the first change under the date of the second, and says that nothing is
-- loading.
pub run-stale :
    (answer : Range → Loaded) (p : AttendancePage) (a b : Text)
    → text_eq a p.start_date ≡ false
    → text_eq b a ≡ false
    → let s =
        run answer
          (record { page = p; pending = [] })
          (start_input a ∷ start_input b ∷ answered 1 ∷ answered 0 ∷ []) in
      (s.page.start_date ≡ b)
      × (s.page.logs ≡ (answer (record { start = a; end = p.end_date })).logs)
      × (s.page.is_loading ≡ false)
      × (s.pending ≡ [])
unfolding run move set_start_date fetch_logs fetch_done
run-stale answer p a b h k = simp (h, k) (refl, refl, refl, refl)
