-- ===== src/Override/Page/Requests.antt =====
-- Which requests the monthly override page sends, and when
-- (frontend/src/app/dashboard/monthly-override/page.tsx).
use pwa_attendance_record_sy.Prelude.{
  ◌≡◌, ◌≢◌, ◌↔◌, refl, true, false, List, [], ◌∷◌, Option, none, some, arith, Option-cases, inl,
  inr, map, any, filter, maybe_field, filter-eq-nil_iff,
}
use pwa_attendance_record_sy.Text.{Text, truthy, or_null}
use pwa_attendance_record_sy.Text.Laws.{or_null-truthy}
use pwa_attendance_record_sy.DayKinds.{WorkdayInfo}
use pwa_attendance_record_sy.Types.{DailyAttendanceSummary, BulkOverrideEntry, BulkOverrideRequest}
use pwa_attendance_record_sy.Override.{DayRow, build_rows, row_needs_punch_for_overtime}
use pwa_attendance_record_sy.Override.Save.{changed_entries, overtime_punch_error_dates}
use pwa_attendance_record_sy.Override.Page.{
  Page, Request, load, override_bulk, submit, loaded, handle_save, send_changes, save_body,
  perform_submit, handle_submit_month, page_locked, is_hr_plus, chosen_emp_id, target_emp_id,
  late_reason_missing_dates, abnormal_dates, is_empty, query_of,
}
use pwa_attendance_record_sy.Override.Page.Step.{
  load_done, save_click, submit_click, load_effect, go_next, step, run,
}
use pwa_attendance_record_sy.Dates.Months.{next_month}

-- What a save that sends something guarantees.
pub record IsSave (p : Page) (body : BulkOverrideRequest) : Type 0 where
  pub unlocked : page_locked p ≡ false
  pub idle : p.is_saving ≡ false
  pub punched : any row_needs_punch_for_overtime p.rows ≡ false
  pub changes : changed_entries p.rows p.original_rows ≡ some body.entries
  pub not_empty : body.entries ≢ []
  pub year : body.year ≡ p.year
  pub month : body.month ≡ p.month
  pub emp_id : body.emp_id ≡ chosen_emp_id p

map_empty {ℓ κ} :
    {A : Type ℓ} {B : Type κ} (f : A → B) (xs : List A) → is_empty (map f xs) ≡ true → xs ≡ []
map_empty f [] h = refl
map_empty f (x ∷ xs) h = cc

no_overtime_error :
    (rows : List DayRow)
    → is_empty (overtime_punch_error_dates rows) ≡ true
    → any row_needs_punch_for_overtime rows ≡ false
unfolding overtime_punch_error_dates
no_overtime_error rows h =
    (filter-eq-nil_iff row_needs_punch_for_overtime rows).0
      (map_empty (λ (row : DayRow). row.date) (filter row_needs_punch_for_overtime rows) h)

send_changes-override :
    (c : Option (List BulkOverrideEntry)) (p : Page) (body : BulkOverrideRequest)
    → (send_changes c p).1 ≡ some (override_bulk body)
    → (c ≡ some body.entries) × (body.entries ≢ []) × (body ≡ save_body p body.entries)
unfolding send_changes
send_changes-override none p body h = cc
send_changes-override (some []) p body h = cc
send_changes-override (some (e ∷ es)) p body h = ground arith

save_parts :
    (p : Page) (body : BulkOverrideRequest)
    → (handle_save p).1 ≡ some (override_bulk body)
    → (any row_needs_punch_for_overtime p.rows ≡ false)
      × (changed_entries p.rows p.original_rows ≡ some body.entries)
      × (body.entries ≢ [])
      × (body.year ≡ p.year)
      × (body.month ≡ p.month)
      × (body.emp_id ≡ chosen_emp_id p)
unfolding handle_save save_body
save_parts p body h = ground (
  arith,
  no_overtime_error p.rows,
  send_changes-override (changed_entries p.rows p.original_rows) p body,
)

-- A click on Save sends changes only from an unlocked page with no save under way and no overtime
-- without both punches; what it sends is the changes, at least one, for the page's year and month,
-- and for the employee chosen by HR, if any.
pub save_click-IsSave :
    (p : Page) (body : BulkOverrideRequest)
    → (step p save_click).1 ≡ some (override_bulk body)
    → IsSave p body
unfolding step
save_click-IsSave p body h = ground (arith, save_parts p body)

-- What a click on Submit needs to send the month of an employee at once.
pub record MaySubmit (p : Page) (id : Text) : Type 0 where
  pub idle : p.pending_submit ≡ false
  pub unlocked : page_locked p ≡ false
  pub target : target_emp_id p ≡ some id
  pub named : truthy id ≡ true
  pub reasons : late_reason_missing_dates p ≡ []
  pub regular : abnormal_dates p ≡ []

empty_iff {ℓ} : {A : Type ℓ} (xs : List A) → (is_empty xs ≡ true) ↔ (xs ≡ [])
empty_iff [] = ground arith
empty_iff (x ∷ xs) = ground arith

or_null-eq-some : (s id : Text) → or_null s ≡ some id → (s ≡ id) × (truthy id ≡ true)
or_null-eq-some [] id h = cc
or_null-eq-some (c ∷ s) id h = ground arith

maybe_or_null-eq-some :
    (o : Option Text) (id : Text)
    → maybe_field or_null o ≡ some id
    → (o ≡ some id) × (truthy id ≡ true)
maybe_or_null-eq-some none id h = cc
maybe_or_null-eq-some (some s) id h = ground (arith, or_null-eq-some s id h)

perform_submit_sends :
    (p : Page) (r : Request)
    → (perform_submit p).1 ≡ some r
    → (id : Text) × (r ≡ submit id p.year p.month)
      × (target_emp_id p ≡ some id)
      × (truthy id ≡ true)
unfolding perform_submit
perform_submit_sends p r h = elim (Option-cases (maybe_field or_null (target_emp_id p))) [
  | inl nobody ↦ absurd (cc (rw (nobody, perform_submit) at h))
  | inr (id, found) ↦ (
    id,
    ground arith,
    (maybe_or_null-eq-some (target_emp_id p) id found).0,
    (maybe_or_null-eq-some (target_emp_id p) id found).1,
  )
]

perform_submit_of_target :
    (p : Page) (id : Text)
    → target_emp_id p ≡ some id
    → truthy id ≡ true
    → (perform_submit p).1 ≡ some (submit id p.year p.month)
unfolding perform_submit
perform_submit_of_target p id e n = ground (arith, or_null-truthy id n)

submit_click_complete :
    (p : Page) (id : Text)
    → MaySubmit p id
    → (step p submit_click).1 ≡ some (submit id p.year p.month)
unfolding step handle_submit_month
submit_click_complete p id m = ground (arith, perform_submit_of_target p id m.target m.named)

submit_click_performs :
    (p : Page) (r : Request)
    → (step p submit_click).1 ≡ some r
    → (p.pending_submit ≡ false)
      × (page_locked p ≡ false)
      × (late_reason_missing_dates p ≡ [])
      × (abnormal_dates p ≡ [])
      × ((perform_submit p).1 ≡ some r)
unfolding step handle_submit_month
submit_click_performs p r h =
    ground (arith, empty_iff (late_reason_missing_dates p), empty_iff (abnormal_dates p))

submit_click_sound :
    (p : Page) (r : Request)
    → (step p submit_click).1 ≡ some r
    → (id : Text) × MaySubmit p id × (r ≡ submit id p.year p.month)
submit_click_sound p r h =
    let (idle, unlocked, reasons, regular, sent) = submit_click_performs p r h in
    let (id, e, target, named) = perform_submit_sends p r sent in
    (
      id,
      record {
        idle = idle;
        unlocked = unlocked;
        target = target;
        named = named;
        reasons = reasons;
        regular = regular;
      },
      e,
    )

-- A click on Submit sends a request exactly if the page is idle and unlocked, has an employee to
-- act for, no day that still needs a late-leave reason and no abnormal day; the request is then
-- for that employee and the page's year and month, and it sends no other request.
pub submit_click-MaySubmit :
    (p : Page) (r : Request)
    → ((step p submit_click).1 ≡ some r)
      ↔ ((id : Text) × MaySubmit p id × (r ≡ submit id p.year p.month))
submit_click-MaySubmit p r =
    (λ h. submit_click_sound p r h, λ (id, m, e). rw e (submit_click_complete p id m))

-- Loads are not ordered: where the user moves on to the next month while a load is under way, and
-- the load of the new month ends first, the page ends up with the rows of the month it has left,
-- under the year and month of the new one.
pub stale_load :
    (p : Page) (days days' : List WorkdayInfo) (summaries summaries' : List DailyAttendanceSummary)
    → let moved = run p (load_effect ∷ go_next ∷ []) in
      let q = run moved (
        load_effect
        ∷ load_done (loaded days' summaries')
        ∷ load_done (loaded days summaries)
        ∷ []) in
      ((step p load_effect).1 ≡ some (load (query_of p)))
      × ((step moved load_effect).1 ≡ some (load (query_of moved)))
      × ((q.year, q.month) ≡ next_month (p.year, p.month))
      × (q.rows ≡ build_rows p.zone (is_hr_plus p) days summaries)
      × (q.original_rows ≡ q.rows)
unfolding step run is_hr_plus
stale_load p days days' summaries summaries' = (refl, refl, refl, refl, refl)
