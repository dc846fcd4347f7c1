-- ===== src/Override/Dialogs/Labels.antt =====
-- What the warning of the monthly override page lists
-- (frontend/src/components/WarningModal.tsx,
-- frontend/src/app/dashboard/monthly-override/page.tsx).
use pwa_attendance_record_sy.Prelude.{
  All-if, ◌≡◌, refl, sym, ◌∙◌, inl, inr, Option-cases, maybe_field, Bool, true, false, List, [],
  ◌∷◌, map, Option, none, some, arith, All, filter, is_some,
}
use pwa_attendance_record_sy.Text.{or_null}
use pwa_attendance_record_sy.Types.{
  AttendanceStatus, normal, late, early_leave, late_and_early_leave, abnormal, absent, leave,
}
use pwa_attendance_record_sy.Override.{DayRow, is_abnormal, has_status}
use pwa_attendance_record_sy.Override.Page.{
  Page, target_emp_id, abnormal_dates, is_empty, perform_submit, handle_submit_month,
}
use pwa_attendance_record_sy.Override.Page.Step.{submit_click, step}
use pwa_attendance_record_sy.Override.Dialogs.{
  AbnormalDay, abnormal_days, status_key, Line, warning_lines,
}

-- The line has a text for its status.
abbrev pub has_label : Line → Bool
has_label l = is_some l.status

status_key-is_abnormal :
    (o : Option AttendanceStatus) → has_status is_abnormal o ≡ true → is_some (status_key o) ≡ true
unfolding status_key is_abnormal
status_key-is_abnormal none h = cc
status_key-is_abnormal (some normal) h = cc
status_key-is_abnormal (some late) h = refl
status_key-is_abnormal (some early_leave) h = refl
status_key-is_abnormal (some late_and_early_leave) h = refl
status_key-is_abnormal (some abnormal) h = cc
status_key-is_abnormal (some absent) h = refl
status_key-is_abnormal (some leave) h = cc

All-filter {ℓ} : {A : Type ℓ} (p : A → Bool) (xs : List A) → All (λ x. p x ≡ true) (filter p xs)
All-filter p [] = tt
All-filter p (x ∷ xs) = All-if (λ y. p y ≡ true) (p x) x (filter p xs) (λ h. h) (All-filter p xs)

All-map {ℓ κ} :
    {A : Type ℓ} {B : Type ℓ} (P : A → Type κ) (Q : B → Type κ) (f : A → B) (xs : List A)
    → ((x : A) → P x → Q (f x))
    → All P xs
    → All Q (map f xs)
All-map P Q f [] k h = tt
All-map P Q f (x ∷ xs) k (h, hs) = (k x h, All-map P Q f xs k hs)

All-abnormal : (p : Page) → All (λ d. has_status is_abnormal d.status ≡ true) (abnormal_days p)
unfolding abnormal_days
All-abnormal p =
    All-map (λ (row : DayRow). has_status is_abnormal row.status ≡ true)
      (λ (d : AbnormalDay). has_status is_abnormal d.status ≡ true) _
      (filter (λ row. has_status is_abnormal row.status) p.rows) (λ row h. h)
      (All-filter (λ row. has_status is_abnormal row.status) p.rows)

All-abnormal_days :
    (p : Page) → All (λ l. has_label l ≡ true) (warning_lines true (abnormal_days p))
unfolding warning_lines
All-abnormal_days p =
    All-map (λ (d : AbnormalDay). has_status is_abnormal d.status ≡ true)
      (λ (l : Line). has_label l ≡ true) _ (abnormal_days p)
      (λ d h. status_key-is_abnormal d.status h) (All-abnormal p)

is_empty-map {ℓ κ} :
    {A : Type ℓ} {B : Type κ} (f : A → B) (xs : List A) → is_empty (map f xs) ≡ is_empty xs
is_empty-map f [] = refl
is_empty-map f (x ∷ xs) = refl

is_empty-warning_lines :
    (p : Page) → is_empty (warning_lines true (abnormal_days p)) ≡ is_empty (abnormal_dates p)
unfolding warning_lines abnormal_days abnormal_dates
is_empty-warning_lines p =
    let rows = filter (λ (row : DayRow). has_status is_abnormal row.status) p.rows in
    is_empty-map _ (map _ rows)
    ∙ (is_empty-map _ rows ∙ sym (is_empty-map (λ (row : DayRow). row.date) rows))

perform_submit-warning_open : (p : Page) → (perform_submit p).0.warning_open ≡ p.warning_open
unfolding perform_submit
perform_submit-warning_open p = elim (Option-cases (maybe_field or_null (target_emp_id p))) [
  | inl nobody ↦ ground (arith, nobody)
  | inr (id, found) ↦ ground (arith, found)
]

opened :
    (p : Page)
    → p.warning_open ≡ false
    → (step p submit_click).0.warning_open ≡ true
    → ((step p submit_click).0 ≡ record p { warning_open = true })
      × (is_empty (abnormal_dates p) ≡ false)
unfolding step handle_submit_month
opened p c o = ground (arith, perform_submit-warning_open p)

-- Where a click on Submit opens the warning, the warning lists at least one day, and has a text for
-- the status of each: the cast of a row's status to the type of the dialog holds there.
pub submit_click-has_label :
    (p : Page)
    → p.warning_open ≡ false
    → (step p submit_click).0.warning_open ≡ true
    → let q = (step p submit_click).0 in
      let lines = warning_lines q.warning_open (abnormal_days q) in
      (is_empty lines ≡ false) × All (λ l. has_label l ≡ true) lines
unfolding abnormal_days
submit_click-has_label p c o =
    let (e, n) = opened p c o in rw e (is_empty-warning_lines p ∙ n, All-abnormal_days p)
