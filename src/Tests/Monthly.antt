-- ===== src/Tests/Monthly.antt =====
-- The monthly override page at concrete inputs.
use pwa_attendance_record_sy.Prelude.{
  ◌≡◌, ◌↔◌, refl, true, false, ◌&&◌, List, [], ◌∷◌, map, none, some, arith, all, is_some,
}
use pwa_attendance_record_sy.Text.{Text, codes, slice, includes, text_eq, text_eq?}
use pwa_attendance_record_sy.Text.Numbers.{num_eq?}
use pwa_attendance_record_sy.DayKinds.{Zone, workday}
use pwa_attendance_record_sy.Types.{
  employee, normal, BulkOverrideEntry, BulkOverrideRequest, is_hr_role,
}
use pwa_attendance_record_sy.Backend.Calendar.{DayInfo, classify_day_kind, workday_entry}
use pwa_attendance_record_sy.Backend.Gate.{
  Summary, summary_entry, ShiftEnd, shift_text, misses_reason,
}
use pwa_attendance_record_sy.Override.{
  DayRow, build_row, row_needs_late_leave_reason, row_needs_punch_for_overtime,
}
use pwa_attendance_record_sy.Override.Gate.{row_needs_late_leave_reason-misses_reason}
use pwa_attendance_record_sy.Override.Edit.{Edit, remark, apply_edit}
use pwa_attendance_record_sy.Override.Save.{
  changed_rows, changed_entries, fields_differ, entry_of, overtime_punch_error_dates,
}
use pwa_attendance_record_sy.Override.Save.Laws.{Aligned, Selected}
use pwa_attendance_record_sy.Override.Save.Edits.{apply_edits, changed_entries-apply_edits}
use pwa_attendance_record_sy.Override.Page.{
  Page, submit, override_bulk, page_locked, is_hr_plus, target_emp_id, late_reason_missing_dates,
  abnormal_dates, chosen_emp_id, handle_save, send_changes, handle_submit_month,
}
use pwa_attendance_record_sy.Override.Page.Step.{Event, edit, save_click, submit_click, step, run}
use pwa_attendance_record_sy.Override.Page.Rows.{changed_entries-run}
use pwa_attendance_record_sy.Override.Page.Requests.{
  IsSave, save_click-IsSave, MaySubmit, submit_click-MaySubmit,
}

abbrev pub taipei : Zone
taipei = record { ahead = 480; behind = 0 }

abbrev pub wednesday : DayInfo
wednesday = record {
  year = 2026;
  month = 7;
  day = 1;
  weekday_zh = codes "三";
  is_holiday = false;
  description = [];
  is_makeup_workday = false;
}

abbrev punched : Summary
punched = record {
  date = codes "2026-07-01";
  first_clock_in =
      some
        (record { year = 2026; month = 7; day = 1; hours = 8; minutes = 58; rest = codes ":11" });
  last_clock_out =
      some (record {
        year = 2026;
        month = 7;
        day = 1;
        hours = 18;
        minutes = 30;
        rest = codes ":07.5";
      });
  status = normal;
  leave_type = none;
  remark = none;
  overtime_hours = none;
  late_leave_reason = none;
}

abbrev at_1730 : ShiftEnd
at_1730 = record { hours = 17; minutes = 30; seconds = 0 }

row_needs_late_leave_reason-misses_reason_example :
    misses_reason (classify_day_kind wednesday) [] at_1730 punched ≡ (
      is_some punched.first_clock_in
      && row_needs_late_leave_reason
          (build_row taipei false (workday_entry wednesday) (some (summary_entry punched)))
          (some (slice 0 5 (shift_text at_1730)))
          [])
row_needs_late_leave_reason-misses_reason_example =
    row_needs_late_leave_reason-misses_reason taipei false wednesday punched at_1730 []
      (omega arith) (omega arith) (omega arith) (omega arith) (omega arith)

-- A row as it is loaded, of a day without punches.
abbrev pub row_of : Text → DayRow
row_of date = record {
  date = date;
  weekday_zh = [];
  is_holiday = false;
  description = [];
  is_makeup_workday = false;
  day_kind = workday;
  clock_in = [];
  clock_out = [];
  status = none;
  is_editable = true;
  leave_type = none;
  remark = none;
  overtime_hours = none;
  late_leave_reason = none;
}

abbrev pub two_rows : List DayRow
two_rows = row_of (codes "2026-07-01") ∷ row_of (codes "2026-07-02") ∷ []

abbrev remarked : List (Text × Edit)
remarked = (codes "2026-07-02", remark (codes "out")) ∷ []

changed_entries-apply_edits_example :
    (entries : List BulkOverrideEntry) × (changed_entries (apply_edits remarked two_rows) two_rows
      ≡ some entries)
    × (all (λ e. includes e.date (map (λ (x : Text × Edit). x.0) remarked)) entries ≡ true)
changed_entries-apply_edits_example =
    changed_entries-apply_edits remarked two_rows ((λ e. cc), ((λ e. cc), tt))

-- The page of an employee, with two days loaded.
abbrev pub page : Page
page = record {
  user = some (record { emp_id = codes "EMP01"; role = employee });
  profile = none;
  zone = taipei;
  year = 2026;
  month = 7;
  rows = two_rows;
  original_rows = two_rows;
  employees = [];
  selected_department = [];
  selected_emp_id = [];
  is_loading = false;
  is_saving = false;
  message = none;
  required_leave_types = codes "出差" ∷ [];
  submission_status = none;
  override_locked = false;
  warning_open = false;
  overtime_modal_open = false;
  late_reason_modal_open = false;
  backend_late_reason_dates = none;
  pending_submit = false;
}

abbrev remark_event : Event
remark_event = edit (codes "2026-07-02") (remark (codes "out"))

changed_entries-run_example :
    let q = run page (remark_event ∷ []) in
    (ks : List DayRow) × Aligned q.rows q.original_rows
    × Selected q.rows q.original_rows ks
    × (changed_entries q.rows q.original_rows ≡ some (map entry_of ks))
changed_entries-run_example = changed_entries-run page (remark_event ∷ []) refl

abbrev edited : Page
edited = record page {
  rows =
      row_of (codes "2026-07-01")
      ∷ record (row_of (codes "2026-07-02")) { remark = some (codes "out") }
      ∷ [];
}

abbrev body : BulkOverrideRequest
body = record {
  year = 2026;
  month = 7;
  emp_id = none;
  entries =
      record {
        date = codes "2026-07-02";
        first_clock_in = none;
        last_clock_out = none;
        leave_type = none;
        remark = some (codes "out");
        overtime_hours = none;
        late_leave_reason = none;
      }
      ∷ [];
}

page_model : Unit {0}
unfolding step run page_locked is_hr_plus is_hr_role handle_save overtime_punch_error_dates
    row_needs_punch_for_overtime send_changes changed_entries changed_rows fields_differ text_eq
    text_eq? num_eq? entry_of chosen_emp_id target_emp_id late_reason_missing_dates
    row_needs_late_leave_reason abnormal_dates handle_submit_month apply_edit
page_model = tt

edit_saves :
    ((run page (remark_event ∷ [])) ≡ edited)
    × ((step edited save_click).1 ≡ some (override_bulk body))
    × ((step page save_click).1 ≡ none)
unfolding page_model
edit_saves = (refl, refl, refl)

save_click-IsSave_example : IsSave edited body
save_click-IsSave_example = save_click-IsSave edited body edit_saves.1

submit_click-MaySubmit_example :
    ((step page submit_click).1 ≡ some (submit (codes "EMP01") 2026 7))
    ↔ ((id : Text) × MaySubmit page id × (submit (codes "EMP01") 2026 7 ≡ submit id 2026 7))
submit_click-MaySubmit_example = submit_click-MaySubmit page (submit (codes "EMP01") 2026 7)

submits : (step page submit_click).1 ≡ some (submit (codes "EMP01") 2026 7)
unfolding page_model
submits = refl
