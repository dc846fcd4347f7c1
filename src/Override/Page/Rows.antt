-- ===== src/Override/Page/Rows.antt =====
-- The rows of the monthly override page through all its events: they stay aligned with the
-- originals, so that saving never faults.
use pwa_attendance_record_sy.Prelude.{
  ◌≡◌, refl, Bool, true, false, List, [], ◌∷◌, Option, none, some, arith, if◌then◌else◌, field_of,
  map, ap, subst, sym, ◌||◌, not,
}
use pwa_attendance_record_sy.Text.{truthy?}
use pwa_attendance_record_sy.Types.{BulkOverrideEntry}
use pwa_attendance_record_sy.Override.{DayRow}
use pwa_attendance_record_sy.Override.Save.{changed_entries, entry_of}
use pwa_attendance_record_sy.Override.Save.Laws.{
  Aligned, Aligned-refl, apply_edit-Aligned, Selected, changed_rows-Selected,
}
use pwa_attendance_record_sy.Override.Page.{
  Page, Request, LoadResult, loaded, failed, finish_load, handle_save, send_changes, perform_submit,
  handle_submit_month, page_locked, target_emp_id, accepted, reason_missing, coded, uncoded,
  is_hr_plus,
}
use pwa_attendance_record_sy.Override.Page.Step.{
  Event, edit, select_department, select_employee, submit_done, load_done, reload_done, save_click,
  submit_click, warning_proceed, has_inputs, step, run,
}

abbrev pub IsAligned : Page → Type 0
IsAligned p = Aligned p.rows p.original_rows

-- A handler that leaves both lists of rows alone.
abbrev KeepsRows : Page → Page → Type 0
KeepsRows p q = (q.rows ≡ p.rows) × (q.original_rows ≡ p.original_rows)

send_changes-KeepsRows :
    (c : Option (List BulkOverrideEntry)) (p : Page) → KeepsRows p (send_changes c p).0
unfolding send_changes
send_changes-KeepsRows none p = (refl, refl)
send_changes-KeepsRows (some []) p = (refl, refl)
send_changes-KeepsRows (some (e ∷ es)) p = (refl, refl)

handle_save-KeepsRows : (p : Page) → KeepsRows p (handle_save p).0
unfolding handle_save
handle_save-KeepsRows p =
    ground (arith, send_changes-KeepsRows (changed_entries p.rows p.original_rows) p)

perform_submit-KeepsRows : (p : Page) → KeepsRows p (perform_submit p).0
unfolding perform_submit
perform_submit-KeepsRows p = ground arith

handle_submit_month-KeepsRows : (p : Page) → KeepsRows p (handle_submit_month p).0
unfolding handle_submit_month
handle_submit_month-KeepsRows p = ground arith

IsAligned-KeepsRows : (p q : Page) → KeepsRows p q → IsAligned p → IsAligned q
IsAligned-KeepsRows p q (r, o) h = rw (r, o) h

finish_load-IsAligned : (r : LoadResult) (p : Page) → IsAligned p → IsAligned (finish_load r p)
unfolding finish_load
finish_load-IsAligned (loaded days summaries) p h = Aligned-refl _
finish_load-IsAligned (failed text) p h = h

IsAligned-if : (b : Bool) (p q : Page) → IsAligned p → IsAligned q → IsAligned (if b then p else q)
IsAligned-if true p q h k = h
IsAligned-if false p q h k = k

IsAligned-if_pair :
    (b : Bool) (x y : Page × Option Request)
    → IsAligned x.0
    → IsAligned y.0
    → IsAligned (if b then x else y).0
IsAligned-if_pair true x y h k = h
IsAligned-if_pair false x y h k = k

step-IsAligned : (p : Page) (e : Event) → IsAligned p → IsAligned (step p e).0
unfolding step
step-IsAligned p (edit date e) h =
    IsAligned-if (has_inputs p date) _ p (apply_edit-Aligned date e p.rows p.original_rows h) h
step-IsAligned p (select_department d) h = IsAligned-if (is_hr_plus p) _ p h h
step-IsAligned p (select_employee id) h = IsAligned-if (is_hr_plus p) _ p h h
step-IsAligned p save_click h =
    IsAligned-if_pair (p.is_saving || page_locked p) (p, none) (handle_save p) h
      (IsAligned-KeepsRows p (handle_save p).0 (handle_save-KeepsRows p) h)
step-IsAligned p submit_click h =
    IsAligned-if_pair (p.pending_submit || not (truthy? (target_emp_id p)) || page_locked p)
      (p, none) (handle_submit_month p) h
      (IsAligned-KeepsRows p (handle_submit_month p).0 (handle_submit_month-KeepsRows p) h)
step-IsAligned p warning_proceed h =
    IsAligned-if_pair p.warning_open (perform_submit p) (p, none)
      (IsAligned-KeepsRows p (perform_submit p).0 (perform_submit-KeepsRows p) h) h
step-IsAligned p (load_done r) h = finish_load-IsAligned r p h
step-IsAligned p (reload_done count r) h = finish_load-IsAligned r p h
step-IsAligned p (submit_done known (accepted s)) h = h
step-IsAligned p (submit_done known (reason_missing ds)) h = h
step-IsAligned p (submit_done known (coded t)) h = h
step-IsAligned p (submit_done known uncoded) h = h
step-IsAligned p _ h = h

run-IsAligned : (es : List Event) (p : Page) → IsAligned p → IsAligned (run p es)
unfolding run
run-IsAligned [] p h = h
run-IsAligned (e ∷ es) p h = run-IsAligned es (step p e).0 (step-IsAligned p e h)

-- From a page whose rows are the originals (such as the first one, with none), after any events at
-- all, saving finds the changed rows without fault: they are, in the page's order, exactly the
-- editable rows for which it would send another entry than for the original of the same day, or
-- whose overtime hours are NaN.
pub changed_entries-run :
    (p : Page) (es : List Event)
    → p.rows ≡ p.original_rows
    → let q = run p es in
      (ks : List DayRow) × Aligned q.rows q.original_rows
      × Selected q.rows q.original_rows ks
      × (changed_entries q.rows q.original_rows ≡ some (map entry_of ks))
unfolding changed_entries
changed_entries-run p es start =
    let q = run p es in
    let aligned =
      run-IsAligned es p
        (subst (λ rs. Aligned rs p.original_rows) (sym start) (Aligned-refl p.original_rows)) in
    let (ks, e, s) = changed_rows-Selected q.rows q.original_rows aligned in
    (ks, aligned, s, ap (field_of (map entry_of)) e)
