-- ===== src/Override/View/Accepted.antt =====
-- What the inputs of the monthly override page offer against what the service takes
-- (frontend/src/app/dashboard/monthly-override/page.tsx, backend/app/schemas/bulk_override.py).
use pwa_attendance_record_sy.Prelude.{
  ℕ, ◌≡◌, refl, Bool, true, false, ◌&&◌, List, [], ◌∷◌, map, none, some, all, All, arith, leb,
  length, if◌then◌else◌, Bool-cases, inl, inr,
}
use pwa_attendance_record_sy.Text.{Text, text_eq, includes, or_null}
use pwa_attendance_record_sy.Text.Laws.{text_eq_iff}
use pwa_attendance_record_sy.Text.Numbers.{number_of}
use pwa_attendance_record_sy.Types.{BulkOverrideEntry}
use pwa_attendance_record_sy.Backend.Request.{
  json_num, at_most, is_overtime_step, is_late_leave_reason, is_valid,
}
use pwa_attendance_record_sy.Override.{DayRow}
use pwa_attendance_record_sy.Override.Edit.{
  Edit, clock_in, clock_out, remark, overtime, late_reason, leave_type, hours_of, change_row,
  apply_edit,
}
use pwa_attendance_record_sy.Override.Save.{entry_of, changed_entries}
use pwa_attendance_record_sy.Override.Save.Laws.{
  Selected, done, kept, skipped, changed_rows-Selected,
}
use pwa_attendance_record_sy.Override.Save.Edits.{apply_edits, apply_edits-Aligned}
use pwa_attendance_record_sy.Override.View.{
  hours_text, overtime_options, assigned, for_personal_reasons, is_offered,
}

all_included :
    (p : Text → Bool) (s : Text) (xs : List Text)
    → all p xs ≡ true
    → includes s xs ≡ true
    → p s ≡ true
unfolding includes
all_included p s [] h k = cc
all_included p s (x ∷ xs) h k = elim (Bool-cases (text_eq s x)) [
  | inl same ↦ rw ((text_eq_iff s x).0 same) (ground arith)
  | inr other ↦ all_included p s xs (ground arith) (rw (← k) (rw other))
]

at_most-or_null : (n : ℕ) (v : Text) → leb (length v) n ≡ true → at_most n (or_null v) ≡ true
at_most-or_null n [] h = refl
at_most-or_null n (c ∷ v) h = h

-- Every option of the overtime is a step that the service takes.
offered_hours :
    (v : Text)
    → includes v ([] ∷ map hours_text overtime_options) ≡ true
    → is_overtime_step (json_num (hours_of v)) ≡ true
unfolding is_overtime_step json_num hours_text number_of
offered_hours v h =
    all_included (λ s. is_overtime_step (json_num (hours_of s))) v
      ([] ∷ map hours_text overtime_options) refl h

offered_reason :
    (v : Text)
    → includes v ([] ∷ assigned ∷ for_personal_reasons ∷ []) ≡ true
    → (at_most 30 (or_null v) && is_late_leave_reason (or_null v)) ≡ true
unfolding is_late_leave_reason includes
offered_reason v h =
    all_included (λ s. at_most 30 (or_null s) && is_late_leave_reason (or_null s)) v
      ([] ∷ assigned ∷ for_personal_reasons ∷ []) refl h

-- The service takes the entry of the row, apart from its times.
abbrev pub IsAccepted : DayRow → Type 0
IsAccepted row = is_valid (entry_of row) ≡ true

changed_row-IsAccepted :
    (here : Bool) (f : DayRow → DayRow) (row : DayRow)
    → ((r : DayRow) → IsAccepted r → IsAccepted (f r))
    → IsAccepted row
    → IsAccepted (if here then f row else row)
changed_row-IsAccepted true f row keep h = keep row h
changed_row-IsAccepted false f row keep h = h

change_row-IsAccepted :
    (date : Text) (f : DayRow → DayRow) (rows : List DayRow)
    → ((row : DayRow) → IsAccepted row → IsAccepted (f row))
    → All IsAccepted rows
    → All IsAccepted (change_row date f rows)
change_row-IsAccepted date f [] keep h = tt
change_row-IsAccepted date f (row ∷ rows) keep (h, hs) = (
  changed_row-IsAccepted (text_eq row.date date) f row keep h,
  change_row-IsAccepted date f rows keep hs,
)

apply_edit-IsAccepted :
    (leave_types : List Text) (date : Text) (e : Edit) (rows : List DayRow)
    → all (λ s. leb (length s) 50) leave_types ≡ true
    → is_offered leave_types e ≡ true
    → All IsAccepted rows
    → All IsAccepted (apply_edit date e rows)
unfolding apply_edit is_offered is_valid entry_of
apply_edit-IsAccepted lts date (clock_in v) rows short o h =
    change_row-IsAccepted date _ rows (λ row k. k) h
apply_edit-IsAccepted lts date (clock_out v) rows short o h =
    change_row-IsAccepted date _ rows (λ row k. k) h
apply_edit-IsAccepted lts date (remark v) rows short o h =
    change_row-IsAccepted date _ rows (λ row k. ground (arith, at_most-or_null 500 v)) h
apply_edit-IsAccepted lts date (overtime v) rows short o h =
    change_row-IsAccepted date _ rows (λ row k. ground (arith, offered_hours v)) h
apply_edit-IsAccepted lts date (late_reason v) rows short o h =
    change_row-IsAccepted date _ rows (λ row k. ground (arith, offered_reason v)) h
apply_edit-IsAccepted lts date (leave_type none) rows short o h =
    change_row-IsAccepted date _ rows (λ row k. ground arith) h
apply_edit-IsAccepted lts date (leave_type (some s)) rows short o h =
    change_row-IsAccepted date _ rows
      (λ row k. ground (arith, all_included (λ t. leb (length t) 50) s lts short o)) h

apply_edits-IsAccepted :
    (leave_types : List Text) (edits : List (Text × Edit)) (rows : List DayRow)
    → all (λ s. leb (length s) 50) leave_types ≡ true
    → all (λ (x : Text × Edit). is_offered leave_types x.1) edits ≡ true
    → All IsAccepted rows
    → All IsAccepted (apply_edits edits rows)
unfolding apply_edits
apply_edits-IsAccepted lts [] rows short o h = h
apply_edits-IsAccepted lts ((date, e) ∷ edits) rows short o h =
    apply_edit-IsAccepted lts date e (apply_edits edits rows) short (ground arith)
      (apply_edits-IsAccepted lts edits rows short (ground arith) h)

Selected-IsAccepted :
    {rows originals kept : List DayRow}
    → Selected rows originals kept
    → All IsAccepted rows
    → all is_valid (map entry_of kept) ≡ true
Selected-IsAccepted done h = refl
Selected-IsAccepted (kept editable differs s) (h, hs) = ground (arith, h, Selected-IsAccepted s hs)
Selected-IsAccepted (skipped why s) (h, hs) = Selected-IsAccepted s hs

-- Whatever is entered in the inputs of loaded rows that the service takes, for options of leave types
-- with at most 50 characters: a save finds its changes without fault, and the service takes each entry
-- of them, apart from the parse of its times.
pub changed_entries-is_valid :
    (leave_types : List Text) (edits : List (Text × Edit)) (originals : List DayRow)
    → all (λ s. leb (length s) 50) leave_types ≡ true
    → all (λ (x : Text × Edit). is_offered leave_types x.1) edits ≡ true
    → All IsAccepted originals
    → (entries : List BulkOverrideEntry) × (changed_entries (apply_edits edits originals) originals
        ≡ some entries)
      × (all is_valid entries ≡ true)
unfolding changed_entries
changed_entries-is_valid lts edits originals short o h =
    let rows = apply_edits edits originals in
    let (ks, e, s) = changed_rows-Selected rows originals (apply_edits-Aligned edits originals) in
    (
      map entry_of ks,
      rw e,
      Selected-IsAccepted s (apply_edits-IsAccepted lts edits originals short o h),
    )
