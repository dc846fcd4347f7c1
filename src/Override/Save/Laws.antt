-- ===== src/Override/Save/Laws.antt =====
-- What a save of the monthly override page sends.
use pwa_attendance_record_sy.Prelude.{
  ◌≡◌, ◌≢◌, ◌↔◌, refl, or_else, ◌∙◌, ap, ◌⊎◌, inl, inr, true, false, List, [], ◌∷◌, Option, none,
  some, arith, Bool-cases,
}
use pwa_attendance_record_sy.Text.{Text, text_eq, or_null}
use pwa_attendance_record_sy.Text.Laws.{text_eq_iff, text_eq?_iff}
use pwa_attendance_record_sy.Text.Numbers.{Num, tenths, nan, num_eq?}
use pwa_attendance_record_sy.Override.{DayRow}
use pwa_attendance_record_sy.Override.Edit.{
  Edit, clock_in, clock_out, remark, overtime, late_reason, leave_type, apply_edit, change_row,
}
use pwa_attendance_record_sy.Override.Save.{fields_differ, entry_of, changed_rows}

-- Two lists of rows show the same days, with the same rows editable.
abbrev pub Aligned : List DayRow → List DayRow → Type 0
Aligned [] [] = Unit
Aligned [] (o ∷ os) = ⊥
Aligned (r ∷ rs) [] = ⊥
Aligned (r ∷ rs) (o ∷ os) = (r.date ≡ o.date) × (r.is_editable ≡ o.is_editable) × Aligned rs os

pub Aligned-refl : (rows : List DayRow) → Aligned rows rows
Aligned-refl [] = tt
Aligned-refl (r ∷ rs) = (refl, refl, Aligned-refl rs)

-- An update that keeps the date and the editability of a row.
abbrev KeepsDay : (DayRow → DayRow) → Type 0
KeepsDay f = (r : DayRow) → ((f r).date ≡ r.date) × ((f r).is_editable ≡ r.is_editable)

change_row-Aligned :
    (date : Text) (f : DayRow → DayRow)
    → KeepsDay f
    → (rows originals : List DayRow) → Aligned rows originals
    → Aligned (change_row date f rows) originals
change_row-Aligned date f keeps [] [] h = tt
change_row-Aligned date f keeps [] (o ∷ os) h = absurd h
change_row-Aligned date f keeps (r ∷ rs) [] h = absurd h
change_row-Aligned date f keeps (r ∷ rs) (o ∷ os) (d, e, h) =
    let rest = change_row-Aligned date f keeps rs os h in
    elim (Bool-cases (text_eq r.date date)) [
      | inl hit ↦ rw hit ((keeps r).0 ∙ d, (keeps r).1 ∙ e, rest)
      | inr miss ↦ rw miss (d, e, rest)
    ]

-- Every input keeps the rows aligned with the originals.
pub apply_edit-Aligned :
    (date : Text) (e : Edit) (rows originals : List DayRow)
    → Aligned rows originals
    → Aligned (apply_edit date e rows) originals
unfolding apply_edit
apply_edit-Aligned date (clock_in v) rows os h =
    change_row-Aligned date _ (λ r. (refl, refl)) rows os h
apply_edit-Aligned date (clock_out v) rows os h =
    change_row-Aligned date _ (λ r. (refl, refl)) rows os h
apply_edit-Aligned date (remark v) rows os h =
    change_row-Aligned date _ (λ r. (refl, refl)) rows os h
apply_edit-Aligned date (overtime v) rows os h =
    change_row-Aligned date _ (λ r. (refl, refl)) rows os h
apply_edit-Aligned date (late_reason v) rows os h =
    change_row-Aligned date _ (λ r. (refl, refl)) rows os h
apply_edit-Aligned date (leave_type v) rows os h =
    change_row-Aligned date _ (λ r. (refl, refl)) rows os h

-- Nothing is changed on the row: it is saved as its original is, and its overtime hours are a number
-- or none (NaN is never the same as NaN).
abbrev pub IsUnchanged : DayRow → DayRow → Type 0
IsUnchanged r o = (entry_of r ≡ entry_of o) × (r.overtime_hours ≢ some nan)

-- `kept` are, in order, exactly the editable rows that are changed from their originals.
pub data Selected : List DayRow → List DayRow → List DayRow → Type 0 where
  done : Selected [] [] []
  kept :
      {r o : DayRow} {rs os ks : List DayRow}
      → r.is_editable ≡ true
      → ¬ IsUnchanged r o
      → Selected rs os ks
      → Selected (r ∷ rs) (o ∷ os) (r ∷ ks)
  skipped :
      {r o : DayRow} {rs os ks : List DayRow}
      → (r.is_editable ≡ false) ⊎ IsUnchanged r o
      → Selected rs os ks
      → Selected (r ∷ rs) (o ∷ os) ks

num_eq?_iff : (m n : Option Num) → (num_eq? m n ≡ true) ↔ ((m ≡ n) × (m ≢ some nan))
unfolding num_eq?
num_eq?_iff none none = (λ h. (refl, λ e. ground (arith, e)), λ h. refl)
num_eq?_iff none (some n) = (λ h. ground (arith, h), λ h. ground (arith, h.0))
num_eq?_iff (some m) none = (λ h. ground (arith, h), λ h. ground (arith, h.0))
num_eq?_iff (some (tenths a)) (some (tenths b)) =
    (λ h. (ground (arith, h), λ e. ground (arith, e)), λ h. ground (arith, h.0))
num_eq?_iff (some (tenths a)) (some nan) = (λ h. ground (arith, h), λ h. ground (arith, h.0))
num_eq?_iff (some nan) (some n) = (λ h. ground (arith, h), λ h. absurd (h.1 refl))

or_null_injective : (s t : Text) → or_null s ≡ or_null t → s ≡ t
or_null_injective [] [] h = refl
or_null_injective [] (c ∷ t) h = ground (arith, h)
or_null_injective (c ∷ s) [] h = ground (arith, h)
or_null_injective (c ∷ s) (d ∷ t) h = ap (λ o. or_else o []) h

-- The six comparisons fail exactly if both rows of a day are saved alike, without a NaN.
fields_differ_iff : (r o : DayRow) → r.date ≡ o.date → (fields_differ r o ≡ false) ↔ IsUnchanged r o
unfolding fields_differ entry_of
fields_differ_iff r o d =
    let c1 = text_eq_iff r.clock_in o.clock_in in
    let c2 = text_eq_iff r.clock_out o.clock_out in
    let c3 = text_eq?_iff r.leave_type o.leave_type in
    let c4 = text_eq?_iff r.remark o.remark in
    let c5 = num_eq?_iff r.overtime_hours o.overtime_hours in
    let c6 = text_eq?_iff r.late_leave_reason o.late_leave_reason in
    (
      λ h.
          let e1 = c1.0 (ground (arith, h)) in
          let e2 = c2.0 (ground (arith, h)) in
          let e3 = c3.0 (ground (arith, h)) in
          let e4 = c4.0 (ground (arith, h)) in
          let e5 = c5.0 (ground (arith, h)) in
          let e6 = c6.0 (ground (arith, h)) in (rw (d, e1, e2, e3, e4, e5.0, e6) refl, e5.1),
      λ h.
          let e = h.0 in
          rw
            (
              c1.1 (or_null_injective r.clock_in o.clock_in (ap (λ x. x.first_clock_in) e)),
              c2.1 (or_null_injective r.clock_out o.clock_out (ap (λ x. x.last_clock_out) e)),
              c3.1 (ap (λ x. x.leave_type) e),
              c4.1 (ap (λ x. x.remark) e),
              c5.1 (ap (λ x. x.overtime_hours) e, h.1),
              c6.1 (ap (λ x. x.late_leave_reason) e),
            )
            refl,
    )

-- On aligned rows the filter never throws, and keeps exactly the editable rows that are changed.
pub changed_rows-Selected :
    (rows originals : List DayRow)
    → Aligned rows originals
    → (ks : List DayRow) × (changed_rows rows originals ≡ some ks) × Selected rows originals ks
unfolding changed_rows
changed_rows-Selected [] [] h = ([], refl, done)
changed_rows-Selected [] (o ∷ os) h = absurd h
changed_rows-Selected (r ∷ rs) [] h = absurd h
changed_rows-Selected (r ∷ rs) (o ∷ os) (d, _, h) =
    let (ks, e, s) = changed_rows-Selected rs os h in
    elim (Bool-cases r.is_editable) [
      | inr locked ↦ (ks, simp locked e, skipped (inl locked) s)
      | inl editable ↦ elim (Bool-cases (fields_differ r o)) [
        | inl differs ↦ (
          r ∷ ks,
          simp (editable, differs, e),
          kept editable (λ u. ground (arith, differs, (fields_differ_iff r o d).1 u)) s,
        )
        | inr same ↦
            (ks, simp (editable, same) e, skipped (inr ((fields_differ_iff r o d).0 same)) s)
      ]
    ]
