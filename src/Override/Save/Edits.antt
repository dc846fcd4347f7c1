-- ===== src/Override/Save/Edits.antt =====
-- A save sends nothing of the days that were not edited.
use pwa_attendance_record_sy.Prelude.{
  ◌≡◌, ◌≢◌, refl, sym, ap, subst, ◌⊎◌, inl, inr, true, List, [], ◌∷◌, map, some, arith, All, all,
  Bool-cases,
}
use pwa_attendance_record_sy.Text.{Text, text_eq, includes}
use pwa_attendance_record_sy.Text.Numbers.{nan}
use pwa_attendance_record_sy.Types.{BulkOverrideEntry}
use pwa_attendance_record_sy.Override.{DayRow}
use pwa_attendance_record_sy.Override.Edit.{
  Edit, clock_in, clock_out, remark, overtime, late_reason, leave_type, apply_edit, change_row,
}
use pwa_attendance_record_sy.Override.Save.{entry_of, changed_entries}
use pwa_attendance_record_sy.Override.Save.Laws.{
  Aligned, Aligned-refl, apply_edit-Aligned, Selected, done, kept, skipped, changed_rows-Selected,
}

-- The inputs that were used, the last one first, each with its day.
unfoldable pub apply_edits : List (Text × Edit) → List DayRow → List DayRow
apply_edits [] rows = rows
apply_edits ((date, e) ∷ edits) rows = apply_edit date e (apply_edits edits rows)

-- Each row is its original, or its day is among those listed.
abbrev Touched : List Text → List DayRow → List DayRow → Type 0
Touched dates [] [] = Unit
Touched dates [] (o ∷ os) = ⊥
Touched dates (r ∷ rs) [] = ⊥
Touched dates (r ∷ rs) (o ∷ os) = ((r ≡ o) ⊎ (includes r.date dates ≡ true)) × Touched dates rs os

Touched-refl : (rows : List DayRow) → Touched [] rows rows
Touched-refl [] = tt
Touched-refl (r ∷ rs) = (inl refl, Touched-refl rs)

includes-cons :
    (s d : Text) (dates : List Text) → includes s dates ≡ true → includes s (d ∷ dates) ≡ true
unfolding includes
includes-cons s d dates h = ground arith

includes_head :
    (s d : Text) (dates : List Text) → text_eq s d ≡ true → includes s (d ∷ dates) ≡ true
unfolding includes
includes_head s d dates h = ground arith

abbrev KeepsDate : (DayRow → DayRow) → Type 0
KeepsDate f = (r : DayRow) → (f r).date ≡ r.date

change_row-Touched :
    (date : Text) (f : DayRow → DayRow)
    → KeepsDate f
    → (dates : List Text) (rows originals : List DayRow) → Touched dates rows originals
    → Touched (date ∷ dates) (change_row date f rows) originals
change_row-Touched date f keeps dates [] [] h = tt
change_row-Touched date f keeps dates [] (o ∷ os) h = absurd h
change_row-Touched date f keeps dates (r ∷ rs) [] h = absurd h
change_row-Touched date f keeps dates (r ∷ rs) (o ∷ os) (d, h) =
    let rest = change_row-Touched date f keeps dates rs os h in
    elim (Bool-cases (text_eq r.date date)) [
      | inl hit ↦ rw hit (inr (rw (keeps r) (includes_head r.date date dates hit)), rest)
      | inr miss ↦ rw miss (
        elim d [ inl same ↦ inl same | inr listed ↦ inr (includes-cons r.date date dates listed) ],
        rest,
      )
    ]

apply_edit-Touched :
    (date : Text) (e : Edit) (dates : List Text) (rows originals : List DayRow)
    → Touched dates rows originals
    → Touched (date ∷ dates) (apply_edit date e rows) originals
unfolding apply_edit
apply_edit-Touched date (clock_in v) ds rows os h =
    change_row-Touched date _ (λ r. refl) ds rows os h
apply_edit-Touched date (clock_out v) ds rows os h =
    change_row-Touched date _ (λ r. refl) ds rows os h
apply_edit-Touched date (remark v) ds rows os h = change_row-Touched date _ (λ r. refl) ds rows os h
apply_edit-Touched date (overtime v) ds rows os h =
    change_row-Touched date _ (λ r. refl) ds rows os h
apply_edit-Touched date (late_reason v) ds rows os h =
    change_row-Touched date _ (λ r. refl) ds rows os h
apply_edit-Touched date (leave_type v) ds rows os h =
    change_row-Touched date _ (λ r. refl) ds rows os h

abbrev edited_dates : List (Text × Edit) → List Text
edited_dates = map (λ e. e.0)

apply_edits-Touched :
    (edits : List (Text × Edit)) (rows : List DayRow)
    → Touched (edited_dates edits) (apply_edits edits rows) rows
unfolding apply_edits
apply_edits-Touched [] rows = Touched-refl rows
apply_edits-Touched ((date, e) ∷ edits) rows =
    apply_edit-Touched date e (edited_dates edits) (apply_edits edits rows) rows
      (apply_edits-Touched edits rows)

pub apply_edits-Aligned :
    (edits : List (Text × Edit)) (rows : List DayRow) → Aligned (apply_edits edits rows) rows
unfolding apply_edits
apply_edits-Aligned [] rows = Aligned-refl rows
apply_edits-Aligned ((date, e) ∷ edits) rows =
    apply_edit-Aligned date e (apply_edits edits rows) rows (apply_edits-Aligned edits rows)

Selected-listed :
    (dates : List Text) (rows os : List DayRow) (ks : List DayRow)
    → Selected rows os ks
    → Touched dates rows os
    → All (λ o. o.overtime_hours ≢ some nan) os
    → all (λ e. includes e.date dates) (map entry_of ks) ≡ true
unfolding entry_of
Selected-listed dates _ _ _ done t n = refl
Selected-listed dates _ _ _ (kept {r} {o} {rs} {os} {ks} editable differs s) (d, t) (p, n) =
    let rest = Selected-listed dates rs os ks s t n in
    elim d [
      | inl same ↦
          absurd (differs (ap entry_of same, subst (λ x. x.overtime_hours ≢ some nan) (sym same) p))
      | inr listed ↦ simp (listed, rest)
    ]
Selected-listed dates _ _ _ (skipped {rs} {os} {ks} why s) (d, t) (p, n) =
    Selected-listed dates rs os ks s t n

-- After any inputs on the loaded rows, `handleSave` finds its changes without fault, and each
-- entry is for a day on which an input was used; the loaded hours are numbers, not NaN.
pub changed_entries-apply_edits :
    (edits : List (Text × Edit)) (originals : List DayRow)
    → All (λ o. o.overtime_hours ≢ some nan) originals
    → (entries : List BulkOverrideEntry) × (changed_entries (apply_edits edits originals) originals
        ≡ some entries)
      × (all (λ e. includes e.date (map (λ (x : Text × Edit). x.0) edits)) entries ≡ true)
unfolding changed_entries
changed_entries-apply_edits edits originals n =
    let rows = apply_edits edits originals in
    let (ks, e, s) = changed_rows-Selected rows originals (apply_edits-Aligned edits originals) in
    (
      map entry_of ks,
      rw e,
      Selected-listed (edited_dates edits) rows originals ks s (apply_edits-Touched edits originals)
          n,
    )
