-- ===== src/Tests/Administration.antt =====
-- The sections of the administration page at concrete states (frontend/src/app/admin/page.tsx).
use pwa_attendance_record_sy.Prelude.{◌≡◌, refl, false, List, [], ◌∷◌, none}
use pwa_attendance_record_sy.Text.{codes, includes, trim, trim_start, trim_end, is_space}
use pwa_attendance_record_sy.Text.Strip.{strip, lstrip, rstrip, is_white}
use pwa_attendance_record_sy.Administration.Departments as Departments
use pwa_attendance_record_sy.Administration.Departments.Sync.{InSync}
use pwa_attendance_record_sy.Administration.Departments.Refines as Refines

abbrev departments_system : Departments.System
departments_system = record {
  section = record {
    departments = codes "Sales" ∷ codes "Labs" ∷ [];
    new_dept = [];
    is_submitting = false;
    message = none;
  };
  stored = codes "Sales" ∷ codes "Labs" ∷ [];
  pending = [];
}

departments_moves : List Departments.Move
departments_moves =
    Departments.user (Departments.type_name (codes " IT "))
    ∷ Departments.user Departments.add_click
    ∷ Departments.user (Departments.remove_click (codes "Sales"))
    ∷ Departments.served
    ∷ Departments.user (Departments.remove_click (codes "Sales"))
    ∷ Departments.refused (codes "Request failed")
    ∷ Departments.user (Departments.remove_click (codes "Labs"))
    ∷ []

-- A name is added, a click during the request is ignored, a removal is refused.
departments_run :
    let s = Departments.run departments_system departments_moves in
    (s.stored ≡ codes "Sales" ∷ codes "Labs" ∷ codes "IT" ∷ [])
    × (s.pending ≡ (codes "Sales" ∷ codes "IT" ∷ []) ∷ [])
unfolding departments_moves Departments.run Departments.move Departments.step Departments.handle_add
    Departments.handle_remove Departments.save_departments Departments.save_done
    Departments.save_refused Departments.set_departments includes trim trim_start trim_end is_space
    strip lstrip rstrip is_white
departments_run = (refl, refl)

departments_InSync : InSync departments_system
unfolding InSync includes strip lstrip rstrip is_white
departments_InSync = (refl, (((refl, refl), ((refl, refl), tt)), (refl, (refl, tt))), refl)

run-Edits_example :
    let s = Departments.run departments_system departments_moves in
    InSync s × Refines.Edits departments_system.stored s.stored
unfolding departments_moves
run-Edits_example =
    Refines.run-Edits departments_system departments_moves departments_InSync
      (tt, (tt, (tt, (tt, (tt, (tt, (tt, tt)))))))

run-is_submitting_example :
    let q = Departments.run departments_system departments_moves in
    let ok = Departments.move q Departments.served in
    let bad = Departments.move q (Departments.refused (codes "Request failed")) in
    ((ok.section.is_submitting ≡ false) × (ok.section.departments ≡ ok.stored))
    × ((bad.section.is_submitting ≡ false) × (bad.section.departments ≡ bad.stored))
unfolding departments_moves
run-is_submitting_example =
    Refines.run-is_submitting departments_system departments_moves (codes "Request failed")
      departments_InSync (tt, (tt, (tt, (tt, (tt, (tt, (tt, tt)))))))
