-- ===== src/Administration/Departments/Refines.antt =====
-- The department section together with the service, against lists that are edited one name at a
-- time (frontend/src/app/admin/page.tsx, backend/app/routers/system_config.py).
use pwa_attendance_record_sy.Prelude.{◌≡◌, false, true, ◌∷◌, ◌++◌, List, []}
use pwa_attendance_record_sy.Text.{Text, truthy, trim, includes}
use pwa_attendance_record_sy.Administration.Departments.{
  System, Move, run, move, served, refused, set_departments, user, type_name, add_enter, step,
  handle_add, save_departments, save_done,
}
use pwa_attendance_record_sy.Administration.Departments.Stored.{Edited}
use pwa_attendance_record_sy.Administration.Departments.Sync.{
  InSync, AreCalm, idle_lem, move-InSync, served-InSync, refused-InSync,
}

-- Edits, one after the other
pub data Edits : List Text → List Text → Type 0 where
  nothing : (ds : List Text) → Edits ds ds
  first : {ds es fs : List Text} → Edited ds es → Edits es fs → Edits ds fs

-- From a section in step with the service, however the user works with it, Enter during a request
-- left out, and whatever the service makes of the requests: the section shows what the service
-- stores, at most one request is under way, and the stored list changes only by adding one new name
-- at its end or by removing one, so that it stays a list of stripped names, each one once.
pub run-Edits :
    (s : System) (ms : List Move)
    → InSync s
    → AreCalm s ms
    → InSync (run s ms) × Edits s.stored (run s ms).stored
unfolding run
run-Edits s [] h c = (h, nothing s.stored)
run-Edits s (m ∷ ms) h (c, cs) =
    let k = move-InSync s m c h in
    let more = run-Edits (move s m) ms k.0 cs in (more.0, first k.1 more.1)

-- After any run from a section in step with the service, Enter during a request left out, one
-- answer, a list or an error, is enough: then the buttons can be clicked and the section shows what
-- the service stores.
pub run-is_submitting :
    (s : System) (ms : List Move) (t : Text)
    → InSync s
    → AreCalm s ms
    → let ok = move (run s ms) served in
      let bad = move (run s ms) (refused t) in
      ((ok.section.is_submitting ≡ false) × (ok.section.departments ≡ ok.stored))
      × ((bad.section.is_submitting ≡ false) × (bad.section.departments ≡ bad.stored))
run-is_submitting s ms t h c =
    let q = run s ms in
    let k = (run-Edits s ms h c).0 in
    let ok = served-InSync q.section q.stored q.pending k in
    let bad = refused-InSync q.section q.stored q.pending t k in
    (idle_lem (move q served) ok.0 ok.2, idle_lem (move q (refused t)) bad.0 bad.2)

-- Enter is not stopped by a request under way: of two names, neither blank nor stored yet, that are
-- entered one after the other on a section without a request, before the first one's request is
-- answered, only the second is stored in the end, though the service has stored both requests.
pub add_enter-stored_second :
    (s : System) (a b : Text)
    → s.section.departments ≡ s.stored
    → s.pending ≡ []
    → truthy (trim a) ≡ true
    → truthy (trim b) ≡ true
    → includes (trim a) s.stored ≡ false
    → includes (trim b) s.stored ≡ false
    → (run s (
        user (type_name a)
        ∷ user add_enter
        ∷ user (type_name b)
        ∷ user add_enter
        ∷ served
        ∷ served
        ∷ [])).stored
      ≡ set_departments (s.stored ++ trim b ∷ [])
unfolding run move step handle_add save_departments save_done
add_enter-stored_second s a b same idle ta tb na nb = simp (same, idle, ta, tb, na, nb)
