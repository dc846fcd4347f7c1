-- ===== src/Administration/Departments.antt =====
-- frontend/src/app/admin/page.tsx, DepartmentManagementSection, with the list that AdminPage holds
-- and hands to it; and the service's side of saving the list, `set_departments` of
-- backend/app/routers/system_config.py.
pub mod Stored
pub mod Sync
pub mod Refines
use pwa_attendance_record_sy.Prelude.{
  Bool, true, false, not, ◌&&◌, List, [], ◌∷◌, ◌++◌, Option, none, some, filter, map, if◌then◌else◌,
}
use pwa_attendance_record_sy.Text.{Text, text_eq, includes, truthy, trim}
use pwa_attendance_record_sy.Text.Strip.{strip}

pub data Message : Type 0 where
  updated exists : Message
  failed : Text → Message

pub record DepartmentsSection : Type 0 where
  pub departments : List Text
  pub new_dept : Text
  pub is_submitting : Bool
  pub message : Option Message

-- `saveDepartments`: the list that it sends, and what its request brings back
unfoldable pub save_departments :
    List Text → DepartmentsSection → DepartmentsSection × Option (List Text)
save_departments names p = (record p { is_submitting = true; message = none }, some names)

unfoldable pub save_done : List Text → DepartmentsSection → DepartmentsSection
save_done answer p = record p {
  departments = answer;
  message = some updated;
  is_submitting = false;
}

unfoldable pub save_refused : Text → DepartmentsSection → DepartmentsSection
save_refused text p = record p { message = some (failed text); is_submitting = false }

-- `handleAdd`
unfoldable pub handle_add : DepartmentsSection → DepartmentsSection × Option (List Text)
unfolding save_departments
handle_add p =
    let trimmed = trim p.new_dept in
    if not (truthy trimmed)
    then (p, none)
    else if includes trimmed p.departments
    then (record p { message = some exists }, none)
    else save_departments (p.departments ++ trimmed ∷ []) (record p { new_dept = [] })

-- `handleRemove`
unfoldable pub handle_remove : Text → DepartmentsSection → DepartmentsSection × Option (List Text)
unfolding save_departments
handle_remove dept p = save_departments (filter (λ d. not (text_eq d dept)) p.departments) p

-- What the user does; Enter in the input adds too, and no test of a request under way guards it.
pub data Event : Type 0 where
  type_name : Text → Event
  add_click add_enter : Event
  remove_click : Text → Event

unfoldable pub step : DepartmentsSection → Event → DepartmentsSection × Option (List Text)
step p (type_name t) = (record p { new_dept = t }, none)
step p add_click =
    if not p.is_submitting && truthy (trim p.new_dept) then handle_add p else (p, none)
step p add_enter = handle_add p
step p (remove_click dept) =
    if not p.is_submitting && includes dept p.departments then handle_remove dept p else (p, none)

-- The service's `set_departments`: every name stripped, the empty ones left out, and the first one
-- of each kept. What it stores is what it answers.
unfoldable pub cleaned : List Text → List Text
cleaned names = filter truthy (map strip names)

unfoldable pub first_of_each : List Text → List Text → List Text
first_of_each seen [] = []
first_of_each seen (d ∷ ds) =
    let again = first_of_each seen ds in
    let rest = first_of_each (d ∷ seen) ds in if includes d seen then again else d ∷ rest

unfoldable pub set_departments : List Text → List Text
unfolding cleaned first_of_each
set_departments names = first_of_each [] (cleaned names)

-- The section with the service: the list that is stored, and the requests under way in the order
-- in which they were sent, which is the order in which the service handles them.
pub record System : Type 0 where
  pub section : DepartmentsSection
  pub stored : List Text
  pub pending : List (List Text)

pub data Move : Type 0 where
  user : Event → Move
  -- the service stores the list of the first request and its answer arrives, or it stores nothing
  served : Move
  refused : Text → Move

abbrev pub sent : Option (List Text) → List (List Text)
sent none = []
sent (some names) = names ∷ []

unfoldable pub move : System → Move → System
move s (user e) =
    let r = step s.section e in record s { section = r.0; pending = s.pending ++ sent r.1 }
move s served = elim s.pending [
  | [] ↦ s
  | names ∷ rest ↦ record {
    section = save_done (set_departments names) s.section;
    stored = set_departments names;
    pending = rest;
  }
]
move s (refused text) = elim s.pending [
  | [] ↦ s
  | names ∷ rest ↦ record s { section = save_refused text s.section; pending = rest }
]

unfoldable pub run : System → List Move → System
run s [] = s
run s (m ∷ ms) = run (move s m) ms
