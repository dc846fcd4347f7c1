-- ===== src/Admin/LeaveTypes/Laws.antt =====
-- The leave types stay free of repetitions, and what the tab tells of a repeated one depends on
-- when React runs an update (frontend/src/components/admin/LeaveTypesTab.tsx).
use pwa_attendance_record_sy.Prelude.{
  ◌≡◌, Bool, true, false, not, ◌&&◌, List, [], ◌∷◌, ◌++◌, none, some, All, if◌then◌else◌,
  Bool-cases, inl, inr,
}
use pwa_attendance_record_sy.Text.{Text, text_eq, includes, truthy, trim}
use pwa_attendance_record_sy.Admin.Names.{
  IsDistinct, IsDistinct-append_last, IsDistinct-filter, duplicate,
}
use pwa_attendance_record_sy.Admin.LeaveTypes.{
  LeaveTypesTab, handle_add, handle_remove, handle_save, save_done, save_refused, load_done,
  load_refused, is_shown, is_clickable, Event, type_name, add_click, add_enter, remove_click,
  save_click, loaded, not_loaded, stored, not_stored, step, run,
}

-- A list that the service answers with has no repetitions.
abbrev pub IsHonest : Event → Type 0
IsHonest (loaded (some types)) = IsDistinct types
IsHonest (stored types) = IsDistinct types
IsHonest _ = Unit

abbrev pub Distinct : LeaveTypesTab → Type 0
Distinct p = IsDistinct p.leave_types

distinct_if :
    (b : Bool) (p q : LeaveTypesTab) → Distinct p → Distinct q → Distinct (if b then p else q)
distinct_if true p q h k = h
distinct_if false p q h k = k

added_once :
    (name : Text) (types : List Text)
    → IsDistinct types
    → IsDistinct (if includes name types then types else types ++ name ∷ [])
added_once name types h = elim (Bool-cases (includes name types)) [
  | inl listed ↦ rw listed h
  | inr new ↦ rw new (IsDistinct-append_last name types new h)
]

handle_add-Distinct :
    (runs_now : Bool) (p : LeaveTypesTab) → Distinct p → Distinct (handle_add runs_now p)
unfolding handle_add
handle_add-Distinct runs_now p h =
    let trimmed = trim p.new_type in
    let listed = includes trimmed p.leave_types in
    let told = record p { message = some duplicate } in
    let added = record p {
      leave_types = if listed then p.leave_types else p.leave_types ++ trimmed ∷ [];
      new_type = [];
      message = none;
    } in
    distinct_if (not (truthy trimmed)) p (if runs_now && listed then told else added) h
      (distinct_if (runs_now && listed) told added h (added_once trimmed p.leave_types h))

save_click-Distinct : (p : LeaveTypesTab) → Distinct p → Distinct (step p save_click).0
unfolding step handle_save
save_click-Distinct p h = elim (Bool-cases (is_clickable p)) [ inl e ↦ rw e h | inr e ↦ rw e h ]

step-Distinct : (p : LeaveTypesTab) (e : Event) → IsHonest e → Distinct p → Distinct (step p e).0
unfolding step handle_remove save_done load_done load_refused save_refused
step-Distinct p (type_name t) a h = distinct_if (is_shown p) (record p { new_type = t }) p h h
step-Distinct p (add_click now) a h =
    distinct_if (is_clickable p) (handle_add now p) p (handle_add-Distinct now p h) h
step-Distinct p (add_enter now) a h =
    distinct_if (is_shown p) (handle_add now p) p (handle_add-Distinct now p h) h
step-Distinct p (remove_click type) a h =
    distinct_if (is_clickable p) (handle_remove type p) p
      (IsDistinct-filter (λ t. not (text_eq t type)) p.leave_types h) h
step-Distinct p save_click a h = save_click-Distinct p h
step-Distinct p (loaded none) a h = tt
step-Distinct p (loaded (some types)) a h = a
step-Distinct p (not_loaded t) a h = h
step-Distinct p (stored types) a h = a
step-Distinct p (not_stored t) a h = h

-- Whatever the user does, whenever React runs the updates, and as long as the service answers with
-- lists free of repetitions, no leave type is listed twice.
pub run-IsDistinct :
    (p : LeaveTypesTab) (es : List Event) → Distinct p → All IsHonest es → Distinct (run p es)
unfolding run
run-IsDistinct p [] h a = h
run-IsDistinct p (e ∷ es) h (a, rest) = run-IsDistinct (step p e).0 es (step-Distinct p e a h) rest

-- Adding a leave type that is listed already changes the list in no case. Where React runs the
-- update within the call, the tab says that it is a duplicate and keeps the input; where React
-- runs it with the next render, the tab says nothing and empties the input.
pub handle_add_duplicate :
    (p : LeaveTypesTab)
    → truthy (trim p.new_type) ≡ true
    → includes (trim p.new_type) p.leave_types ≡ true
    → (handle_add true p ≡ record p { message = some duplicate })
      × (handle_add false p ≡ record p { new_type = []; message = none })
unfolding handle_add
handle_add_duplicate p t listed = (simp (t, listed), simp (t, listed))
