-- ===== src/Admin/LeaveTypes.antt =====
-- frontend/src/components/admin/LeaveTypesTab.tsx: the list of leave types. What the user does and
-- what a request brings back are events.
pub mod Laws
use pwa_attendance_record_sy.Prelude.{
  Bool, true, false, not, ◌&&◌, List, [], ◌∷◌, ◌++◌, Option, none, some, filter, is_some, or_else,
  if◌then◌else◌,
}
use pwa_attendance_record_sy.Text.{Text, text_eq, includes, truthy, trim}
use pwa_attendance_record_sy.Admin.Names.{Message, saved, duplicate, failed}

pub record LeaveTypesTab : Type 0 where
  pub leave_types : List Text
  pub new_type : Text
  pub is_loading : Bool
  pub is_submitting : Bool
  pub error : Option Text
  pub message : Option Message

-- `handleAdd`. The function given to `setLeaveTypes` sets the variable `duplicate`; React may run
-- it within the call (`runs_now`), or with the next render, which is after the test of `duplicate`.
unfoldable pub handle_add : Bool → LeaveTypesTab → LeaveTypesTab
handle_add runs_now p =
    let trimmed = trim p.new_type in
    let listed = includes trimmed p.leave_types in
    if not (truthy trimmed)
    then p
    else if runs_now && listed
    then record p { message = some duplicate }
    else record p {
      leave_types = if listed then p.leave_types else p.leave_types ++ trimmed ∷ [];
      new_type = [];
      message = none;
    }

-- `handleRemove`
unfoldable pub handle_remove : Text → LeaveTypesTab → LeaveTypesTab
handle_remove type p = record p {
  leave_types = filter (λ t. not (text_eq t type)) p.leave_types;
  message = none;
}

-- `handleSave`, and what its request brings back
unfoldable pub handle_save : LeaveTypesTab → LeaveTypesTab × Option (List Text)
handle_save p = (record p { is_submitting = true; message = none }, some p.leave_types)

unfoldable pub save_done : List Text → LeaveTypesTab → LeaveTypesTab
save_done answer p = record p { leave_types = answer; message = some saved; is_submitting = false }

unfoldable pub save_refused : Text → LeaveTypesTab → LeaveTypesTab
save_refused text p = record p { message = some (failed text); is_submitting = false }

-- The effect's `load`, ended: the list (`none` where the answer has no array), or an error
unfoldable pub load_done : Option (List Text) → LeaveTypesTab → LeaveTypesTab
load_done answer p = record p { leave_types = or_else answer []; error = none; is_loading = false }

unfoldable pub load_refused : Text → LeaveTypesTab → LeaveTypesTab
load_refused text p = record p { error = some text; is_loading = false }

-- The list and its buttons are shown: loaded, without an error.
unfoldable pub is_shown : LeaveTypesTab → Bool
is_shown p = not p.is_loading && not (is_some p.error)

pub data Event : Type 0 where
  -- the user's; Enter in the input adds too, and no test of the request under way guards it
  type_name : Text → Event
  add_click add_enter : Bool → Event
  remove_click : Text → Event
  save_click : Event
  -- what the requests bring back
  loaded : Option (List Text) → Event
  not_loaded : Text → Event
  stored : List Text → Event
  not_stored : Text → Event

-- A button of the shown list is disabled while a save is under way.
abbrev pub is_clickable : LeaveTypesTab → Bool
is_clickable p = is_shown p && not p.is_submitting

unfoldable pub step : LeaveTypesTab → Event → LeaveTypesTab × Option (List Text)
unfolding is_shown
step p (type_name t) = (if is_shown p then record p { new_type = t } else p, none)
step p (add_click runs_now) = (if is_clickable p then handle_add runs_now p else p, none)
step p (add_enter runs_now) = (if is_shown p then handle_add runs_now p else p, none)
step p (remove_click type) = (if is_clickable p then handle_remove type p else p, none)
step p save_click = if is_clickable p then handle_save p else (p, none)
step p (loaded answer) = (load_done answer p, none)
step p (not_loaded text) = (load_refused text p, none)
step p (stored answer) = (save_done answer p, none)
step p (not_stored text) = (save_refused text p, none)

unfoldable pub run : LeaveTypesTab → List Event → LeaveTypesTab
run p [] = p
run p (e ∷ es) = run (step p e).0 es
