-- ===== src/Admin/Ranks.antt =====
-- frontend/src/components/admin/RanksTab.tsx: the ordered list of ranks. What the user does and
-- what a request brings back are events.
pub mod Laws
use pwa_attendance_record_sy.Prelude.{
  ℕ, zero, suc, ◌+◌, ◌-◌, Bool, true, false, not, ◌&&◌, ◌||◌, List, [], ◌∷◌, ◌++◌, Option, none,
  some, filter, ltb, ◌==◌, leb, length, is_some, or_else, if◌then◌else◌,
}
use pwa_attendance_record_sy.Text.{Text, text_eq, includes, truthy, trim}
use pwa_attendance_record_sy.Admin.Names.{Message, saved, duplicate, failed, exchange}

pub record RanksTab : Type 0 where
  pub ranks : List Text
  pub new_rank : Text
  pub is_loading : Bool
  pub is_submitting : Bool
  pub error : Option Text
  pub message : Option Message

-- `handleAdd`
unfoldable pub handle_add : RanksTab → RanksTab
handle_add p =
    let trimmed = trim p.new_rank in
    if not (truthy trimmed)
    then p
    else if includes trimmed p.ranks
    then record p { message = some duplicate }
    else record p { ranks = p.ranks ++ trimmed ∷ []; new_rank = []; message = none }

-- `handleRemove`
unfoldable pub handle_remove : Text → RanksTab → RanksTab
handle_remove rank p = record p {
  ranks = filter (λ r. not (text_eq r rank)) p.ranks;
  message = none;
}

-- `move(index, -1)` and `move(index, 1)`, for the index of a rank
unfoldable pub move_up : ℕ → List Text → List Text
move_up zero ranks = ranks
move_up (suc i) ranks = if leb (length ranks) i then ranks else exchange (suc i) i ranks

unfoldable pub move_down : ℕ → List Text → List Text
move_down index ranks =
    if leb (length ranks) (suc index) then ranks else exchange index (suc index) ranks

-- `handleSave`, and what its request brings back
unfoldable pub handle_save : RanksTab → RanksTab × Option (List Text)
handle_save p = (record p { is_submitting = true; message = none }, some p.ranks)

unfoldable pub save_done : List Text → RanksTab → RanksTab
save_done answer p = record p { ranks = answer; message = some saved; is_submitting = false }

unfoldable pub save_refused : Text → RanksTab → RanksTab
save_refused text p = record p { message = some (failed text); is_submitting = false }

-- The effect's `load`, ended: the list (`none` where the answer has no array), or an error
unfoldable pub load_done : Option (List Text) → RanksTab → RanksTab
load_done answer p = record p { ranks = or_else answer []; error = none; is_loading = false }

unfoldable pub load_refused : Text → RanksTab → RanksTab
load_refused text p = record p { error = some text; is_loading = false }

-- The list and its buttons are shown: loaded, without an error.
unfoldable pub is_shown : RanksTab → Bool
is_shown p = not p.is_loading && not (is_some p.error)

pub data Event : Type 0 where
  -- the user's; Enter in the input adds too, and no test of the request under way guards it
  type_rank : Text → Event
  add_click add_enter : Event
  remove_click : Text → Event
  up_click down_click : ℕ → Event
  save_click : Event
  -- what the requests bring back
  loaded : Option (List Text) → Event
  not_loaded : Text → Event
  stored : List Text → Event
  not_stored : Text → Event

-- A click on a button of the shown list, which is disabled while a save is under way
abbrev pub on_click : RanksTab → RanksTab → RanksTab
on_click p q = if is_shown p && not p.is_submitting then q else p

unfoldable pub step : RanksTab → Event → RanksTab × Option (List Text)
unfolding is_shown handle_add handle_remove handle_save save_done save_refused load_done
    load_refused
step p (type_rank t) = (if is_shown p then record p { new_rank = t } else p, none)
step p add_click = (on_click p (handle_add p), none)
step p add_enter = (if is_shown p then handle_add p else p, none)
step p (remove_click rank) = (on_click p (handle_remove rank p), none)
step p (up_click index) = (
  on_click p (
      if index == 0 || leb (length p.ranks) index
      then p
      else record p { ranks = move_up index p.ranks; message = none }),
  none,
)
step p (down_click index) = (
  on_click p (
      if leb (length p.ranks) (suc index)
      then p
      else record p { ranks = move_down index p.ranks; message = none }),
  none,
)
step p save_click = if is_shown p && not p.is_submitting then handle_save p else (p, none)
step p (loaded answer) = (load_done answer p, none)
step p (not_loaded text) = (load_refused text p, none)
step p (stored answer) = (save_done answer p, none)
step p (not_stored text) = (save_refused text p, none)

unfoldable pub run : RanksTab → List Event → RanksTab
run p [] = p
run p (e ∷ es) = run (step p e).0 es
