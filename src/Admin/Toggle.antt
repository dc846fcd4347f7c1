-- ===== src/Admin/Toggle.antt =====
-- frontend/src/components/admin/OrgScopingSection.tsx and OverrideLockSection.tsx: two switches that
-- differ in the setting that they read and write, and in their texts.
pub mod Laws
use pwa_attendance_record_sy.Prelude.{
  Bool, true, false, not, ◌&&◌, List, [], ◌∷◌, ◌++◌, Option, none, some, or_else, if◌then◌else◌,
}
use pwa_attendance_record_sy.Text.{Text, codes}
use pwa_attendance_record_sy.Messages.{Note, said, Thrown, message_or}

pub data Switch : Type 0 where
  org_scoping override_lock : Switch

unfoldable pub saved_key : Switch → Text
saved_key org_scoping = codes "admin.orgScopingSaved"
saved_key override_lock = codes "admin.overrideLockSaved"

unfoldable pub error_key : Switch → Text
error_key org_scoping = codes "admin.orgScopingSaveError"
error_key override_lock = codes "admin.overrideLockSaveError"

-- The path of `orgScopingApi` and of `overrideLockApi`
unfoldable pub path_of : Switch → Text
path_of org_scoping = codes "/api/admin/org-scoping"
path_of override_lock = codes "/api/admin/override-lock"

pub data Message : Type 0 where
  success failure : Note → Message

pub record Toggle : Type 0 where
  pub enabled : Bool
  pub is_loading : Bool
  pub is_submitting : Bool
  pub message : Option Message

-- The effect's request, ended: the setting, `none` where the answer has none
unfoldable pub load_done : Option Bool → Toggle → Toggle
load_done answer p = record p { enabled = or_else answer false; is_loading = false }

unfoldable pub load_failed : Toggle → Toggle
load_failed p = record p { is_loading = false }

-- `handleToggle` up to its request, and what it brings back
unfoldable pub handle_toggle : Bool → Toggle → Toggle × Option Bool
handle_toggle next p = (record p { is_submitting = true; message = none }, some next)

unfoldable pub toggle_done : Switch → Bool → Toggle → Toggle
unfolding saved_key
toggle_done switch answer p = record p {
  enabled = answer;
  message = some (success (said (saved_key switch) []));
  is_submitting = false;
}

unfoldable pub toggle_refused : Switch → Thrown → Toggle → Toggle
unfolding error_key
toggle_refused switch err p = record p {
  message = some (failure (message_or err (error_key switch)));
  is_submitting = false;
}

-- A click on the switch, which is hidden until it is loaded and disabled during a request
unfoldable pub click : Toggle → Toggle × Option Bool
unfolding handle_toggle
click p =
    if not p.is_loading && not p.is_submitting then handle_toggle (not p.enabled) p else (p, none)

-- The switch with the service: the setting that is stored, and the requests under way
pub record System : Type 0 where
  pub toggle : Toggle
  pub stored : Bool
  pub pending : List Bool

pub data Move : Type 0 where
  clicked : Move
  -- the service stores what the first request asks for and its answer arrives, or stores nothing
  served : Move
  refused : Thrown → Move

abbrev sent : Option Bool → List Bool
sent none = []
sent (some next) = next ∷ []

unfoldable pub move : Switch → System → Move → System
unfolding click toggle_done toggle_refused
move switch s clicked =
    let r = click s.toggle in record s { toggle = r.0; pending = s.pending ++ sent r.1 }
move switch s served = elim s.pending [
  | [] ↦ s
  | next ∷ rest ↦ record {
    toggle = toggle_done switch next s.toggle;
    stored = next;
    pending = rest;
  }
]
move switch s (refused err) = elim s.pending [
  | [] ↦ s
  | next ∷ rest ↦ record s { toggle = toggle_refused switch err s.toggle; pending = rest }
]

unfoldable pub run : Switch → System → List Move → System
run switch s [] = s
run switch s (m ∷ ms) = run switch (move switch s m) ms
