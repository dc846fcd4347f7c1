-- ===== src/Admin/Toggle/Laws.antt =====
-- The switches of frontend/src/components/admin show what the service stores.
use pwa_attendance_record_sy.Prelude.{◌≡◌, refl, ap, Bool, true, false, not, List, [], ◌∷◌}
use pwa_attendance_record_sy.Messages.{Thrown}
use pwa_attendance_record_sy.Admin.Toggle.{
  Switch, Toggle, click, handle_toggle, toggle_done, toggle_refused, System, Move, clicked, served,
  refused, move, run,
}

-- No request is under way and the switch can be clicked, or one is, for the other position.
abbrev IsFlight : Bool → Bool → List Bool → Type 0
IsFlight submitting stored [] = submitting ≡ false
IsFlight submitting stored (next ∷ []) = (submitting ≡ true) × (next ≡ not stored)
IsFlight submitting stored (next ∷ more ∷ rest) = ⊥

-- The switch is loaded and shows the stored setting.
unfoldable pub IsShown : System → Type 0
IsShown s =
    (s.toggle.is_loading ≡ false)
    × (s.toggle.enabled ≡ s.stored)
    × IsFlight s.toggle.is_submitting s.stored s.pending

clicked-IsShown :
    (switch : Switch) (p : Toggle) (stored : Bool) (pending : List Bool)
    → IsShown (record { toggle = p; stored = stored; pending = pending })
    → IsShown (move switch (record { toggle = p; stored = stored; pending = pending }) clicked)
unfolding IsShown move click handle_toggle
clicked-IsShown switch p stored [] (l, e, f) = simp (l, f) (refl, e, (refl, ap not e))
clicked-IsShown switch p stored (next ∷ []) (l, e, f) = simp (l, f.0) (refl, e, (refl, f.1))
clicked-IsShown switch p stored (next ∷ more ∷ rest) (l, e, f) = absurd f

served-IsShown :
    (switch : Switch) (p : Toggle) (stored : Bool) (pending : List Bool)
    → IsShown (record { toggle = p; stored = stored; pending = pending })
    → IsShown (move switch (record { toggle = p; stored = stored; pending = pending }) served)
unfolding IsShown move toggle_done
served-IsShown switch p stored [] h = h
served-IsShown switch p stored (next ∷ []) (l, e, f) = (l, refl, refl)
served-IsShown switch p stored (next ∷ more ∷ rest) (l, e, f) = absurd f

refused-IsShown :
    (switch : Switch) (p : Toggle) (stored : Bool) (pending : List Bool) (err : Thrown)
    → IsShown (record { toggle = p; stored = stored; pending = pending })
    → IsShown
        (move switch (record { toggle = p; stored = stored; pending = pending }) (refused err))
unfolding IsShown move toggle_refused
refused-IsShown switch p stored [] err h = h
refused-IsShown switch p stored (next ∷ []) err (l, e, f) = (l, e, refl)
refused-IsShown switch p stored (next ∷ more ∷ rest) err (l, e, f) = absurd f

move-IsShown : (switch : Switch) (s : System) (m : Move) → IsShown s → IsShown (move switch s m)
move-IsShown switch s clicked h = clicked-IsShown switch s.toggle s.stored s.pending h
move-IsShown switch s served h = served-IsShown switch s.toggle s.stored s.pending h
move-IsShown switch s (refused err) h = refused-IsShown switch s.toggle s.stored s.pending err h

-- However often a switch that is loaded and shows the stored setting is clicked, and whichever
-- requests the service refuses, it goes on to show the setting that the service stores; at most one
-- request is under way, and it asks for the other position.
pub run-IsShown :
    (switch : Switch) (s : System) (ms : List Move) → IsShown s → IsShown (run switch s ms)
unfolding run
run-IsShown switch s [] h = h
run-IsShown switch s (m ∷ ms) h =
    run-IsShown switch (move switch s m) ms (move-IsShown switch s m h)
