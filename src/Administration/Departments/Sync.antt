-- ===== src/Administration/Departments/Sync.antt =====
-- The department section and the service stay in step (frontend/src/app/admin/page.tsx,
-- backend/app/routers/system_config.py).
use pwa_attendance_record_sy.Prelude.{
  ◌≡◌, refl, sym, subst, Bool, true, false, not, ◌&&◌, List, [], ◌∷◌, ◌++◌, none, some, arith,
  if◌then◌else◌, Option,
}
use pwa_attendance_record_sy.Text.{Text, includes, truthy, trim}
use pwa_attendance_record_sy.Administration.Departments.{
  DepartmentsSection, set_departments, System, Move, Event, type_name, add_click, add_enter,
  remove_click, step, handle_add, handle_remove, save_departments, save_done, save_refused, exists,
  user, served, refused, move, sent,
}
use pwa_attendance_record_sy.Administration.Departments.Stored.{
  IsStored, Edited, unchanged, set_departments-Edited_add, set_departments-Edited_remove,
  Edited-IsStored,
}

-- The requests under way: none while the buttons can be clicked, otherwise one, which the service
-- will store as an edit of what it has.
abbrev IsFlight : Bool → List Text → List (List Text) → Type 0
IsFlight submitting stored [] = submitting ≡ false
IsFlight submitting stored (names ∷ []) =
    (submitting ≡ true) × Edited stored (set_departments names)
IsFlight submitting stored (names ∷ more ∷ rest) = ⊥

-- The section shows what the service has stored.
unfoldable pub InSync : System → Type 0
InSync s =
    (s.section.departments ≡ s.stored)
    × IsStored s.stored
    × IsFlight s.section.is_submitting s.stored s.pending

-- Enter is not pressed while a request is under way.
abbrev pub IsCalm : System → Move → Type 0
IsCalm s (user add_enter) = s.section.is_submitting ≡ false
IsCalm s _ = Unit

abbrev pub AreCalm : System → List Move → Type 0
AreCalm s [] = Unit
AreCalm s (m ∷ ms) = IsCalm s m × AreCalm (move s m) ms

-- What a handler leaves behind, where no request was under way.
IsSent : List Text → DepartmentsSection × Option (List Text) → Type 0
IsSent stored (p, none) = (p.departments ≡ stored) × (p.is_submitting ≡ false)
IsSent stored (p, some names) =
    (p.departments ≡ stored) × (p.is_submitting ≡ true) × Edited stored (set_departments names)

IsSent-if :
    (b : Bool) (ds : List Text) (r q : DepartmentsSection × Option (List Text))
    → IsSent ds r
    → IsSent ds q
    → IsSent ds (if b then r else q)
IsSent-if true ds r q h k = h
IsSent-if false ds r q h k = k

handle_add-IsSent :
    (p : DepartmentsSection)
    → IsStored p.departments
    → p.is_submitting ≡ false
    → IsSent p.departments (handle_add p)
unfolding handle_add IsSent
handle_add-IsSent p k h =
    let trimmed = trim p.new_dept in
    let told : DepartmentsSection × Option (List Text) =
      (record p { message = some exists }, none) in
    let saved = save_departments (p.departments ++ trimmed ∷ []) (record p { new_dept = [] }) in
    IsSent-if (not (truthy trimmed)) p.departments (p, none)
      (if includes trimmed p.departments then told else saved) (refl, h)
      (IsSent-if (includes trimmed p.departments) p.departments told saved (refl, h)
        (refl, refl, set_departments-Edited_add p.departments trimmed k))

handle_remove-IsSent :
    (p : DepartmentsSection) (dept : Text)
    → IsStored p.departments
    → IsSent p.departments (handle_remove dept p)
unfolding handle_remove IsSent
handle_remove-IsSent p dept k = (refl, refl, set_departments-Edited_remove p.departments dept k)

step-IsSent :
    (p : DepartmentsSection) (e : Event)
    → IsStored p.departments
    → p.is_submitting ≡ false
    → IsSent p.departments (step p e)
unfolding step
step-IsSent p (type_name t) k h = unfold IsSent in (refl, h)
step-IsSent p add_click k h =
    IsSent-if (not p.is_submitting && truthy (trim p.new_dept)) p.departments (handle_add p)
      (p, none) (handle_add-IsSent p k h) (unfold IsSent in (refl, h))
step-IsSent p add_enter k h = handle_add-IsSent p k h
step-IsSent p (remove_click dept) k h =
    IsSent-if (not p.is_submitting && includes dept p.departments) p.departments
      (handle_remove dept p) (p, none) (handle_remove-IsSent p dept k) (unfold IsSent in (refl, h))

-- With a request under way, the buttons do nothing.
add_click_submitting :
    (p : DepartmentsSection) → p.is_submitting ≡ true → step p add_click ≡ (p, none)
unfolding step
add_click_submitting p h = ground (arith, h)

remove_click_submitting :
    (p : DepartmentsSection) (dept : Text)
    → p.is_submitting ≡ true
    → step p (remove_click dept) ≡ (p, none)
unfolding step
remove_click_submitting p dept h = ground (arith, h)

-- The system after an event that found no request under way
sent-InSync :
    (stored : List Text) (r : DepartmentsSection × Option (List Text))
    → IsStored stored
    → IsSent stored r
    → InSync (record { section = r.0; stored = stored; pending = sent r.1 })
unfolding InSync IsSent
sent-InSync stored (p, none) k (e, h) = (e, k, h)
sent-InSync stored (p, some names) k (e, h, d) = (e, k, (h, d))

user-InSync_idle :
    (p : DepartmentsSection) (stored : List Text) (pending : List (List Text)) (e : Event)
    → p.departments ≡ stored
    → IsStored stored
    → IsFlight p.is_submitting stored pending
    → p.is_submitting ≡ false
    → InSync (move (record { section = p; stored = stored; pending = pending }) (user e))
unfolding move
user-InSync_idle p stored [] e same k f h =
    sent-InSync stored (step p e) k
      (subst (λ ds. IsSent ds (step p e)) same (step-IsSent p e (subst IsStored (sym same) k) h))
user-InSync_idle p stored (names ∷ []) e same k (f, d) h = absurd (ground (arith, f, h))
user-InSync_idle p stored (names ∷ more ∷ rest) e same k f h = absurd f

user-InSync_busy :
    (p : DepartmentsSection) (stored names : List Text) (e : Event)
    → IsCalm (record { section = p; stored = stored; pending = names ∷ [] }) (user e)
    → InSync (record { section = p; stored = stored; pending = names ∷ [] })
    → InSync (move (record { section = p; stored = stored; pending = names ∷ [] }) (user e))
unfolding move InSync
user-InSync_busy p stored names (type_name t) c h = unfold step in h
user-InSync_busy p stored names add_enter c h = absurd (ground (arith, c, h.2.0))
user-InSync_busy p stored names add_click c h = rw (add_click_submitting p h.2.0) h
user-InSync_busy p stored names (remove_click dept) c h =
    rw (remove_click_submitting p dept h.2.0) h

user-InSync :
    (p : DepartmentsSection) (stored : List Text) (pending : List (List Text)) (e : Event)
    → IsCalm (record { section = p; stored = stored; pending = pending }) (user e)
    → InSync (record { section = p; stored = stored; pending = pending })
    → InSync (move (record { section = p; stored = stored; pending = pending }) (user e))
unfolding InSync
user-InSync p stored [] e c (same, k, f) = user-InSync_idle p stored [] e same k f f
user-InSync p stored (names ∷ []) e c h = user-InSync_busy p stored names e c h
user-InSync p stored (names ∷ more ∷ rest) e c h = absurd h.2

pub served-InSync :
    (p : DepartmentsSection) (stored : List Text) (pending : List (List Text))
    → InSync (record { section = p; stored = stored; pending = pending })
    → let t = move (record { section = p; stored = stored; pending = pending }) served in
      InSync t × Edited stored t.stored × (t.pending ≡ [])
unfolding InSync move save_done
served-InSync p stored [] h = (h, unchanged, refl)
served-InSync p stored (names ∷ []) (same, k, (f, d)) = ((refl, Edited-IsStored d k, refl), d, refl)
served-InSync p stored (names ∷ more ∷ rest) h = absurd h.2

pub refused-InSync :
    (p : DepartmentsSection) (stored : List Text) (pending : List (List Text)) (t : Text)
    → InSync (record { section = p; stored = stored; pending = pending })
    → let s = move (record { section = p; stored = stored; pending = pending }) (refused t) in
      InSync s × (s.stored ≡ stored) × (s.pending ≡ [])
unfolding InSync move save_refused
refused-InSync p stored [] t h = (h, refl, refl)
refused-InSync p stored (names ∷ []) t (same, k, (f, d)) = ((same, k, refl), refl, refl)
refused-InSync p stored (names ∷ more ∷ rest) t h = absurd h.2

pub move-InSync :
    (s : System) (m : Move)
    → IsCalm s m
    → InSync s
    → InSync (move s m) × Edited s.stored (move s m).stored
move-InSync s (user e) c h =
    (user-InSync s.section s.stored s.pending e c h, unfold move in unchanged)
move-InSync s served c h = let k = served-InSync s.section s.stored s.pending h in (k.0, k.1)
move-InSync s (refused t) c h =
    let k = refused-InSync s.section s.stored s.pending t h in
    (k.0, subst (λ es. Edited s.stored es) (sym k.1) unchanged)

pub idle_lem :
    (s : System)
    → InSync s
    → s.pending ≡ []
    → (s.section.is_submitting ≡ false) × (s.section.departments ≡ s.stored)
unfolding InSync
idle_lem s (same, k, f) e = (subst (λ q. IsFlight s.section.is_submitting s.stored q) e f, same)
