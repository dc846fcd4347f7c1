-- ===== src/Backend/Day/Punches.antt =====
-- The punches of a day after an override (backend/app/services/attendance_service.py).
use pwa_attendance_record_sy.Prelude.{
  ◌≡◌, refl, ◌∙◌, true, List, [], ◌∷◌, ◌++◌, map, Option, none, some,
}
use pwa_attendance_record_sy.Backend.Status.{Clock}
use pwa_attendance_record_sy.Backend.Day.{
  Log, earlier, later, find_first_clock_in, find_last_clock_out, Entry, fresh, has_punch,
  override_logs,
}

abbrev mark : Log → Log
mark l = record l { is_overridden = true }

-- The first and the last of two times, where either may be missing
abbrev pub first_of : Option Clock → Option Clock → Option Clock
first_of none b = b
first_of (some a) b = some (earlier a b)

abbrev pub last_of : Option Clock → Option Clock → Option Clock
last_of none b = b
last_of (some a) b = some (later a b)

find_first-mark :
    (logs rest : List Log) → find_first_clock_in (map mark logs ++ rest) ≡ find_first_clock_in rest
unfolding find_first_clock_in
find_first-mark [] rest = refl
find_first-mark (l ∷ logs) rest = find_first-mark logs rest

find_last-mark :
    (logs rest : List Log) → find_last_clock_out (map mark logs ++ rest) ≡ find_last_clock_out rest
unfolding find_last_clock_out
find_last-mark [] rest = refl
find_last-mark (l ∷ logs) rest = find_last-mark logs rest

find_first-fresh : (a b : Option Clock) → find_first_clock_in (fresh a ++ fresh b) ≡ first_of a b
unfolding find_first_clock_in
find_first-fresh none none = refl
find_first-fresh none (some b) = refl
find_first-fresh (some a) none = refl
find_first-fresh (some a) (some b) = refl

find_last-fresh : (a b : Option Clock) → find_last_clock_out (fresh a ++ fresh b) ≡ last_of a b
unfolding find_last_clock_out
find_last-fresh none none = refl
find_last-fresh none (some b) = refl
find_last-fresh (some a) none = refl
find_last-fresh (some a) (some b) = refl

-- An entry with a punch leaves its own punches only.
pub find_first-override_logs :
    (e : Entry) (logs : List Log)
    → has_punch e ≡ true
    → (find_first_clock_in (override_logs e logs) ≡ first_of e.first_clock_in e.last_clock_out)
      × (find_last_clock_out (override_logs e logs) ≡ last_of e.first_clock_in e.last_clock_out)
unfolding override_logs
find_first-override_logs e logs h =
    let added = fresh e.first_clock_in ++ fresh e.last_clock_out in
    rw h (
      find_first-mark logs added ∙ find_first-fresh e.first_clock_in e.last_clock_out,
      find_last-mark logs added ∙ find_last-fresh e.first_clock_in e.last_clock_out,
    )
