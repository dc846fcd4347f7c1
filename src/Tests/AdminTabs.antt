-- ===== src/Tests/AdminTabs.antt =====
-- The administrator's tabs at concrete lists (frontend/src/components/admin).
use pwa_attendance_record_sy.Prelude.{◌≡◌, refl, true, false, List, [], ◌∷◌, none}
use pwa_attendance_record_sy.Text.{codes, includes, trim, trim_start, trim_end, is_space}
use pwa_attendance_record_sy.Admin.Names.{exchange}
use pwa_attendance_record_sy.Admin.Ranks as Ranks
use pwa_attendance_record_sy.Admin.Ranks.Laws as RanksLaws
use pwa_attendance_record_sy.Admin.LeaveTypes as LeaveTypes

abbrev ranks_tab : Ranks.RanksTab
ranks_tab = record {
  ranks = codes "Manager" ∷ codes "Lead" ∷ codes "Clerk" ∷ [];
  new_rank = [];
  is_loading = false;
  is_submitting = false;
  error = none;
  message = none;
}

abbrev ranks_events : List Ranks.Event
ranks_events =
    Ranks.type_rank (codes " Lead ")
    ∷ Ranks.add_click
    ∷ Ranks.type_rank (codes "Intern")
    ∷ Ranks.add_click
    ∷ Ranks.up_click 3
    ∷ []

ranks_run :
    (Ranks.run ranks_tab ranks_events).ranks
    ≡ codes "Manager" ∷ codes "Lead" ∷ codes "Intern" ∷ codes "Clerk" ∷ []
unfolding Ranks.run Ranks.step Ranks.handle_add Ranks.is_shown Ranks.move_up exchange includes trim
    trim_start trim_end is_space
ranks_run = refl

run-Distinct_example : RanksLaws.Distinct (Ranks.run ranks_tab ranks_events)
unfolding includes
run-Distinct_example =
    RanksLaws.run-Distinct ranks_tab ranks_events (refl, (refl, (refl, tt)))
      (tt, (tt, (tt, (tt, (tt, tt)))))

abbrev leave_tab : LeaveTypes.LeaveTypesTab
leave_tab = record {
  leave_types = codes "sick" ∷ codes "annual" ∷ [];
  new_type = codes " sick";
  is_loading = false;
  is_submitting = false;
  error = none;
  message = none;
}

abbrev leave_events : List LeaveTypes.Event
leave_events =
    LeaveTypes.add_click false
    ∷ LeaveTypes.type_name (codes "marriage")
    ∷ LeaveTypes.add_enter true
    ∷ LeaveTypes.remove_click (codes "sick")
    ∷ []
