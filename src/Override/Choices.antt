-- ===== src/Override/Choices.antt =====
-- The choices of the monthly override page (frontend/src/app/dashboard/monthly-override/page.tsx):
-- the departments and employees that HR chooses from, and the leave types.
use pwa_attendance_record_sy.Prelude.{
  List, [], ◌++◌, map, Option, none, some, or_else, filter, if◌then◌else◌,
}
use pwa_attendance_record_sy.Text.{Text, codes, text_eq, truthy}
use pwa_attendance_record_sy.Text.Decimal.{to_decimal, two_digits}
use pwa_attendance_record_sy.Dates.{LocalTime}
use pwa_attendance_record_sy.Types.{Employee}
use pwa_attendance_record_sy.Reports.Options.{unique, sort_texts}
use pwa_attendance_record_sy.Override.Page.{Page}

-- `departments`: those of the employees, without the empty one
unfoldable pub page_departments : List Employee → List Text
page_departments es = sort_texts (unique (filter truthy (map (λ (e : Employee). e.department) es)))

-- `filteredEmployees`
unfoldable pub filtered_employees : Page → List Employee
filtered_employees p =
    if truthy p.selected_department
    then filter (λ (e : Employee). text_eq e.department p.selected_department) p.employees
    else p.employees

-- `handleDepartmentChange`
unfoldable pub handle_department_change : Text → Page → Page
handle_department_change dept p = record p { selected_department = dept; selected_emp_id = [] }

-- The answers of the effects at the start: the leave types (`none` where the answer has no array),
-- and the leave types that still want a late-leave reason
unfoldable pub leave_types_loaded : Option (List Text) → List Text
leave_types_loaded answer = or_else answer []

unfoldable pub required_types_loaded : List Text → Page → Page
required_types_loaded answer p = record p { required_leave_types = answer }

-- `formatSubmittedAt`, of the local components of the time
unfoldable pub format_submitted_at : Option LocalTime → Text
format_submitted_at none = []
format_submitted_at (some d) =
    to_decimal d.year
    ++ (codes "-"
        ++ (two_digits d.month
            ++ (codes "-"
                ++ (two_digits d.date
                    ++ (codes " "
                        ++ (two_digits d.hours ++ (codes ":" ++ two_digits d.minutes)))))))
