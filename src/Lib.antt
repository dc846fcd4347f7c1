-- ===== src/Lib.antt =====
-- The web client of the attendance record system (frontend/src, TypeScript): the calendar and its
-- day kinds, the monthly override page, the punch page, the administration page, the attendance and
-- team pages, the dashboard, the filters of reports and exports, the login and the change of a
-- password, the API client and the languages, with the rules of the service (backend/app, Python)
-- that the client mirrors or is checked with.
--
-- The parts and their files.
-- - Prelude: Boolean tests, lists, options. Text: a string is the list of its UTF-16 code units;
--   `===`, `<`, trim, slice, split, padStart, String(n) and a map by strings.
-- - Dates: the calendar of `Date` (leap years, days since the first day of year 1, weekdays), and
--   frontend/src/lib/date.ts; Dates.Months has the month navigation of the override page.
-- - DayKinds: frontend/src/lib/day-kind.ts. The browser's time zone is an offset in minutes from
--   UTC, the same all year; a date string is read as midnight UTC, as `new Date` does.
-- - Backend: classify_day_kind, _weekday_fallback and the entries of /api/config/workdays
--   (backend/app/utils/taiwan_calendar.py, backend/app/routers/system_config.py), and the rule of
--   find_missing_late_reason_dates (backend/app/services/monthly_submission_service.py) on one
--   summary. They are the reference that the client's rules are compared with. Backend.Status has
--   calculate_status (backend/app/services/reporting_service.py); Backend.Day what the service keeps
--   of one employee's day, with the override of an entry
--   (backend/app/services/attendance_service.py), the recalculation and the daily report
--   (backend/app/services/reporting_service.py) over the repositories; Backend.Request the validation
--   of an entry (backend/app/schemas/bulk_override.py). Override.Saved puts them together with the
--   page: a row that is saved, stored and loaded again. Backend.Punch is the live punch on that day
--   and the acceptance of a reason (backend/app/services/reason_service.py); Backend.Punch.Prompt
--   compares it with what the punch page asks and with the gate of the month's submission.
--   Backend.History is the loop of get_history over the dates of a range
--   (backend/app/repositories/attendance_repository.py has the query of one date), whose fuel is one
--   more than the number of the dates; Backend.History.Range shows that this is enough.
-- - Types: the types of frontend/src/types/index.ts that the pages use.
-- - Override: frontend/src/app/dashboard/monthly-override/page.tsx. Override has the rows and the
--   rules on a row, Override.Edit the inputs, Override.Save the comparison with the loaded rows,
--   Override.Page the state and the handlers, Override.Page.Step the events with the guards of
--   the controls. The user's actions, the effects and the answers of requests are events, so that
--   every interleaving of them is a list of events; a step gives the new state and the request
--   that it sends, if any. Override.Status has the effect that loads the submission status and the
--   submission that reads it back, and Override.Choices the departments, employees and leave types
--   that the page offers.
--   Override.Dialogs has the dialogs of the page (frontend/src/components/WarningModal.tsx,
--   OvertimePunchModal.tsx, LateReasonMissingModal.tsx): a gesture of the user gives the calls of
--   the dialogs, and these the events of Override.Page.Step.
--   Override.View is what the page shows: the cells of the table with their inputs, the badges and
--   the buttons. Override.View.Accepted compares what can be entered in the inputs with the
--   service's validation.
-- - Punch: frontend/src/app/punch/page.tsx and frontend/src/hooks/useGeolocation.ts, in the same
--   way; the time of day is the argument of a click. Punch.View is what the page shows, whose
--   controls guard the events of Punch.Step; Punch.Reasons is about the reasons that it sends.
--   Punch.ReasonDialog: the dialog of frontend/src/components/LateLeaveReasonModal.tsx.
-- - Admin: the tabs of frontend/src/components/admin in which an administrator edits a list of
--   names: Admin.Ranks (RanksTab.tsx) and Admin.LeaveTypes (LeaveTypesTab.tsx), over the lists of
--   Admin.Names.
--   Admin.Toggle has the two switches, OrgScopingSection.tsx and OverrideLockSection.tsx, with the
--   setting that the service stores.
-- - Administration: frontend/src/app/admin/page.tsx, with a child for each section of the page:
--   Administration.Departments, Administration.Employees, Administration.Settings (the grace period
--   and the list of settings) and Administration.Calendars. The department section stands with
--   set_departments of backend/app/routers/system_config.py as one system, whose moves are the
--   user's events and the service's answers; Administration.Departments.Sync keeps both in step and
--   Administration.Departments.Refines compares them with a list edited by one name at a time.
--   Administration.Employees.Form follows the edit form to what update_employee
--   (backend/app/services/employee_service.py, backend/app/repositories/employee_repository.py)
--   makes of it. Administration.Location is the form for the office location: parseFloat reads the
--   longest numeral that a text begins with, and the number is carried as that decimal, whose
--   comparison with a bound is that of the double nearest to it.
-- - Messages: what the pages make of an error that a request threw.
-- - Attendance: frontend/src/app/attendance/page.tsx; Attendance.Order has the loads under way, whose
--   answers may come in any order. Attendance.View is what the page shows, Attendance.View.Dates its
--   column of dates.
-- - Dashboard: frontend/src/app/dashboard/page.tsx, over the hook of Hooks.WebAuthn
--   (frontend/src/hooks/useWebAuthn.ts). Hooks.MyProfile: frontend/src/hooks/useMyProfile.ts.
-- - Password: frontend/src/components/ChangePasswordForm.tsx and its schema in
--   frontend/src/lib/validators.ts; Password.Service has the rules and answers of the service
--   (backend/app/utils/password.py, backend/app/services/employee_service.py,
--   backend/app/routers/auth.py, backend/app/middleware/rate_limiter.py).
-- - Export: frontend/src/lib/exportFilename.ts.
-- - Reports: frontend/src/app/reports/page.tsx, its filters, lists and requests; Reports.Options
--   has the departments to choose from, Reports.Effects the renders of the daily report with the
--   requests that their effects send, Reports.Sections the exports and the generation,
--   Reports.View what the page shows, with Reports.View.Offered on the values of its selects.
-- - Team: frontend/src/app/team/page.tsx, the status that its table shows of a day.
--   Team.View is what the page shows. Labels: the badges and times that three of the tables share.
-- - Login: frontend/src/app/login/page.tsx and frontend/src/lib/lastEmpId.ts.
-- - I18n: frontend/src/lib/i18n.tsx, over the JSON values of Api.Values; I18n.Switcher:
--   frontend/src/components/LanguageSwitcher.tsx.
-- - Api: frontend/src/lib/api.ts, the call that a method makes and what a response becomes, over
--   the JSON values of Api.Values; Api.Wrappers has the calls of frontend/src/lib/api.
-- - Auth: frontend/src/lib/auth-context.tsx. The token that it stores is the one that Api's calls
--   take from the store. Auth.Home: frontend/src/app/page.tsx.
-- The two pages share Types, DayKinds, the day-kind test and the "HH:MM" texts of Text.Decimal.
--
-- Conventions. Numbers that the pages compute with are natural; overtime hours are tenths or NaN.
-- Coordinates are carried as numerals. `undefined` and null are `none` where the code does not
-- tell them apart. The lookup of an original row by index is an Option, and a missing row is the
-- TypeError that the code would raise. Decimal printing recurses on fuel, the number itself plus
-- one, which is more than its digits. What lies outside the client is an argument: the decoding of
-- a token's payload (Auth), the parse by a schema (Login, Password), the parsed body of a response
-- (Api), the answers of the browser's authenticator (Hooks.WebAuthn), what a browser picks of a
-- select without its default (Administration.Employees.Form), and the moment at which React runs the
-- update that a handler has asked for (Admin.LeaveTypes). A translated message is a constructor of
-- its own, or its key with its parameters (Messages).
--
-- Not modelled: the service apart from those rules, rendering (of the override, punch, reports,
-- attendance and team pages only the layout, colours and fixed texts), the translation texts, the
-- columns of locations (they print floating-point numbers), the focus in the dialogs and the order
-- in which they lie over each other, the schemas that no page parses with, and the service worker,
-- manifest and layout.
pub mod Prelude
pub mod Text
pub mod Dates
pub mod DayKinds
pub mod Backend
pub mod Types
pub mod Override
pub mod Punch
pub mod Api
pub mod Auth
pub mod Admin
pub mod Export
pub mod Reports
pub mod Team
pub mod Login
pub mod I18n
pub mod Messages
pub mod Labels
pub mod Administration
pub mod Attendance
pub mod Hooks
pub mod Dashboard
pub mod Password
mod Tests
