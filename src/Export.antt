-- ===== src/Export.antt =====
-- frontend/src/lib/exportFilename.ts: the names of exported files.
pub mod Laws
use pwa_attendance_record_sy.Prelude.{
  ℕ, Bool, true, false, not, ◌||◌, List, [], ◌∷◌, ◌++◌, Option, none, some, ◌==◌, field_of, or_else,
  if◌then◌else◌,
}
use pwa_attendance_record_sy.Text.{Text, codes, is_space, trim, truthy?, truthy, join}

pub data ExportFormat : Type 0 where
  csv xlsx json : ExportFormat

unfoldable pub format_text : ExportFormat → Text
format_text csv = codes "csv"
format_text xlsx = codes "xlsx"
format_text json = codes "json"

pub record ExportParams : Type 0 where
  pub format : ExportFormat
  pub start_date : Text
  pub end_date : Text
  pub emp_id : Option Text
  pub emp_name : Option Text
  pub department : Option Text

-- The class of `INVALID_CHARS_RE`: white space and / \ : * ? " < > |
unfoldable pub is_invalid : ℕ → Bool
is_invalid c =
    is_space c
    || c == b'/'
    || c == b'\\'
    || c == b':'
    || c == b'*'
    || c == b'?'
    || c == b'"'
    || c == b'<'
    || c == b'>'
    || c == b'|'

abbrev pub is_dash : ℕ → Bool
is_dash c = c == b'-'

-- The text begins with a character of the class.
abbrev pub begins : (ℕ → Bool) → Text → Bool
begins p [] = false
begins p (c ∷ s) = p c

-- `s.replace(/[p]+/g, "-")`: of each run, the last character becomes the dash.
unfoldable pub replace_runs : (ℕ → Bool) → Text → Text
replace_runs p [] = []
replace_runs p (c ∷ s) =
    let rest = replace_runs p s in
    if not (p c) then c ∷ rest else if begins p s then rest else b'-' ∷ rest

-- `s.replace(/^-+|-+$/g, "")`
unfoldable pub strip_start : Text → Text
strip_start [] = []
strip_start (c ∷ s) = let rest = strip_start s in if is_dash c then rest else c ∷ s

unfoldable pub strip_end : Text → Text
strip_end [] = []
strip_end (c ∷ s) =
    let rest = strip_end s in if is_dash c then (if truthy rest then c ∷ rest else []) else c ∷ rest

unfoldable pub sanitize : Text → Text
sanitize part = strip_end (strip_start (replace_runs is_dash (replace_runs is_invalid part)))

-- The parts of the name between the first one and the dates
unfoldable pub subject_parts : ExportParams → List Text
subject_parts p =
    let emp_id = field_of trim p.emp_id in
    let emp_name = field_of trim p.emp_name in
    let department = field_of trim p.department in
    if truthy? emp_id
    then sanitize (or_else emp_id [])
      ∷ (if truthy? emp_name then sanitize (or_else emp_name []) ∷ [] else [])
    else if truthy? department
    then sanitize (or_else department []) ∷ []
    else []

unfoldable pub build_export_filename : ExportParams → Text
unfolding subject_parts
build_export_filename p =
    join (codes "_")
      (codes "attendance_report" ∷ (subject_parts p ++ p.start_date ∷ p.end_date ∷ []))
    ++ (b'.' ∷ format_text p.format)
