-- ===== src/Reports/Sections.antt =====
-- The sections for exports and for the generation of summaries, and the cells of the report's table
-- (frontend/src/app/reports/page.tsx).
use pwa_attendance_record_sy.Prelude.{
  ℕ, Bool, true, false, not, ◌&&◌, [], ◌∷◌, ◌++◌, Option, none, some, is_some, ltb, length, take,
  if◌then◌else◌,
}
use pwa_attendance_record_sy.Text.{Text, codes, truthy, text_eq?}
use pwa_attendance_record_sy.Text.Decimal.{to_decimal}
use pwa_attendance_record_sy.Messages.{Note, said, Thrown, message_or}
use pwa_attendance_record_sy.Reports.{Params, Filters, Asked, export_params, download_name}

pub data Message : Type 0 where
  success failure : Note → Message

-- `ExportSection`; `format` is what the select holds.
pub record ExportSection : Type 0 where
  pub filters : Filters
  pub format : Text
  pub is_exporting : Bool
  pub message : Option Message

-- `doExport` up to its request: the parameters, and the name that the file will get
unfoldable pub do_export : Asked → ExportSection → ExportSection × Params × Text
do_export asked p = (
  record p { is_exporting = true; message = none },
  export_params asked p.filters,
  download_name asked p.filters,
)

-- The end of `doExport`: the file has been saved, the response was not ok, or the request threw
unfoldable pub export_done : ExportSection → ExportSection
export_done p = record p {
  message = some (success (said (codes "reports.exportSuccess") []));
  is_exporting = false;
}

unfoldable pub export_not_ok : ExportSection → ExportSection
export_not_ok p = record p {
  message = some (failure (said (codes "reports.exportFailed") []));
  is_exporting = false;
}

unfoldable pub export_threw : Thrown → ExportSection → ExportSection
export_threw err p = record p {
  message = some (failure (message_or err (codes "reports.exportFailed")));
  is_exporting = false;
}

-- `GenerateSection`
pub record GenerateSection : Type 0 where
  pub date : Text
  pub is_generating : Bool
  pub message : Option Message

-- `handleGenerate` up to its request, whose path it gives, and its end
unfoldable pub handle_generate : GenerateSection → GenerateSection × Text
handle_generate p = (
  record p { is_generating = true; message = none },
  codes "/api/reports/generate?date=" ++ p.date,
)

unfoldable pub generate_done : ℕ → GenerateSection → GenerateSection
unfolding to_decimal
generate_done count p = record p {
  message =
      some
        (success (said (codes "reports.generateSuccess") ((codes "count", to_decimal count) ∷ [])));
  is_generating = false;
}

unfoldable pub generate_refused : Thrown → GenerateSection → GenerateSection
generate_refused err p = record p {
  message = some (failure (message_or err (codes "reports.generateFailed")));
  is_generating = false;
}

-- `truncate`, with its default of 50 code units
unfoldable pub truncate : ℕ → Option Text → Text
truncate max none = codes "-"
truncate max (some value) =
    if not (truthy value)
    then codes "-"
    else if ltb max (length value)
    then take max value ++ 0x2026 ∷ []
    else value

-- `isSinglePunch`
unfoldable pub is_single_punch : Option Text → Option Text → Bool
is_single_punch first_clock_in last_clock_out =
    is_some first_clock_in && text_eq? first_clock_in last_clock_out
