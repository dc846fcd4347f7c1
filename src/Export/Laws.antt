-- ===== src/Export/Laws.antt =====
-- No file name has a forbidden character, and sanitising is done in one pass
-- (frontend/src/lib/exportFilename.ts).
use pwa_attendance_record_sy.Prelude.{
  ℕ, ◌≡◌, refl, ◌∙◌, Bool, true, false, not, ◌&&◌, List, [], ◌∷◌, ◌++◌, Option, arith, all, All,
  all-append, field_of, or_else, if◌then◌else◌,
}
use pwa_attendance_record_sy.Text.{Text, codes, is_space, trim, join, truthy?}
use pwa_attendance_record_sy.Export.{
  is_invalid, is_dash, begins, replace_runs, strip_start, strip_end, sanitize, ExportParams,
  subject_parts, build_export_filename, format_text, csv, xlsx, json, ExportFormat,
}

-- No character is in the class.
abbrev pub Without : (ℕ → Bool) → Text → Type 0
Without p s = all (λ c. not (p c)) s ≡ true

module _ (p : ℕ → Bool) where
  -- Where the dash is outside the class, no character of the class is left.
  replace_runs-Without : p b'-' ≡ false → (s : Text) → Without p (replace_runs p s)
  unfolding replace_runs
  replace_runs-Without d [] = refl
  replace_runs-Without d (c ∷ s) = ground (arith, replace_runs-Without d s)

  -- A dash for a run of another class brings no character of the class.
  replace_runs-keeps :
      (q : ℕ → Bool) → p b'-' ≡ false → (s : Text) → Without p s → Without p (replace_runs q s)
  unfolding replace_runs
  replace_runs-keeps q d [] h = refl
  replace_runs-keeps q d (c ∷ s) h = ground (arith, replace_runs-keeps q d s)

  strip_start-keeps : (s : Text) → Without p s → Without p (strip_start s)
  unfolding strip_start
  strip_start-keeps [] h = refl
  strip_start-keeps (c ∷ s) h = ground (arith, strip_start-keeps s)

  strip_end-keeps : (s : Text) → Without p s → Without p (strip_end s)
  unfolding strip_end
  strip_end-keeps [] h = refl
  strip_end-keeps (c ∷ s) h = ground (arith, strip_end-keeps s)

  join-Without :
      (sep : Text) (parts : List Text)
      → Without p sep
      → All (Without p) parts
      → Without p (join sep parts)
  unfolding join
  join-Without sep [] h a = refl
  join-Without sep (s ∷ []) h a = a.0
  join-Without sep (s ∷ t ∷ parts) h (a, rest) = ground (
    arith,
    all-append (λ c. not (p c)) s (sep ++ join sep (t ∷ parts)),
    all-append (λ c. not (p c)) sep (join sep (t ∷ parts)),
    join-Without sep (t ∷ parts) h rest,
  )

dash_valid : is_invalid b'-' ≡ false
unfolding is_invalid is_space
dash_valid = refl

sanitize-Without : (part : Text) → Without is_invalid (sanitize part)
unfolding sanitize
sanitize-Without part =
    let replaced = replace_runs is_invalid part in
    let valid = replace_runs-Without is_invalid dash_valid part in
    let collapsed = replace_runs-keeps is_invalid is_dash dash_valid replaced valid in
    strip_end-keeps is_invalid (strip_start (replace_runs is_dash replaced))
      (strip_start-keeps is_invalid (replace_runs is_dash replaced) collapsed)

-- A list of parts before the dates
valid_before_dates :
    (parts : List Text) (start_date end_date : Text)
    → All (Without is_invalid) parts
    → Without is_invalid start_date
    → Without is_invalid end_date
    → All (Without is_invalid) (parts ++ start_date ∷ end_date ∷ [])
valid_before_dates [] s e a h k = (h, (k, tt))
valid_before_dates (part ∷ parts) s e (a, rest) h k = (a, valid_before_dates parts s e rest h k)

valid_if :
    (b : Bool) (xs ys : List Text)
    → All (Without is_invalid) xs
    → All (Without is_invalid) ys
    → All (Without is_invalid) (if b then xs else ys)
valid_if true xs ys h k = h
valid_if false xs ys h k = k

underscore-Without : Without is_invalid (codes "_")
unfolding is_invalid is_space
underscore-Without = refl

title-Without : Without is_invalid (codes "attendance_report")
unfolding is_invalid is_space
title-Without = refl

subject_parts-Without : (p : ExportParams) → All (Without is_invalid) (subject_parts p)
unfolding subject_parts
subject_parts-Without p =
    let emp_id = field_of trim p.emp_id in
    let emp_name = field_of trim p.emp_name in
    let department = field_of trim p.department in
    let valid = λ (s : Option Text). sanitize-Without (or_else s []) in
    valid_if (truthy? emp_id)
      (sanitize (or_else emp_id [])
        ∷ (if truthy? emp_name then sanitize (or_else emp_name []) ∷ [] else []))
      (if truthy? department then sanitize (or_else department []) ∷ [] else [])
      (
        valid emp_id,
        valid_if (truthy? emp_name) (sanitize (or_else emp_name []) ∷ []) [] (valid emp_name, tt)
            tt,
      )
      (valid_if (truthy? department) (sanitize (or_else department []) ∷ []) []
        (valid department, tt) tt)

format-Without : (f : ExportFormat) → Without is_invalid (b'.' ∷ format_text f)
unfolding format_text is_invalid is_space
format-Without csv = refl
format-Without xlsx = refl
format-Without json = refl

-- Whatever the employee, the name and the department are called, the name of an exported file has
-- no white space and none of / \ : * ? " < > |, where the two dates have none.
pub build_export_filename-Without :
    (p : ExportParams)
    → Without is_invalid p.start_date
    → Without is_invalid p.end_date
    → Without is_invalid (build_export_filename p)
unfolding build_export_filename
build_export_filename-Without p h k =
    let parts = subject_parts p ++ p.start_date ∷ p.end_date ∷ [] in
    let valid =
      valid_before_dates (subject_parts p) p.start_date p.end_date (subject_parts-Without p) h k in
    let whole =
      join-Without is_invalid (codes "_") (codes "attendance_report" ∷ parts) underscore-Without
        (title-Without, valid) in
    ground (
      arith,
      all-append (λ c. not (is_invalid c)) (join (codes "_") (codes "attendance_report" ∷ parts))
          (b'.' ∷ format_text p.format),
      format-Without p.format,
      whole,
    )

replace_runs_of_Without : (p : ℕ → Bool) (s : Text) → Without p s → replace_runs p s ≡ s
unfolding replace_runs
replace_runs_of_Without p [] h = refl
replace_runs_of_Without p (c ∷ s) h = ground (arith, replace_runs_of_Without p s)

-- No dash stands behind a dash.
abbrev pub has_single_dashes : Text → Bool
has_single_dashes [] = true
has_single_dashes (c ∷ s) = not (is_dash c && begins is_dash s) && has_single_dashes s

replace_runs_single : (s : Text) → has_single_dashes s ≡ true → replace_runs is_dash s ≡ s
unfolding replace_runs
replace_runs_single [] h = refl
replace_runs_single (c ∷ s) h = ground (arith, replace_runs_single s)

begins-replace_runs : (s : Text) → begins is_dash (replace_runs is_dash s) ≡ begins is_dash s
unfolding replace_runs
begins-replace_runs [] = refl
begins-replace_runs (c ∷ s) = ground (arith, begins-replace_runs s)

replace_runs-single : (s : Text) → has_single_dashes (replace_runs is_dash s) ≡ true
unfolding replace_runs
replace_runs-single [] = refl
replace_runs-single (c ∷ s) = ground (arith, replace_runs-single s, begins-replace_runs s)

strip_start-single :
    (s : Text) → has_single_dashes s ≡ true → has_single_dashes (strip_start s) ≡ true
unfolding strip_start
strip_start-single [] h = refl
strip_start-single (c ∷ s) h = ground (arith, strip_start-single s)

begins-strip_end : (s : Text) → begins is_dash s ≡ false → begins is_dash (strip_end s) ≡ false
unfolding strip_end
begins-strip_end [] h = refl
begins-strip_end (c ∷ s) h = ground arith

strip_end-single : (s : Text) → has_single_dashes s ≡ true → has_single_dashes (strip_end s) ≡ true
unfolding strip_end
strip_end-single [] h = refl
strip_end-single (c ∷ s) h = ground (arith, strip_end-single s, begins-strip_end s)

begins-strip_start : (s : Text) → begins is_dash (strip_start s) ≡ false
unfolding strip_start
begins-strip_start [] = refl
begins-strip_start (c ∷ s) = ground (arith, begins-strip_start s)

strip_start_of_begins : (s : Text) → begins is_dash s ≡ false → strip_start s ≡ s
unfolding strip_start
strip_start_of_begins [] h = refl
strip_start_of_begins (c ∷ s) h = ground arith

strip_end_idem : (s : Text) → strip_end (strip_end s) ≡ strip_end s
unfolding strip_end
strip_end_idem [] = refl
strip_end_idem (c ∷ s) = ground (arith, strip_end_idem s)

sanitize_again :
    (s : Text)
    → Without is_invalid s
    → has_single_dashes s ≡ true
    → begins is_dash s ≡ false
    → sanitize s ≡ strip_end s
unfolding sanitize
sanitize_again s valid single bare =
    rw
      (
        replace_runs_of_Without is_invalid s valid,
        replace_runs_single s single,
        strip_start_of_begins s bare,
      )
      refl

strip_end_of_sanitize : (part : Text) → strip_end (sanitize part) ≡ sanitize part
unfolding sanitize
strip_end_of_sanitize part =
    strip_end_idem (strip_start (replace_runs is_dash (replace_runs is_invalid part)))

-- A sanitised part has no invalid character, no two dashes on end and no dash at its front, and
-- sanitising it again changes nothing.
pub sanitize_idem :
    (part : Text)
    → Without is_invalid (sanitize part)
      × (has_single_dashes (sanitize part) ≡ true)
      × (begins is_dash (sanitize part) ≡ false)
      × (sanitize (sanitize part) ≡ sanitize part)
sanitize_idem part =
    let collapsed = replace_runs is_dash (replace_runs is_invalid part) in
    let single : has_single_dashes (sanitize part) ≡ true =
      unfold sanitize in
      strip_end-single (strip_start collapsed)
        (strip_start-single collapsed (replace_runs-single (replace_runs is_invalid part))) in
    let bare : begins is_dash (sanitize part) ≡ false =
      unfold sanitize in begins-strip_end (strip_start collapsed) (begins-strip_start collapsed) in
    let valid = sanitize-Without part in
    (
      valid,
      single,
      bare,
      sanitize_again (sanitize part) valid single bare ∙ strip_end_of_sanitize part,
    )
