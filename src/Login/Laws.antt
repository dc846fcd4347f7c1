-- ===== src/Login/Laws.antt =====
-- The employee ID of a login is the one that the form starts with next time, and what the form
-- sends (frontend/src/app/login/page.tsx, frontend/src/lib/lastEmpId.ts).
use pwa_attendance_record_sy.Prelude.{
  ◌≡◌, ◌↔◌, sym, ◌∙◌, ap, true, false, Option, none, some, arith,
}
use pwa_attendance_record_sy.Text.{Text, truthy, trim}
use pwa_attendance_record_sy.Text.Laws.{trim_idem}
use pwa_attendance_record_sy.Login.{
  LoginPage, Request, login, get_last_emp_id, save_last_emp_id, prefill, handle_submit, Message,
  login_done, mounted, submit_form, accepted, step,
}

saved :
    (emp_id : Text) (p : LoginPage)
    → p.storage ≡ true
    → truthy (trim emp_id) ≡ true
    → (save_last_emp_id emp_id p).last_emp_id ≡ some (trim emp_id)
unfolding save_last_emp_id
saved emp_id p s h = ground arith

prefilled :
    (t : Text) (q : LoginPage)
    → q.storage ≡ true
    → truthy t ≡ true
    → q.last_emp_id ≡ some t
    → (prefill q).emp_id ≡ t
unfolding prefill get_last_emp_id
prefilled t q s h e = ground arith

module _ (first_issue : Text → Text → Option Message) where
  -- A page that is loaded with the store which an accepted login left starts with the employee ID
  -- of that login, trimmed, and logging in with it leaves the store as it is: where the store can
  -- be used, and the ID is not blank.
  pub accepted-mounted :
      (emp_id : Text) (p q : LoginPage)
      → p.storage ≡ true
      → q.storage ≡ true
      → truthy (trim emp_id) ≡ true
      → q.last_emp_id ≡ (step first_issue p (accepted emp_id)).0.last_emp_id
      → ((step first_issue q mounted).0.emp_id ≡ trim emp_id)
        × ((step first_issue q (accepted (trim emp_id))).0.last_emp_id ≡ q.last_emp_id)
  unfolding step login_done
  accepted-mounted emp_id p q s t h e =
      let kept = e ∙ saved emp_id p s h in
      (
        prefilled (trim emp_id) q t h kept,
        saved (trim emp_id) q t (ap truthy (trim_idem emp_id) ∙ h)
            ∙ ap (λ x. some x) (trim_idem emp_id)
            ∙ sym kept,
      )

  handle_submit_iff :
      (p : LoginPage) (r : Request)
      → ((handle_submit first_issue p).1 ≡ some r)
        ↔ ((first_issue p.emp_id p.password ≡ none) × (r ≡ login p.emp_id p.password))
  unfolding handle_submit
  handle_submit_iff p r = ground arith

  -- If the schema finds no issue exactly where both texts are there, the form sends them exactly
  -- then and while no login is under way, and it sends nothing else.
  pub submit_form_iff :
      (p : LoginPage) (r : Request)
      → ((a b : Text) → (first_issue a b ≡ none) ↔ ((truthy a ≡ true) × (truthy b ≡ true)))
      → ((step first_issue p submit_form).1 ≡ some r) ↔ (
          (p.is_submitting ≡ false)
          × (truthy p.emp_id ≡ true)
          × (truthy p.password ≡ true)
          × (r ≡ login p.emp_id p.password))
  unfolding step
  submit_form_iff p r schema = ground (arith, handle_submit_iff p r, schema p.emp_id p.password)
