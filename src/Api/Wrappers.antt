-- ===== src/Api/Wrappers.antt =====
-- The calls of frontend/src/lib/api: leave-types.ts, monthly-submissions.ts, org-hierarchy.ts and
-- override-lock.ts. Each is a call of the API client of frontend/src/lib/api.ts.
use pwa_attendance_record_sy.Prelude.{ℕ, Bool, List, [], ◌∷◌, ◌++◌, Option, none, some}
use pwa_attendance_record_sy.Text.{Text, codes}
use pwa_attendance_record_sy.Text.Decimal.{to_decimal}
use pwa_attendance_record_sy.Api.{get, post, put, Call, call}
use pwa_attendance_record_sy.Api.Values.{
  Json, boolean, number, text, array, object, Items, no_item, item, no_member, member_is,
}

-- An array of texts, and an object with one member
unfoldable pub items_of : List Text → Items
items_of [] = no_item
items_of (x ∷ xs) = item (text x) (items_of xs)

abbrev only : Text → Json → Json
only key v = object (member_is key v no_member)

module _ (base_url : Text) (token : Option Text) where
  -- `leaveTypesApi`
  unfoldable pub leave_types_list : Call
  leave_types_list = call base_url token get (codes "/api/admin/leave-types") none

  unfoldable pub leave_types_update : List Text → Call
  unfolding items_of
  leave_types_update types =
      call base_url token put (codes "/api/admin/leave-types")
        (some (only (codes "leave_types") (array (items_of types))))

  -- `ranksApi`
  unfoldable pub ranks_list : Call
  ranks_list = call base_url token get (codes "/api/admin/ranks") none

  unfoldable pub ranks_update : List Text → Call
  unfolding items_of
  ranks_update ranks =
      call base_url token put (codes "/api/admin/ranks")
        (some (only (codes "ranks") (array (items_of ranks))))

  -- `orgScopingApi` and `overrideLockApi`
  unfoldable pub org_scoping_get : Call
  org_scoping_get = call base_url token get (codes "/api/admin/org-scoping") none

  unfoldable pub org_scoping_set : Bool → Call
  org_scoping_set enabled =
      call base_url token put (codes "/api/admin/org-scoping")
        (some (only (codes "enabled") (boolean enabled)))

  unfoldable pub override_lock_get : Call
  override_lock_get = call base_url token get (codes "/api/admin/override-lock") none

  unfoldable pub override_lock_set : Bool → Call
  override_lock_set locked =
      call base_url token put (codes "/api/admin/override-lock")
        (some (only (codes "locked") (boolean locked)))

  -- `monthlySubmissionsApi`; an employee's ID is taken to need no escaping in a query.
  unfoldable pub submission_submit : Text → ℕ → ℕ → Call
  unfolding to_decimal
  submission_submit emp_id year month =
      call base_url token post (codes "/api/monthly-submissions") (
        some (
          object (
            member_is (codes "emp_id") (text emp_id) (
              member_is (codes "year") (number (to_decimal year))
                (member_is (codes "month") (number (to_decimal month)) no_member)))))

  unfoldable pub submission_status : Text → ℕ → ℕ → Call
  unfolding to_decimal
  submission_status emp_id year month =
      call base_url token get
        (codes "/api/monthly-submissions?emp_id="
          ++ (emp_id
              ++ (codes "&year=" ++ (to_decimal year ++ (codes "&month=" ++ to_decimal month)))))
        none
