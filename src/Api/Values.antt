-- ===== src/Api/Values.antt =====
-- Values of JSON, as `response.json()` gives them (frontend/src/lib/api.ts).
use pwa_attendance_record_sy.Prelude.{Bool, true, false, not, Option, none, some, if◌then◌else◌}
use pwa_attendance_record_sy.Text.{Text, codes, text_eq, truthy}

-- A number is kept as its shortest numeral, which is "0" for both zeros.
mutual
  pub data Json : Type 0 where
    null : Json
    boolean : Bool → Json
    number text : Text → Json
    array : Items → Json
    object : Members → Json

  pub data Items : Type 0 where
    no_item : Items
    item : Json → Items → Items

  pub data Members : Type 0 where
    no_member : Members
    member_is : Text → Json → Members → Members

unfoldable pub find_member : Text → Members → Option Json
find_member k no_member = none
find_member k (member_is j v ms) =
    let rest = find_member k ms in if text_eq j k then some v else rest

-- `v[k]` for a name that no built-in property of arrays and texts has; `none` is undefined.
unfoldable pub member : Text → Json → Option Json
member k (object ms) = find_member k ms
member k _ = none

-- A value in a condition
unfoldable pub truthy_json : Json → Bool
truthy_json null = false
truthy_json (boolean b) = b
truthy_json (number n) = not (text_eq n (codes "0"))
truthy_json (text s) = truthy s
truthy_json (array vs) = true
truthy_json (object ms) = true

-- `typeof v === "object"`
unfoldable pub is_object : Json → Bool
is_object null = true
is_object (array vs) = true
is_object (object ms) = true
is_object _ = false
