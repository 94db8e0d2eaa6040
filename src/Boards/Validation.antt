-- ===== src/Boards/Validation.antt =====
-- The validators at the end of server/internal/boards/store.go. A text that passes becomes a value
-- of the enumeration that the column holds.
use Prim.Native.Char.{code}
use Prim.Native.String.{[] as end, ◌∷◌ as ◌◂◌}
use slate_do.Prelude.{
  ℕ, ◌+◌, ◌-◌, ◌*◌, ◌%◌, String, len, ◌≡◌, refl, Bool, true, false, not, ◌&&◌, ◌||◌, Option, none,
  some, List, [], ◌∷◌, leb, ◌==◌, nat_eq, string_eq, if◌then◌else◌, ok, err,
}
use slate_do.Prelude.Text.{trim_space}
use slate_do.Boards.Types.{
  Status, fresh, queued, working, needs_review, done, Priority, unset, p0, p1, p2, p3, Kind, action,
  Task, invalid_data, Store, status_eq,
}

abbrev pub clean : String → String
clean = trim_space

-- `validStatus`: `some` for a valid text, as the status that it names.
unfoldable pub valid_status : String → Option Status
valid_status status =
    if status == "new"
    then some fresh
    else if status == "queued"
    then some queued
    else if status == "working"
    then some working
    else if status == "needs_review"
    then some needs_review
    else if status == "done"
    then some done
    else none

unfoldable pub valid_priority : String → Option Priority
valid_priority priority =
    if priority == ""
    then some unset
    else if priority == "p0"
    then some p0
    else if priority == "p1"
    then some p1
    else if priority == "p2"
    then some p2
    else if priority == "p3"
    then some p3
    else none

unfoldable pub valid_kind : String → Option Kind
valid_kind kind = if kind == "action" then some action else none

abbrev pub list_color_slate : String
list_color_slate = "slate"

unfoldable pub valid_list_color : String → Bool
valid_list_color color =
    color == list_color_slate
    || color == "red"
    || color == "orange"
    || color == "yellow"
    || color == "green"
    || color == "teal"
    || color == "blue"
    || color == "indigo"
    || color == "purple"
    || color == "pink"

abbrev between : ℕ → ℕ → ℕ → Bool
between lo hi c = leb lo c && leb c hi

-- The loop of `validUUID`, from a position on. Past an ASCII text it stops with false, so a
-- character is one byte wherever the loop goes on.
scan_uuid : ℕ → String → Bool
scan_uuid index end = true
scan_uuid index (character ◂ rest) =
    let c = code character in
    let later = scan_uuid (index + 1) rest in
    if index == 8 || index == 13 || index == 18 || index == 23
    then c == b'-' && later
    else (between b'0' b'9' c || between b'a' b'f' c || between b'A' b'F' c) && later

unfoldable pub valid_uuid : String → Bool
unfolding scan_uuid
valid_uuid value = len value == 36 && scan_uuid 0 value

codes : String → List ℕ
codes end = []
codes (c ◂ s) = code c ∷ codes s

abbrev digit : ℕ → Option ℕ
digit c = if between b'0' b'9' c then some (c - b'0') else none

two : ℕ → ℕ → Option ℕ
two a b = elim (digit a) [
  | none ↦ none
  | some x ↦ elim (digit b) [ none ↦ none | some y ↦ some (x * 10 + y) ]
]

-- The days of a month in the proleptic Gregorian calendar.
days_in : ℕ → ℕ → ℕ
days_in year month =
    if month == 2
    then (if year % 4 == 0 && (year % 400 == 0 || not (year % 100 == 0)) then 29 else 28)
    else if month == 4 || month == 6 || month == 9 || month == 11
    then 30
    else 31

calendar_day : Option ℕ → Option ℕ → Option ℕ → Option ℕ → Bool
calendar_day (some century) (some year) (some month) (some day) =
    between 1 12 month && between 1 (days_in (century * 100 + year) month) day
calendar_day _ _ _ _ = false

-- Whether `time.Parse(time.DateOnly, value)` succeeds.
date_only : List ℕ → Bool
date_only (y3 ∷ y2 ∷ y1 ∷ y0 ∷ h1 ∷ m1 ∷ m0 ∷ h2 ∷ d1 ∷ d0 ∷ []) =
    h1 == b'-' && h2 == b'-' && calendar_day (two y3 y2) (two y1 y0) (two m1 m0) (two d1 d0)
date_only _ = false

unfoldable pub valid_date : String → Store String
unfolding codes two days_in calendar_day date_only
valid_date value =
    if clean value == ""
    then ok ""
    else if date_only (codes (clean value))
    then ok (clean value)
    else err (invalid_data "date must use YYYY-MM-DD")

abbrev pub is_action : Kind → Bool
is_action action = true

-- The tests of `applyTaskStatus` that follow the parse of the text.
abbrev pub change_status : Task → Status → Bool → Store Task
change_status task status allow_working =
    if status == working && not allow_working
    then err (invalid_data "working status requires claim")
    else if not (is_action task.kind)
    then err (invalid_data "only actions have workflow status")
    else ok (record task { status = status })

-- `applyTaskStatus`: the task with its new status.
unfoldable pub apply_task_status : Task → String → Bool → Store Task
apply_task_status task status allow_working = elim (valid_status (clean status)) [
  | none ↦ err (invalid_data "invalid status")
  | some s ↦ change_status task s allow_working
]

sample_dates :
    (valid_date " 2024-02-29 " ≡ ok "2024-02-29")
    × (valid_date "2023-02-29" ≡ err (invalid_data "date must use YYYY-MM-DD"))
    × (valid_date "" ≡ ok "")
unfolding valid_date trim_space
sample_dates = (refl, refl, refl)

sample_ids :
    (valid_uuid "0b9a8c7d-1234-4abc-8def-0123456789AB" ≡ true)
    × (valid_uuid "0b9a8c7d-1234-4abc-8def-0123456789" ≡ false)
    × (valid_uuid "0b9a8c7d+1234-4abc-8def-0123456789ab" ≡ false)
unfolding valid_uuid
sample_ids = (refl, refl, refl)
