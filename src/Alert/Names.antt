-- ===== src/Alert/Names.antt =====
-- internal/alert/types.go, `sanitizeName`, and internal/alert/creator.go, `buildTaskName`: the name
-- of a task. `fold` is the lower-case table outside ASCII.
use kubeminds.Prelude.{ℕ, Bool, ◌&&◌, ◌||◌, ◌∷◌, ◌++◌, map}
use kubeminds.Prelude.Tests.{leb, ltb, ◌==◌, if◌then◌else◌}
use kubeminds.Prelude.Lists.{length, take}
use kubeminds.Prelude.Bytes.{Str, lit, itoa}
use kubeminds.Prelude.Utf8.{runes, to_lower, trim_front, trim_back}
use kubeminds.Alert.Types.{or_default}

-- Each rune as a letter, a digit or a dash.
abbrev pub name_byte : ℕ → ℕ
name_byte r = if (leb b'a' r && leb r b'z') || (leb b'0' r && leb r b'9') then r else b'-'

abbrev pub is_dash : ℕ → Bool
is_dash b = b == b'-'

-- `strings.TrimRight(s, "-")`, and `strings.Trim(s, "-")`
unfoldable pub trim_right_dashes : Str → Str
unfolding trim_back
trim_right_dashes = trim_back is_dash

unfoldable pub trim_dashes : Str → Str
unfolding trim_right_dashes trim_front
trim_dashes s = trim_right_dashes (trim_front is_dash s)

unfoldable pub sanitize_name : (ℕ → ℕ) → Str → ℕ → Str
unfolding trim_dashes trim_right_dashes runes to_lower
sanitize_name fold s max_len =
    let result = trim_dashes (map name_byte (runes (to_lower fold s))) in
    if ltb max_len (length result) then trim_right_dashes (take max_len result) else result

-- "alert-%s-%d", with the milliseconds of the clock
unfoldable pub build_task_name : (ℕ → ℕ) → Str → ℕ → Str
unfolding sanitize_name lit itoa
build_task_name fold alert_name millis =
    lit "alert-"
    ++ (or_default (sanitize_name fold alert_name 40) (lit "unknown") ++ (b'-' ∷ itoa millis))
