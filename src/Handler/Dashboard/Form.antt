-- ===== src/Handler/Dashboard/Form.antt =====
-- parseFormJSON and parseCSV of internal/handler/dashboard.go.
pub mod Laws
use signal_flow.Base.{
  String, Bool, Option, none, some, List, [], ◌∷◌, Result, ok, err, Error, other, if◌then◌else◌,
  ◌==◌,
}
use signal_flow.Base.Text.{trim_space, split}
use signal_flow.Domain.{StringSlice}

abbrev pub or_fallback : String → String → String
or_fallback fallback raw = if raw == "" then fallback else raw

unfoldable pub parse_form_json : (String → Bool) → String → String → Result String
unfolding trim_space
parse_form_json valid raw fallback =
    let given = or_fallback fallback (trim_space raw) in
    if valid given then ok given else err (record { kind = other; text = "not valid JSON" })

-- The loop: every part, trimmed, unless it is empty.
unfoldable pub keep_parts : List String → List String
unfolding trim_space
keep_parts [] = []
keep_parts (p ∷ ps) =
    let rest = keep_parts ps in if trim_space p == "" then rest else trim_space p ∷ rest

-- nil for a blank text.
unfoldable pub parse_csv : String → StringSlice
unfolding trim_space split keep_parts
parse_csv s = if trim_space s == "" then none else some (keep_parts (split b',' (trim_space s)))
