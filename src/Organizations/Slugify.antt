-- ===== src/Organizations/Slugify.antt =====
-- `slugify` of apps/api/src/common/utils/slug.util.ts.
use paywall.Prelude.{ℕ, Bool, true, false, ◌&&◌, ◌||◌, [], ◌∷◌, ◌==◌, leb, if◌then◌else◌, Text}
use paywall.Pagination.{slice}

-- What the code calls of JavaScript's texts: toLowerCase, trim, and a number in a template.
pub record Runtime : Type 0 where
  pub to_lower_case : Text → Text
  pub trim : Text → Text
  pub to_decimal : ℕ → Text

-- The character -.
abbrev pub dash : ℕ
dash = 45

-- [a-z0-9]
abbrev pub is_slug_char : ℕ → Bool
is_slug_char c = (leb 97 c && leb c 122) || (leb 48 c && leb c 57)

-- `replace(/[^a-z0-9]+/g, "-")`: a run of other characters becomes one dash.
unfoldable pub dash_runs : Bool → Text → Text
dash_runs in_run [] = []
dash_runs in_run (c ∷ cs) =
    let after = dash_runs false cs in
    let within = dash_runs true cs in
    if is_slug_char c then c ∷ after else (if in_run then within else dash ∷ within)

abbrev is_empty : Text → Bool
is_empty [] = true
is_empty (c ∷ cs) = false

-- `replace(/^-+|-+$/g, "")`: no dashes at the start, and none at the end.
unfoldable pub strip_start : Text → Text
strip_start [] = []
strip_start (c ∷ cs) = let rest = strip_start cs in if c == dash then rest else c ∷ cs

unfoldable pub strip_end : Text → Text
strip_end [] = []
strip_end (c ∷ cs) = let rest = strip_end cs in if c == dash && is_empty rest then [] else c ∷ rest

unfoldable pub slugify : Runtime → Text → Text
unfolding dash_runs strip_start strip_end slice
slugify r input =
    slice 60 (strip_end (strip_start (dash_runs false (r.trim (r.to_lower_case input)))))

-- `slug || "org"`
abbrev pub or_org : Text → Text
or_org [] = 111 ∷ 114 ∷ 103 ∷ []
or_org (c ∷ cs) = c ∷ cs
