-- ===== src/Prelude/Texts.antt =====
-- The functions of Go's package strings that paths are read with.
use mathlib.Core.Bool.{Bool, true, false, ◌&&◌}
use mathlib.Core.Option.{Option, none, some}
use mathlib.Core.List.{[], ◌∷◌}
use quiz.Prelude.Tests.{if◌then◌else◌}
use quiz.Prelude.Keys.{Text, ◌==◌, nat_eq}

-- `strings.HasPrefix`
unfoldable pub has_prefix : Text → Text → Bool
has_prefix s [] = true
has_prefix [] (d ∷ prefix) = false
has_prefix (c ∷ s) (d ∷ prefix) = let rest = has_prefix s prefix in (c == d) && rest

-- `strings.TrimPrefix`
unfoldable pub trim_prefix : Text → Text → Text
trim_prefix s prefix = elim (after prefix s) [ none ↦ s | some rest ↦ rest ]
  where
    after : Text → Text → Option Text
    after [] s = some s
    after (c ∷ prefix) [] = none
    after (c ∷ prefix) (d ∷ s) = let rest = after prefix s in if c == d then rest else none

-- `strings.TrimSuffix(s, "/")`
unfoldable pub trim_slash : Text → Text
trim_slash [] = []
trim_slash (c ∷ []) = if c == 47 then [] else c ∷ []
trim_slash (c ∷ d ∷ s) = c ∷ trim_slash (d ∷ s)
