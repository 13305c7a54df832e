-- ===== src/Base/Paths.antt =====
-- Paths and suffixes of file names, on code points: `PurePosixPath(path).name`, `str.endswith` and
-- `needle in text`.
use Prim.Native.Nat.{ℕ}
use Prim.Native.String.{String}
use mathlib.Core.Bool.{Bool, true, false, ◌&&◌, ◌||◌}
use mathlib.Core.List.{List, [], ◌∷◌, map}
use jaull.Base.Tests.{◌==◌, if◌then◌else◌}
use jaull.Base.Text.{codes, lower_code, same_codes}

-- The components between slashes, in order; an empty component for two adjacent slashes.
prepend_code : ℕ → List (List ℕ) → List (List ℕ)
prepend_code c [] = (c ∷ []) ∷ []
prepend_code c (part ∷ parts) = (c ∷ part) ∷ parts

split_slashes : List ℕ → List (List ℕ)
unfolding prepend_code
split_slashes [] = [] ∷ []
split_slashes (c ∷ cs) =
    let parts = split_slashes cs in if c == b'/' then [] ∷ parts else prepend_code c parts

-- An empty component or a single dot is dropped by `PurePosixPath`.
is_dropped : List ℕ → Bool
is_dropped [] = true
is_dropped (c ∷ []) = c == b'.'
is_dropped _ = false

last_name : List (List ℕ) → List ℕ → List ℕ
unfolding is_dropped
last_name [] found = found
last_name (part ∷ parts) found = last_name parts (if is_dropped part then found else part)

unfoldable pub file_name : String → List ℕ
unfolding split_slashes last_name
file_name path = map lower_code (last_name (split_slashes (codes path)) [])

unfoldable pub starts_with : List ℕ → List ℕ → Bool
starts_with [] text = true
starts_with (a ∷ needle) [] = false
starts_with (a ∷ needle) (c ∷ text) = (a == c) && starts_with needle text

-- `needle in text`
unfoldable pub contains_codes : List ℕ → List ℕ → Bool
unfolding starts_with
contains_codes needle [] = starts_with needle []
contains_codes needle (c ∷ text) = starts_with needle (c ∷ text) || contains_codes needle text

-- `text.endswith(suffix)`
unfoldable pub ends_with : List ℕ → List ℕ → Bool
ends_with suffix [] = same_codes suffix []
ends_with suffix (c ∷ text) = same_codes suffix (c ∷ text) || ends_with suffix text
