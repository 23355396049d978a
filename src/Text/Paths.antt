-- ===== src/Text/Paths.antt =====
-- filepath.Clean, filepath.Dir and filepath.Abs, for paths with slashes.
use webircgateway.Base.{
  ℕ, ◌+◌, Bool, false, not, ◌||◌, Option, none, some, List, [], ◌∷◌, ◌++◌, if◌then◌else◌, take,
}
use webircgateway.Text.Bytes.{Bytes, codes, is_empty, equal, has_prefix}
use webircgateway.Text.Index.{split}
use mathlib.Core.List.{reverse}
use webircgateway.Text.Atoi.{last_index}

-- Whether the last name kept can be taken back by "..".
abbrev can_go_up : List Bytes → Bool
can_go_up [] = false
can_go_up (top ∷ stack) = not (equal top (codes ".."))

abbrev rest_of : List Bytes → List Bytes
rest_of [] = []
rest_of (top ∷ stack) = stack

-- The names of a path one by one, with the ones kept so far, last name first.
clean_names : Bool → List Bytes → List Bytes → List Bytes
clean_names rooted [] stack = reverse stack
clean_names rooted (name ∷ names) stack =
    let next =
      if is_empty name || equal name (codes ".")
      then stack
      else if equal name (codes "..")
      then (if can_go_up stack then rest_of stack else if rooted then stack else name ∷ stack)
      else name ∷ stack in
    clean_names rooted names next

join_slashes : List Bytes → Bytes
join_slashes [] = []
join_slashes (p ∷ []) = p
join_slashes (p ∷ q ∷ ps) = p ++ b'/' ∷ join_slashes (q ∷ ps)

abbrev or_dot : Bytes → Bytes
or_dot [] = codes "."
or_dot (c ∷ path) = c ∷ path

unfoldable pub clean : Bytes → Bytes
unfolding clean_names join_slashes
clean path =
    let rooted = has_prefix path (codes "/") in
    let names = join_slashes (clean_names rooted (split path b'/') []) in
    if rooted then b'/' ∷ names else or_dot names

abbrev up_to_slash : Bytes → Option ℕ → Bytes
up_to_slash path none = []
up_to_slash path (some i) = take (i + 1) path

unfoldable pub dir : Bytes → Bytes
dir path = clean (up_to_slash path (last_index path b'/'))

-- The working directory is the first argument.
unfoldable pub abs : Bytes → Bytes → Bytes
abs cwd path =
    if has_prefix path (codes "/")
    then clean path
    else if is_empty path
    then clean cwd
    else clean (cwd ++ b'/' ∷ path)
