-- ===== src/Text/Paths.antt =====
-- `path.Clean` of Go's library.
use wireproxy.Base.{Bool, ◌||◌, List, [], ◌∷◌, ◌++◌, is_empty, reverse, if◌then◌else◌}
use wireproxy.Text.Defs.{Text, codes, text_eq}
use wireproxy.Text.Strings.{has_prefix, split}

-- A `..` takes the element before it away, and stays only at the start of a path without a root.
unfoldable pub go_up : Bool → List Text → List Text
go_up rooted [] = if rooted then [] else codes ".." ∷ []
go_up rooted (p ∷ stack) = if text_eq p (codes "..") then codes ".." ∷ p ∷ stack else stack

unfoldable pub push_part : Bool → List Text → Text → List Text
unfolding go_up
push_part rooted stack part =
    if is_empty part || text_eq part (codes ".")
    then stack
    else if text_eq part (codes "..")
    then go_up rooted stack
    else part ∷ stack

-- The elements so far, the last one first.
unfoldable pub push_parts : Bool → List Text → List Text → List Text
unfolding push_part
push_parts rooted stack [] = stack
push_parts rooted stack (part ∷ parts) = push_parts rooted (push_part rooted stack part) parts

unfoldable pub join_parts : List Text → Text
join_parts [] = []
join_parts (p ∷ []) = p
join_parts (p ∷ q ∷ parts) = p ++ b'/' ∷ join_parts (q ∷ parts)

unfoldable pub clean_path : Text → Text
unfolding push_parts join_parts split has_prefix
clean_path path =
    let rooted = has_prefix path (codes "/") in
    let body = join_parts (reverse (push_parts rooted [] (split path b'/'))) in
    if rooted then b'/' ∷ body else if is_empty body then codes "." else body
