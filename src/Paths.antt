-- ===== src/Paths.antt =====
-- Package path/filepath on Unix, as internal/compose and internal/backup use it.
use simpledeploy.Prelude.{
  ℕ, Bool, true, false, ◌&&◌, ◌||◌, List, [], ◌∷◌, ◌++◌, if◌then◌else◌, ◌==◌, nat_eq,
}
use mathlib.Core.List.{reverse}
use simpledeploy.Prelude.Text.{Text, text_eq, split, codes, contains_byte}

abbrev pub slash : ℕ
slash = b'/'

abbrev pub is_abs : Text → Bool
is_abs [] = false
is_abs (c ∷ s) = c == slash

-- One element of a path, onto the elements so far, the last in front.
abbrev pub pop : Bool → List Text → List Text
pop true [] = []
pop false [] = codes ".." ∷ []
pop true (e ∷ es) = es
pop false (e ∷ es) = if e == codes ".." then codes ".." ∷ e ∷ es else es

unfoldable pub clean_loop : Bool → List Text → List Text → List Text
clean_loop rooted [] stack = stack
clean_loop rooted (e ∷ es) stack = clean_loop rooted es (
    if e == [] || e == codes "."
    then stack
    else if e == codes ".."
    then pop rooted stack
    else e ∷ stack)

unfoldable pub join_slash : List Text → Text
join_slash [] = []
join_slash (e ∷ []) = e
join_slash (e ∷ f ∷ es) = e ++ slash ∷ join_slash (f ∷ es)

abbrev pub or_dot : Text → Text
or_dot [] = codes "."
or_dot (c ∷ s) = c ∷ s

unfoldable pub clean : Text → Text
unfolding clean_loop join_slash
clean s =
    let body = join_slash (reverse (clean_loop (is_abs s) (split slash s) [])) in
    if is_abs s then slash ∷ body else or_dot body

abbrev pub join : Text → Text → Text
join [] [] = []
join [] (c ∷ t) = clean (c ∷ t)
join (c ∷ s) [] = clean (c ∷ s)
join (c ∷ s) (d ∷ t) = clean ((c ∷ s) ++ slash ∷ d ∷ t)

-- The directory part: up to the last slash, cleaned.
unfoldable pub up_to_slash : Text → Text
up_to_slash [] = []
up_to_slash (c ∷ s) =
    let rest = up_to_slash s in if c == slash then c ∷ rest else if rest == [] then [] else c ∷ rest

abbrev pub dir : Text → Text
dir s = clean (up_to_slash s)

unfoldable pub trim_slashes : Text → Text
trim_slashes [] = []
trim_slashes (c ∷ s) =
    let rest = trim_slashes s in if c == slash && rest == [] then [] else c ∷ rest

unfoldable pub after_slash : Text → Text
after_slash [] = []
after_slash (c ∷ s) =
    let rest = after_slash s in if c == slash || contains_byte slash s then rest else c ∷ s

-- The last element of a path.
abbrev pub base_of : Text → Text
base_of [] = codes "/"
base_of (c ∷ s) = after_slash (c ∷ s)

abbrev pub base : Text → Text
base [] = codes "."
base (c ∷ s) = base_of (trim_slashes (c ∷ s))
