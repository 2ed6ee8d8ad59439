-- ===== src/Provider/Paths.antt =====
-- What internal/provider/webdav.go calls of packages path and strings.
use rosemary_virsree.Prelude.{
  Bool, true, false, List, [], ◌∷◌, ◌++◌, ◌&&◌, ◌||◌, ◌==◌, if◌then◌else◌,
}
use rosemary_virsree.Prelude.Text.{Str, codes, str_eq, has_prefix}
use rosemary_virsree.Prelude.Split.{split, join}
use rosemary_virsree.Provider.Purge.{slash}

-- strings.TrimLeft(s, "/")
unfoldable pub trim_left : Str → Str
trim_left [] = []
trim_left (c ∷ s) = let rest = trim_left s in if c == slash then rest else c ∷ s

-- strings.TrimSuffix(s, "/")
unfoldable pub trim_suffix : Str → Str
trim_suffix [] = []
trim_suffix (c ∷ s) = let rest = trim_suffix s in if c == slash && str_eq s [] then [] else c ∷ rest

-- The parts of a cleaned path, the last one first: a part `..` takes the last one back, or stays at
-- the front of a path that does not start at the root.
abbrev pub back : Bool → List Str → List Str
back true [] = []
back false [] = codes ".." ∷ []
back rooted (last ∷ out) = if str_eq last (codes "..") then codes ".." ∷ last ∷ out else out

abbrev pub clean_part : Bool → Str → List Str → List Str
clean_part rooted part out =
    if str_eq part [] || str_eq part (codes ".")
    then out
    else (if str_eq part (codes "..") then back rooted out else part ∷ out)

unfoldable pub clean_parts : Bool → List Str → List Str → List Str
clean_parts rooted [] out = out
clean_parts rooted (part ∷ parts) out = clean_parts rooted parts (clean_part rooted part out)

unfoldable pub reversed : List Str → List Str → List Str
reversed [] out = out
reversed (x ∷ xs) out = reversed xs (x ∷ out)

abbrev pub or_dot : Str → Str
or_dot s = if str_eq s [] then codes "." else s

-- path.Clean
unfoldable pub clean : Str → Str
unfolding split join clean_parts reversed has_prefix str_eq
clean s =
    let rooted = has_prefix s (slash ∷ []) in
    let text = join slash (reversed (clean_parts rooted (split slash s) []) []) in
    if rooted then slash ∷ text else or_dot text

-- The text up to the last slash, and with it.
unfoldable pub directory : List Str → Str
directory [] = []
directory (part ∷ []) = []
directory (part ∷ next ∷ parts) = part ++ slash ∷ directory (next ∷ parts)

-- path.Dir
unfoldable pub dir : Str → Str
unfolding split directory clean
dir s = clean (directory (split slash s))

-- path.Join of two elements
unfoldable pub join_path : Str → Str → Str
unfolding clean
join_path a b =
    if str_eq a []
    then (if str_eq b [] then [] else clean b)
    else (if str_eq b [] then clean a else clean (a ++ slash ∷ b))
