-- ===== src/Paths/Posix.antt =====
-- The functions of `os.path` that the program calls, on POSIX: join, commonpath, normpath,
-- abspath, dirname, basename.
use hidden.Base.{
  ℕ, ◌-◌, ◌≡◌, refl, Bool, not, ◌&&◌, ◌||◌, Option, none, some, List, [], ◌∷◌, ◌++◌, Text, codes,
  ◌==◌, nat_eq, list_eq, if◌then◌else◌, starts_with, ends_with, split, split_first, split_rest,
  join, take, length, reverse,
}

abbrev pub sep : ℕ
sep = b'/'

abbrev pub slash : Text
slash = sep ∷ []

-- `os.path.join(a, b)`
unfoldable pub path_join : Text → Text → Text
unfolding starts_with ends_with
path_join a b =
    if starts_with slash b then b else if a == [] || ends_with slash a then a ++ b else a ++ sep ∷ b

-- The components that `commonpath` compares: neither empty nor ".".
unfoldable pub keep_components : List Text → List Text
keep_components [] = []
keep_components (c ∷ cs) =
    let rest = keep_components cs in if c == [] || c == codes "." then rest else c ∷ rest

unfoldable pub components : Text → List Text
unfolding keep_components split_first split_rest
components s = keep_components (split sep s)

-- The components that two lists begin with.
unfoldable pub common : List Text → List Text → List Text
common [] t = []
common (c ∷ s) [] = []
common (c ∷ s) (d ∷ t) = let rest = common s t in if c == d then c ∷ rest else []

-- `os.path.commonpath([a, b])`; `none` is its ValueError for an absolute and a relative path.
unfoldable pub commonpath : Text → Text → Option Text
unfolding starts_with components common
commonpath a b =
    let both = join slash (common (components a) (components b)) in
    if starts_with slash a
    then (if starts_with slash b then some (sep ∷ both) else none)
    else if starts_with slash b
    then none
    else some both

-- One round of the loop of `normpath`; the components so far stand last one first.
unfoldable pub normpath_step : Bool → List Text → Text → List Text
normpath_step rooted [] c =
    if c == [] || c == codes "."
    then []
    else if not (c == codes "..") || not rooted
    then c ∷ []
    else []
normpath_step rooted (top ∷ done) c =
    if c == [] || c == codes "."
    then top ∷ done
    else if not (c == codes "..") || top == codes ".."
    then c ∷ top ∷ done
    else done

unfoldable pub normpath_loop : Bool → List Text → List Text → List Text
unfolding normpath_step
normpath_loop rooted done [] = done
normpath_loop rooted done (c ∷ cs) = normpath_loop rooted (normpath_step rooted done c) cs

-- POSIX gives exactly two leading slashes a meaning of their own, and `normpath` keeps them.
unfoldable pub initial_slashes : Text → Text
unfolding starts_with
initial_slashes path =
    if starts_with (codes "//") path && not (starts_with (codes "///") path)
    then codes "//"
    else if starts_with slash path
    then slash
    else []

-- `os.path.normpath`
unfoldable pub normpath : Text → Text
normpath path =
    let parts = reverse (normpath_loop (starts_with slash path) [] (split sep path)) in
    let joined = initial_slashes path ++ join slash parts in
    if path == [] || joined == [] then codes "." else joined

-- `os.path.abspath`, in the working directory `cwd`.
unfoldable pub abspath : Text → Text → Text
abspath cwd path = if starts_with slash path then normpath path else normpath (path_join cwd path)

abbrev pub last_or : Text → List Text → Text
last_or d [] = d
last_or d (c ∷ cs) = last_or c cs

-- `os.path.basename`: what stands behind the last slash.
unfoldable pub basename : Text → Text
unfolding split_first split_rest
basename path = last_or (split_first sep path) (split_rest sep path)

-- `s.rstrip("/")`
unfoldable pub strip_slashes : Text → Text
strip_slashes [] = []
strip_slashes (c ∷ s) =
    let rest = strip_slashes s in if rest == [] && c == sep then [] else c ∷ rest

-- `os.path.dirname`: what stands before that, less its slashes unless it has nothing else.
unfoldable pub dirname : Text → Text
unfolding basename strip_slashes
dirname path =
    let head = take (length path - length (basename path)) path in
    let stripped = strip_slashes head in if stripped == [] then head else stripped

posix_tests :
    (normpath (codes "/a//b/../c/.") ≡ codes "/a/c")
    × (normpath (codes "//a/b/..") ≡ codes "//a")
    × (abspath (codes "/w") (codes "../x") ≡ codes "/x")
    × (dirname (codes "/a/b/c.txt") ≡ codes "/a/b")
    × (dirname (codes "/a") ≡ codes "/")
    × (basename (codes "/a/b/c.txt") ≡ codes "c.txt")
    × (commonpath (codes "/a/b/c") (codes "/a/bc/d") ≡ some (codes "/a"))
    × (commonpath (codes "a") (codes "/a") ≡ none)
unfolding abspath normpath path_join initial_slashes normpath_loop split_first split_rest
    starts_with dirname commonpath
posix_tests = (refl, refl, refl, refl, refl, refl, refl, refl)
