-- ===== src/Fssecure.antt =====
-- cli/fssecure/path.go: the lexical checks of managed paths.
pub mod Normal
use atum.Base.{
  has_prefix, ◌++◌, ℕ, Bool, true, false, ◌&&◌, ◌||◌, Option, none, some, List, [], ◌∷◌, reverse,
  Text, text, str_eq, ◌==◌, leb, if◌then◌else◌,
}

-- The components of a path, split at every slash: `strings.Split(path, "/")`.
pub split : Text → List Text
split [] = [] ∷ []
split (c ∷ s) =
    let rest = split s in
    if c == b'/' then [] ∷ rest else elim rest [ [] ↦ (c ∷ []) ∷ [] | w ∷ ws ↦ (c ∷ w) ∷ ws ]

abbrev pub dot : Text
dot = text "."

abbrev pub dotdot : Text
dotdot = text ".."

-- What `..` does to the components kept so far, the last one first: it takes one back, except
-- another `..`; at the root it stays.
pub up : Bool → List Text → List Text
up rooted [] = if rooted then [] else dotdot ∷ []
up rooted (w ∷ ws) = if str_eq w dotdot then dotdot ∷ w ∷ ws else ws

-- One component of `filepath.Clean`.
pub clean_step : Bool → List Text → Text → List Text
unfolding up
clean_step rooted kept w =
    if str_eq w [] || str_eq w dot
    then kept
    else if str_eq w dotdot
    then up rooted kept
    else w ∷ kept

pub clean_all : Bool → List Text → List Text → List Text
unfolding clean_step
clean_all rooted kept [] = reverse kept
clean_all rooted kept (w ∷ ws) = clean_all rooted (clean_step rooted kept w) ws

-- `strings.Join(words, "/")`
pub join : List Text → Text
join [] = []
join (w ∷ []) = w
join (w ∷ (v ∷ ws)) = w ++ (b'/' ∷ join (v ∷ ws))

-- `filepath.IsAbs`
pub is_abs : Text → Bool
is_abs [] = false
is_abs (c ∷ s) = c == b'/'

-- `filepath.Clean`
pub clean : Text → Text
unfolding is_abs clean_all split join
clean path =
    let rooted = is_abs path in
    let words = clean_all rooted [] (split path) in
    if rooted then b'/' ∷ join words else elim words [ [] ↦ dot | w ∷ ws ↦ join (w ∷ ws) ]

-- `Relative`: the normal form of a path that stays below the project root.
unfoldable pub relative : Text → Option Text
unfolding clean is_abs has_prefix
relative path =
    let c = clean path in
    if str_eq path [] || is_abs c || str_eq c dot || str_eq c dotdot || has_prefix c (text "../")
    then none
    else some c

-- `ValidName`: one portable lowercase component.
pub valid_name_char : ℕ → Bool
valid_name_char c =
    leb b'a' c && leb c b'z' || leb b'0' c && leb c b'9' || c == b'-' || c == b'_' || c == b'.'

pub all : (ℕ → Bool) → Text → Bool
all p [] = true
all p (c ∷ s) = p c && all p s

unfoldable pub valid_name : Text → Bool
unfolding all valid_name_char
valid_name value =
    if str_eq value [] || str_eq value dot || str_eq value dotdot
    then false
    else all valid_name_char value
