-- ===== src/Text/Paths.antt =====
-- The functions of node's `path` for POSIX that the source calls. A path is cut at its slashes; the walk
-- over the pieces keeps those it has entered, the last one first.
pub mod Walks
use Prim.Native.Char.{Char, code}
use Prim.Native.String.{◌∷◌ as cons, ◌++◌}
use aimclaw.Base.{
  String, Bool, true, false, not, ◌||◌, List, [], ◌∷◌, str_eq, filter, if◌then◌else◌, ◌==◌,
}
use aimclaw.Text.{begins_with}

abbrev pub onto_head : Char → List String → List String
onto_head c [] = cons c "" ∷ []
onto_head c (w ∷ ws) = cons c w ∷ ws

-- `split(d)` for one character
unfoldable pub split_on : Char → String → List String
split_on d String.[] = "" ∷ []
split_on d (cons c s) =
    let rest = split_on d s in if code c == code d then "" ∷ rest else onto_head c rest

-- `..`: back to where the walk came from; at the root it stays, and a relative path leaves its start.
unfoldable pub climb : Bool → List String → List String
climb from_root [] = if from_root then [] else ".." ∷ []
climb from_root (w ∷ ws) =
    if str_eq w ".." then (if from_root then w ∷ ws else ".." ∷ (w ∷ ws)) else ws

unfoldable pub enter : Bool → String → List String → List String
unfolding climb
enter from_root w ws =
    if str_eq w "" || str_eq w "." then ws else if str_eq w ".." then climb from_root ws else w ∷ ws

unfoldable pub walk : Bool → List String → List String → List String
unfolding enter
walk from_root seen [] = seen
walk from_root seen (w ∷ ws) = walk from_root (enter from_root w seen) ws

unfoldable pub reverse_onto : List String → List String → List String
reverse_onto [] ys = ys
reverse_onto (x ∷ xs) ys = reverse_onto xs (x ∷ ys)

-- `join("/")`
unfoldable pub slashed : List String → String
slashed [] = ""
slashed (w ∷ []) = w
slashed (w ∷ (v ∷ ws)) = w ++ ("/" ++ slashed (v ∷ ws))

-- The names on the way from the root to an absolute path, or from its start to a relative one.
unfoldable pub steps : Bool → String → List String
unfolding split_on walk reverse_onto
steps from_root p = reverse_onto (walk from_root [] (split_on "/" p)) []

unfoldable pub is_absolute : String → Bool
unfolding begins_with
is_absolute p = begins_with "/" p

unfoldable pub ends_with_slash : String → Bool
ends_with_slash String.[] = false
ends_with_slash (cons c String.[]) = code c == 47
ends_with_slash (cons c (cons d s)) = ends_with_slash (cons d s)

-- `path.normalize`: a slash at the end stays.
unfoldable pub normalize : String → String
unfolding is_absolute ends_with_slash steps slashed
normalize p =
    let from_root = is_absolute p in
    let text = slashed (steps from_root p) in
    let tail = if ends_with_slash p then "/" else "" in
    if str_eq p ""
    then "."
    else if str_eq text ""
    then (if from_root then "/" else "." ++ tail)
    else (if from_root then "/" else "") ++ (text ++ tail)

-- `path.join` of two texts
unfoldable pub join : String → String → String
unfolding normalize
join p q =
    if str_eq p ""
    then (if str_eq q "" then "." else normalize q)
    else if str_eq q ""
    then normalize p
    else normalize (p ++ ("/" ++ q))

-- `path.resolve`, where the working directory is an absolute path
unfoldable pub resolve : String → String → String
unfolding is_absolute steps slashed
resolve cwd p = "/" ++ slashed (steps true (if is_absolute p then p else cwd ++ ("/" ++ p)))

-- Up from each name of the first path, and down the second
unfoldable pub up_and_down : List String → List String → List String
up_and_down [] ts = ts
up_and_down (f ∷ fs) ts = ".." ∷ up_and_down fs ts

-- From one path to another, by way of what they share
unfoldable pub route : List String → List String → List String
unfolding up_and_down
route [] ts = ts
route (f ∷ fs) [] = up_and_down (f ∷ fs) []
route (f ∷ fs) (t ∷ ts) =
    let rest = route fs ts in if str_eq f t then rest else up_and_down (f ∷ fs) (t ∷ ts)

-- `path.relative`
unfoldable pub relative : String → String → String → String
unfolding resolve steps route slashed
relative cwd p q = slashed (route (steps true (resolve cwd p)) (steps true (resolve cwd q)))

abbrev last_or : String → List String → String
last_or d [] = d
last_or d (w ∷ ws) = last_or w ws

-- `path.basename`
unfoldable pub basename : String → String
unfolding split_on
basename p = last_or "" (filter (λ w. not (str_eq w "")) (split_on "/" p))
