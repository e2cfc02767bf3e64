-- ===== src/Text.antt =====
-- The string methods that the source calls, over the characters of a text.
pub mod Words
pub mod Paths
use Prim.Native.Char.{Char, code}
use Prim.Native.String.{String, [], ◌∷◌}
use mathlib.Core.Bool.{Bool, true, false, ◌&&◌, ◌||◌}
use aimclaw.Base.{ℕ, ◌+◌, ltb, leb, ◌==◌, if◌then◌else◌}

-- `\s` of a regular expression, which is also what `trim` removes
unfoldable pub is_space : Char → Bool
is_space c =
    let n = code c in
    (leb 9 n && leb n 13)
    || (n == 32
        || (n == 160
            || (n == 5760
                || ((leb 8192 n && leb n 8202)
                    || (n == 8232
                        || (n == 8233
                            || (n == 8239 || (n == 8287 || (n == 12288 || n == 65279)))))))))

pub trim_start : String → String
trim_start [] = []
trim_start (c ∷ s) = let rest = trim_start s in if is_space c then rest else c ∷ s

abbrev is_empty : String → Bool
is_empty [] = true
is_empty (c ∷ s) = false

pub trim_end : String → String
trim_end [] = []
trim_end (c ∷ s) = let rest = trim_end s in if is_space c && is_empty rest then [] else c ∷ rest

unfoldable pub trim : String → String
unfolding trim_start trim_end
trim s = trim_end (trim_start s)

-- `split(/\s/)[0]`
unfoldable pub first_word : String → String
first_word [] = []
first_word (c ∷ s) = let rest = first_word s in if is_space c then [] else c ∷ rest

-- `startsWith`, with the prefix first
unfoldable pub begins_with : String → String → Bool
begins_with [] s = true
begins_with (p ∷ ps) [] = false
begins_with (p ∷ ps) (c ∷ s) = code p == code c && begins_with ps s

-- The order of two texts in the database, which compares their bytes: that of the code points.
unfoldable pub is_before : String → String → Bool
is_before s [] = false
is_before [] (c ∷ t) = true
is_before (b ∷ s) (c ∷ t) = ltb (code b) (code c) || (code b == code c && is_before s t)

-- `includes`, with the longer text first
unfoldable pub includes : String → String → Bool
unfolding begins_with
includes [] t = begins_with t []
includes (c ∷ s) t = begins_with t (c ∷ s) || includes s t

-- LIKE does not tell the case of ASCII letters; `_` stands for any character and `%` for any text.
abbrev pub folded : Char → ℕ
folded c = let n = code c in if leb 65 n && leb n 90 then n + 32 else n

abbrev at_some_end : (String → Bool) → String → Bool
at_some_end test [] = test []
at_some_end test (c ∷ s) = test (c ∷ s) || at_some_end test s

unfoldable pub is_like : String → String → Bool
is_like [] t = is_empty t
is_like (p ∷ ps) [] = code p == 37 && is_like ps []
is_like (p ∷ ps) (c ∷ t) =
    let one = is_like ps t in
    let many = at_some_end (is_like ps) (c ∷ t) in
    if code p == 37 then many else (code p == 95 || folded p == folded c) && one
