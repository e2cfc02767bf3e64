-- ===== src/Json.antt =====
-- Message contents. A content column holds a text: what `JSON.parse` makes of it, or the text
-- itself where it throws. A number keeps its literal.
use Prim.Native.String.{◌++◌}
use aimclaw.Base.{
  ◌>>=◌, ℕ, zero, suc, ◌+◌, ◌/◌, ◌%◌, ltb, String, str_eq, Bool, true, false, Option, none, some,
  List, [], ◌∷◌, if◌then◌else◌,
}

mutual
  pub data Json : Type 0 where
    null : Json
    bool : Bool → Json
    num : String → Json
    str : String → Json
    arr : Items → Json
    obj : Fields → Json

  pub data Items : Type 0 where
    nil : Items
    cons : Json → Items → Items

  pub data Fields : Type 0 where
    end : Fields
    field : String → Json → Fields → Fields

pub data Content : Type 0 where
  raw : String → Content
  json : Json → Content

unfoldable pub get_field : String → Fields → Option Json
get_field k end = none
get_field k (field j v fs) = if str_eq j k then some v else get_field k fs

-- `o[k] = v`: in place, or at the end
unfoldable pub set_field : String → Json → Fields → Fields
set_field k v end = field k v end
set_field k v (field j w fs) = if str_eq j k then field j v fs else field j w (set_field k v fs)

-- Property access: `null` throws, and what is no object has no such property.
unfoldable pub property : String → Json → Option (Option Json)
unfolding get_field
property k null = none
property k (obj fs) = some (get_field k fs)
property k _ = some none

-- Assignment to a property and printing again: a primitive value throws, and an array prints
-- without the property.
unfoldable pub with_property : String → Json → Json → Option Json
unfolding set_field
with_property k v (obj fs) = some (obj (set_field k v fs))
with_property k v (arr xs) = some (arr xs)
with_property k v _ = none

-- An array of texts; none if an element is no text
unfoldable pub texts_of : Items → Option (List String)
texts_of nil = some []
texts_of (cons (str s) xs) = do rest ← texts_of xs; some (s ∷ rest)
texts_of (cons _ xs) = none

abbrev digit : ℕ → String
digit zero = "0"
digit (suc zero) = "1"
digit (suc (suc zero)) = "2"
digit (suc (suc (suc zero))) = "3"
digit (suc (suc (suc (suc zero)))) = "4"
digit (suc (suc (suc (suc (suc zero))))) = "5"
digit (suc (suc (suc (suc (suc (suc zero)))))) = "6"
digit (suc (suc (suc (suc (suc (suc (suc zero))))))) = "7"
digit (suc (suc (suc (suc (suc (suc (suc (suc zero)))))))) = "8"
digit _ = "9"

-- The key of an array element; a number has fewer digits than it counts.
digits : ℕ → ℕ → String
digits zero n = digit n
digits (suc fuel) n =
    let front = digits fuel (n / 10) in if ltb n 10 then digit n else front ++ digit (n % 10)

entries_of_items : ℕ → Items → List (String × Json)
unfolding digits
entries_of_items n nil = []
entries_of_items n (cons j js) = (digits n n, j) ∷ entries_of_items (n + 1) js

entries_of_fields : Fields → List (String × Json)
entries_of_fields end = []
entries_of_fields (field k v fs) = (k, v) ∷ entries_of_fields fs

-- `Object.entries` of an object or an array
unfoldable pub entries : Json → List (String × Json)
unfolding entries_of_items entries_of_fields
entries (obj fs) = entries_of_fields fs
entries (arr xs) = entries_of_items 0 xs
entries _ = []

-- `typeof j === 'object'` for what is not null
abbrev pub is_object : Json → Bool
is_object (obj fs) = true
is_object (arr xs) = true
is_object _ = false
