-- ===== src/Text/Words.antt =====
-- Trimming, and the first word of a text.
use Prim.Native.Char.{Char}
use Prim.Native.String.{String, [], ◌∷◌, ◌++◌}
use mathlib.Core.Path.{◌≡◌, refl, ap, ◌∙◌}
use mathlib.Core.Bool.{true, false}
use text.Mathlib.TextLemmas.{nil-append, cons-append}
use aimclaw.Base.{Bool-cases, inl, inr}
use aimclaw.Text.{is_space, is_empty, trim_start, trim_end, trim, first_word, begins_with}

abbrev pub IsBlank : String → Type 0
IsBlank [] = Unit
IsBlank (c ∷ s) = (is_space c ≡ true) × IsBlank s

abbrev pub HasNoSpace : String → Type 0
HasNoSpace [] = Unit
HasNoSpace (c ∷ s) = (is_space c ≡ false) × HasNoSpace s

-- The end of the text, or a space before whatever follows.
abbrev pub EndsWord : String → Type 0
EndsWord [] = Unit
EndsWord (c ∷ s) = is_space c ≡ true

trim_start-append : (pad s : String) → IsBlank pad → trim_start (pad ++ s) ≡ trim_start s
unfolding trim_start
trim_start-append [] s h = rw nil-append refl
trim_start-append (c ∷ pad) s (p, h) = rw (cons-append, p) (trim_start-append pad s h)

trim_start-solid : (c : Char) (s : String) → is_space c ≡ false → trim_start (c ∷ s) ≡ c ∷ s
unfolding trim_start
trim_start-solid c s p = rw p

first_word-trim_end : (s : String) → first_word (trim_end s) ≡ first_word s
unfolding first_word trim_end
first_word-trim_end [] = refl
first_word-trim_end (c ∷ s) = elim (Bool-cases (is_space c)) [
  | inl blank ↦ elim (Bool-cases (is_empty (trim_end s))) [
    | inl e ↦ rw (blank, e) refl
    | inr e ↦ rw (blank, e) (rw blank refl)
  ]
  | inr solid ↦ rw solid (rw solid (ap (λ t. c ∷ t) (first_word-trim_end s)))
]

first_word-append :
    (w rest : String) → HasNoSpace w → EndsWord rest → first_word (w ++ rest) ≡ first_word w
unfolding first_word
first_word-append [] [] h e = refl
first_word-append [] (d ∷ rest) h e = rw nil-append (rw e refl)
first_word-append (c ∷ w) rest (p, h) e =
    rw cons-append (rw p (ap (λ t. c ∷ t) (first_word-append w rest h e)))

trim_end-solid : (c : Char) (s : String) → is_space c ≡ false → trim_end (c ∷ s) ≡ c ∷ trim_end s
unfolding trim_end
trim_end-solid c s p = rw p

-- Spaces before a word are trimmed; it is not touched.
trim-append :
    (pad w rest : String) (c : Char)
    → IsBlank pad
    → is_space c ≡ false
    → trim (pad ++ ((c ∷ w) ++ rest)) ≡ c ∷ trim_end (w ++ rest)
unfolding trim
trim-append pad w rest c blank p =
    ap trim_end (trim_start-append pad ((c ∷ w) ++ rest) blank)
    ∙ rw (cons-append, trim_start-solid c (w ++ rest) p) (trim_end-solid c (w ++ rest) p)

first_word-cons :
    (c : Char) (s : String) → is_space c ≡ false → first_word (c ∷ s) ≡ c ∷ first_word s
unfolding first_word
first_word-cons c s p = rw p

-- Spaces before a word and arguments after it do not change the first word of the trimmed text.
pub first_word-trim :
    (pad w rest : String) (c : Char)
    → IsBlank pad
    → HasNoSpace (c ∷ w)
    → EndsWord rest
    → first_word (trim (pad ++ ((c ∷ w) ++ rest))) ≡ first_word (c ∷ w)
first_word-trim pad w rest c blank (p, h) e =
    ap first_word (trim-append pad w rest c blank p)
    ∙ (first_word-cons c (trim_end (w ++ rest)) p
        ∙ (ap (λ t. c ∷ t) (first_word-trim_end (w ++ rest) ∙ first_word-append w rest h e)
            ∙ rw (first_word-cons c w p) refl))

-- Nor do they change the first character.
pub begins_with-trim :
    (pad w rest : String) (c d : Char)
    → IsBlank pad
    → is_space c ≡ false
    → begins_with (d ∷ []) (trim (pad ++ ((c ∷ w) ++ rest))) ≡ begins_with (d ∷ []) (c ∷ w)
unfolding begins_with
begins_with-trim pad w rest c d blank p = rw (trim-append pad w rest c blank p) refl
