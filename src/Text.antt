-- ===== src/Text.antt =====
-- The methods of a JavaScript text that the program calls.
use Prim.Native.Char.{Char, code}
use payment_sim.Prelude.{
  ℕ, String, Bool, ◌&&◌, ◌||◌, Option, none, some, List, [], ◌∷◌, ◌==◌, leb, eqb, if◌then◌else◌,
  any,
}

abbrev between : ℕ → ℕ → ℕ → Bool
between lo hi n = leb lo n && leb n hi

-- White space and line ends, as `trim` takes them.
abbrev pub is_space : Char → Bool
is_space c =
    let n = code c in
    between 9 13 n
    || eqb n 32
    || eqb n 160
    || eqb n 5760
    || between 8192 8202 n
    || between 8232 8233 n
    || eqb n 8239
    || eqb n 8287
    || eqb n 12288
    || eqb n 65279

unfoldable pub trim_start : String → String
trim_start String.[] = ""
trim_start (String.◌∷◌ c s) = let rest = trim_start s in if is_space c then rest else String.◌∷◌ c s

unfoldable pub trim_end : String → String
trim_end String.[] = ""
trim_end (String.◌∷◌ c s) =
    let rest = trim_end s in if is_space c && rest == "" then "" else String.◌∷◌ c rest

-- `s.trim()`
unfoldable pub trim : String → String
unfolding trim_start trim_end
trim s = trim_end (trim_start s)

-- one more character at the front of the first part
abbrev extend_first : Char → List String → List String
extend_first c [] = String.◌∷◌ c "" ∷ []
extend_first c (p ∷ ps) = String.◌∷◌ c p ∷ ps

-- `s.split(separator)` for a separator of one character
unfoldable pub split : ℕ → String → List String
split separator String.[] = "" ∷ []
split separator (String.◌∷◌ c s) =
    let rest = split separator s in
    if eqb (code c) separator then "" ∷ rest else extend_first c rest

abbrev before_split : Char → Option (String × String) → Option (String × String)
before_split c none = none
before_split c (some (before, after)) = some (String.◌∷◌ c before, after)

-- `i = s.indexOf(separator)` with `s.slice(0, i)` and `s.slice(i + 1)`, if it is found
unfoldable pub split_once : ℕ → String → Option (String × String)
split_once separator String.[] = none
split_once separator (String.◌∷◌ c s) =
    let rest = split_once separator s in
    if eqb (code c) separator then some ("", s) else before_split c rest

-- `[...new Set(xs)]`
unfoldable pub unique_from : List String → List String → List String
unique_from seen [] = []
unique_from seen (x ∷ xs) =
    if any (λ y. y == x) seen then unique_from seen xs else x ∷ unique_from (x ∷ seen) xs

unfoldable pub unique : List String → List String
unfolding unique_from
unique xs = unique_from [] xs
