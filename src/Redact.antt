-- ===== src/Redact.antt =====
-- `sanitizeText` of utils/sensitiveData.js: what is cut out of a message before it is stored or
-- logged. A regular expression is a list of pieces, matched with backtracking, longest run first.
pub mod Matches
pub mod Cards
pub mod Digits
use Prim.Native.Char.{Char, code}
use Prim.Native.String
use payment_sim.Text.{is_space}
use payment_sim.Sensitive.{is_digit}
use payment_sim.Value.{Value, undefined, null, Host, to_string}
use payment_sim.Prelude.{
  ℕ, zero, suc, ◌+◌, ◌-◌, String, refl, Bool, true, false, not, ◌&&◌, ◌||◌, Option, none, some,
  List, [], ◌∷◌, leb, eqb, if◌then◌else◌,
}

-- `\b`, or a run of characters of one class, of at least and at most so many
pub data Piece : Type 0 where
  boundary : Piece
  run : (Char → Bool) → (least : ℕ) → (most : Option ℕ) → Piece

-- `[A-Za-z0-9_]`
abbrev pub is_word : Char → Bool
is_word c =
    let n = code c in
    leb b'a' n && leb n b'z' || leb b'A' n && leb n b'Z' || is_digit c || eqb n b'_'

abbrev pub in_word : Option Char → Bool
in_word none = false
in_word (some c) = is_word c

abbrev pub first_char : String → Option Char
first_char String.[] = none
first_char (String.◌∷◌ c s) = some c

abbrev pub xor : Bool → Bool → Bool
xor true b = not b
xor false b = b

-- the test of `\b` between the character before, if there is one, and the rest
abbrev pub at_boundary : Option Char → String → Bool
at_boundary before s = xor (in_word before) (in_word (first_char s))

abbrev pub room : Option ℕ → Bool
room none = true
room (some n) = not (eqb n 0)

abbrev pub less_one : Option ℕ → Option ℕ
less_one none = none
less_one (some n) = some (n - 1)

abbrev pub or_else : Option ℕ → Option ℕ → Option ℕ
or_else none m = m
or_else (some n) m = some n

abbrev pub one_more : Option ℕ → Option ℕ
one_more none = none
one_more (some n) = some (suc n)

-- A run, and `after` it the rest of the expression; the answer is the length of the match.
unfoldable pub match_run :
    (Option Char → String → Option ℕ)
    → (Char → Bool)
    → ℕ
    → Option ℕ
    → Option Char
    → String
    → Option ℕ
match_run after class least most before String.[] = if eqb least 0 then after before "" else none
match_run after class least most before (String.◌∷◌ c s) =
    let longer = match_run after class (least - 1) (less_one most) (some c) s in
    or_else (if class c && room most then one_more longer else none)
      (if eqb least 0 then after before (String.◌∷◌ c s) else none)

unfoldable pub match_at : List Piece → Option Char → String → Option ℕ
unfolding match_run
match_at [] before s = some 0
match_at (boundary ∷ ps) before s =
    let rest = match_at ps before s in if at_boundary before s then rest else none
match_at (run class least most ∷ ps) before s = match_run (match_at ps) class least most before s

-- how much of what follows the first character belongs to the match
abbrev pub to_skip : Option ℕ → ℕ
to_skip none = 0
to_skip (some n) = n - 1

unfoldable pub prepend : String → String → String
prepend String.[] t = t
prepend (String.◌∷◌ c s) t = String.◌∷◌ c (prepend s t)

unfoldable pub emit : String → Char → Option ℕ → String → String
unfolding prepend
emit replacement c none rest = String.◌∷◌ c rest
emit replacement c (some zero) rest = prepend replacement (String.◌∷◌ c rest)
emit replacement c (some (suc n)) rest = prepend replacement rest

-- the search from left to right; `skip` characters belong to the last match
unfoldable pub replace_from : List Piece → String → ℕ → Option Char → String → String
unfolding match_at emit
replace_from p replacement skip before String.[] = ""
replace_from p replacement zero before (String.◌∷◌ c s) =
    let found = match_at p before (String.◌∷◌ c s) in
    let rest = replace_from p replacement (to_skip found) (some c) s in
    emit replacement c found rest
replace_from p replacement (suc skip) before (String.◌∷◌ c s) =
    replace_from p replacement skip (some c) s

-- `s.replace(p, replacement)` with the flag `g`, for an expression that does not match the empty
-- text
abbrev pub replace_all : List Piece → String → String → String
replace_all p replacement s = replace_from p replacement 0 none s

abbrev pub lower : ℕ → ℕ
lower n = if leb b'A' n && leb n b'Z' then n + 32 else n

-- a letter under the flag `i`
abbrev pub same_letter : Char → Char → Bool
same_letter c x = eqb (lower (code x)) (lower (code c))

abbrev pub exactly : (Char → Bool) → Piece
exactly class = run class 1 (some 1)

unfoldable pub letters : String → List Piece → List Piece
letters String.[] ps = ps
letters (String.◌∷◌ c s) ps = exactly (same_letter c) ∷ letters s ps

abbrev pub is_quote : Char → Bool
is_quote c = eqb (code c) b'"' || eqb (code c) b'\''

-- `[^"',}\s]`
abbrev pub is_value_char : Char → Bool
is_value_char c = not (is_quote c || eqb (code c) b',' || eqb (code c) b'}' || is_space c)

abbrev pub is_colon : Char → Bool
is_colon c = eqb (code c) b':'

abbrev pub is_colon_or_equals : Char → Bool
is_colon_or_equals c = is_colon c || eqb (code c) b'='

-- `/\b\d{12,19}\b/g`
abbrev pub card_digits : List Piece
card_digits = boundary ∷ run is_digit 12 (some 19) ∷ boundary ∷ []

-- `/["']?name["']?\s*:\s*["']?[^"',}\s]+["']?/gi`
unfoldable pub member_of : String → List Piece
unfolding letters
member_of name =
    run is_quote 0 (some 1)
    ∷ letters name (
        run is_quote 0 (some 1)
        ∷ run is_space 0 none
        ∷ exactly is_colon
        ∷ run is_space 0 none
        ∷ run is_quote 0 (some 1)
        ∷ run is_value_char 1 none
        ∷ run is_quote 0 (some 1)
        ∷ [])

-- `/\bname\s*[:=]\s*\S+/gi`
unfoldable pub setting_of : String → List Piece
unfolding letters
setting_of name =
    boundary
    ∷ letters name (
        run is_space 0 none
        ∷ exactly is_colon_or_equals
        ∷ run is_space 0 none
        ∷ run (λ c. not (is_space c)) 1 none
        ∷ [])

-- the expressions, each with its replacement, in the order of the calls
abbrev pub redactions : List (List Piece × String)
redactions =
    (card_digits, "[REDACTED_CARD]")
    ∷ (member_of "pin", "[REDACTED_PIN]")
    ∷ (member_of "cardNumber", "[REDACTED_CARD]")
    ∷ (member_of "card_number", "[REDACTED_CARD]")
    ∷ (setting_of "pin", "[REDACTED_PIN]")
    ∷ (setting_of "cardNumber", "[REDACTED_CARD]")
    ∷ (setting_of "card_number", "[REDACTED_CARD]")
    ∷ []

unfoldable pub redact_by : List (List Piece × String) → String → String
unfolding replace_from
redact_by [] s = s
redact_by ((p, replacement) ∷ rest) s = redact_by rest (replace_all p replacement s)

unfoldable pub sanitize_text : Host → Value → String
unfolding redact_by member_of setting_of
sanitize_text h undefined = ""
sanitize_text h null = ""
sanitize_text h v = redact_by redactions (to_string h v)
