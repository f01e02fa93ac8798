-- ===== src/Metrics/Labels.antt =====
-- A reader of Prometheus label values gets back every route.
use Prim.Native.Char.{Char, char, code}
use text.Mathlib.TextEquality.{Char-path}
use payment_sim.Metrics.{safe_route}
use payment_sim.Redact.{prepend}
use payment_sim.Prelude.{
  String, ◌≡◌, refl, ◌⊎◌, inl, inr, Bool, false, not, ◌&&◌, Option, none, some, arith, eqb,
  if◌then◌else◌, Bool-cases, ap, true,
}

abbrev backslash : Char
backslash = char 92 tt

abbrev double_quote : Char
double_quote = char 34 tt

abbrev add_char : Char → Option (String × String) → Option (String × String)
add_char c none = none
add_char c (some (value, rest)) = some (String.◌∷◌ c value, rest)

-- `\n` is a line feed, and another character stands for itself.
abbrev escaped_char : Char → Char
escaped_char c = if eqb (code c) b'n' then char 10 tt else c

-- A label value of the text format, up to its closing quote; `escaped` after a backslash. A line feed
-- ends the line, so there is no value then.
abbrev pub read_label_value : Bool → String → Option (String × String)
read_label_value escaped String.[] = none
read_label_value escaped (String.◌∷◌ c s) =
    let starts = not escaped && eqb (code c) b'\\' in
    let ends = not escaped && eqb (code c) b'"' in
    let rest = read_label_value starts s in
    if eqb (code c) 10
    then none
    else if starts
    then rest
    else if ends
    then some ("", s)
    else add_char (if escaped then escaped_char c else c) rest

-- A route without a line feed, which `safe_route` does not escape.
abbrev pub one_line : String → Bool
one_line String.[] = true
one_line (String.◌∷◌ c s) = not (eqb (code c) 10) && one_line s

escape_cases :
    (c : Char) (s : String)
    → (c ≡ backslash)
        × (safe_route (String.◌∷◌ c s) ≡ String.◌∷◌ backslash (String.◌∷◌ backslash (safe_route s)))
      ⊎ ((c ≡ double_quote)
            × (safe_route (String.◌∷◌ c s)
                ≡ String.◌∷◌ backslash (String.◌∷◌ double_quote (safe_route s)))
          ⊎ (eqb (code c) b'\\' ≡ false)
            × (eqb (code c) b'"' ≡ false)
            × (safe_route (String.◌∷◌ c s) ≡ String.◌∷◌ c (safe_route s)))
unfolding safe_route
escape_cases c s = elim (Bool-cases (eqb (code c) b'\\')) [
  | inl slash ↦
      let same : c ≡ backslash = Char-path c backslash (ground arith) in inl (same, rw slash refl)
  | inr other ↦ elim (Bool-cases (eqb (code c) b'"')) [
    | inl quote ↦
        let same : c ≡ double_quote = Char-path c double_quote (ground arith) in
        inr (inl (same, rw (other, quote) refl))
    | inr plain ↦ inr (inr (other, plain, rw (other, plain) refl))
  ]
]

-- A reader of the text format gets back any route that has no line feed, and finds the end of the
-- label where it is: no such route can break out of its quotes.
pub read_label_value-safe_route :
    (route rest : String)
    → one_line route ≡ true
    → read_label_value false (prepend (safe_route route) (String.◌∷◌ double_quote rest))
      ≡ some (route, rest)
unfolding prepend
read_label_value-safe_route String.[] rest line = unfold safe_route in refl
read_label_value-safe_route (String.◌∷◌ c s) rest line =
    let inside : eqb (code c) 10 ≡ false = ground arith in
    let ih = read_label_value-safe_route s rest (rw inside at line) in
    elim (escape_cases c s) [
      | inl (same, e) ↦ rw (e, same) (ap (add_char backslash) ih)
      | inr (inl (same, e)) ↦ rw (e, same) (ap (add_char double_quote) ih)
      | inr (inr (other, plain, e)) ↦ rw (e, inside, other, plain) (ap (add_char c) ih)
    ]
