-- ===== src/Redact/Cards.antt =====
-- What the first replacement of `sanitizeText` leaves.
use payment_sim.Redact.Digits.{
  MatchesNowhere, card_label, digit_in_word, IsCardEnd, Fits-card, not_digit-Fits, edge_of,
  card_goes_on, result-IsCardEnd,
}
use Prim.Native.Char.{Char}
use payment_sim.Redact.{
  is_word, in_word, first_char, xor, at_boundary, match_at, prepend, replace_from, replace_all,
  card_digits, sanitize_text, Piece, redact_by, member_of, Host, to_string, setting_of,
}
use payment_sim.Redact.Matches.{
  done, Run, here, there, Fits, edge, through, match_at-Fits, Fits-match_at,
}
use payment_sim.Sensitive.{is_digit}
use payment_sim.Prelude.{
  ◌∷◌, ℕ, zero, suc, ◌+◌, ◌-◌, ◌≤◌, String, ◌≡◌, refl, ◌⊎◌, inl, inr, Bool, true, false, not, ◌&&◌,
  Option, none, some, arith, Option-cases, length, List, subst, sym, [],
}
use payment_sim.Value.{str, to_string}

-- Where the search stands: between matches, or so many digits before the end of one. The result may
-- have another character before it, if no word begins here.
abbrev Ready : ℕ → Option Char → Option Char → String → Type 0
Ready zero shown before s = (in_word shown ≡ in_word before) ⊎ (in_word (first_char s) ≡ false)
Ready (suc m) shown before s =
    (before' : Option Char) × (s' : String) × Run is_digit (suc m) before s before' s'
    × (in_word (first_char s') ≡ false)

-- The place after one more character that belongs to the match.
next_place :
    (m : ℕ) (shown before shown' : Option Char) (c : Char) (s : String)
    → Ready (suc m) shown before (String.◌∷◌ c s)
    → Ready m shown' (some c) s
next_place zero shown before shown' c s (b, s', there hit here, out) = inr out
next_place (suc m) shown before shown' c s (b, s', there hit ran, out) = (b, s', ran, out)

-- the character before what follows a text
abbrev last_char : Option Char → String → Option Char
last_char before String.[] = before
last_char before (String.◌∷◌ c s) = last_char (some c) s

abbrev no_digits : String → Bool
no_digits String.[] = true
no_digits (String.◌∷◌ c s) = not (is_digit c) && no_digits s

both_parts : (a b : Bool) → (not a && b) ≡ true → (a ≡ false) × (b ≡ true)
both_parts true b e = absurd (cc)
both_parts false b e = (refl, e)

prepend-MatchesNowhere :
    (label : String) (before : Option Char) (s : String)
    → no_digits label ≡ true
    → MatchesNowhere card_digits (last_char before label) s
    → MatchesNowhere card_digits before (prepend label s)
unfolding prepend
prepend-MatchesNowhere String.[] before s miss rest = rest
prepend-MatchesNowhere (String.◌∷◌ c label) before s miss rest =
    let (first, others) = both_parts (is_digit c) (no_digits label) miss in
    (
      λ n. not_digit-Fits before c (prepend label s) n first,
      prepend-MatchesNowhere label (some c) s others rest,
    )

stays_in_word :
    (k : ℕ) (before : Option Char) (s : String) (b : Option Char) (s' : String)
    → Run is_digit k before s b s'
    → in_word before ≡ true
    → in_word b ≡ true
stays_in_word zero before s b s' here inside = inside
stays_in_word (suc k) before String.[] b s' ran inside = elim ran [ ]
stays_in_word (suc k) before (String.◌∷◌ c s) b s' (there hit ran) inside =
    stays_in_word k (some c) s b s' ran (digit_in_word c hit)

-- The place after a match.
place_after_match :
    (before : Option Char) (c : Char) (s : String) (n : ℕ)
    → match_at card_digits before (String.◌∷◌ c s) ≡ some n
    → (m : ℕ) × (n ≡ suc m) × Ready m (last_char none card_label) (some c) s
place_after_match before c s n found =
    let (k, at, enough, within, length, (b, s', ran, at')) =
      Fits-card before (String.◌∷◌ c s) n
        (match_at-Fits card_digits before (String.◌∷◌ c s) n found) in
    go k enough length ran at'
  where
    go :
        (k : ℕ)
        → 12 ≤ k
        → n ≡ k
        → {b : Option Char} {s' : String} → Run is_digit k before (String.◌∷◌ c s) b s'
        → at_boundary b s' ≡ true
        → (m : ℕ) × (n ≡ suc m) × Ready m (last_char none card_label) (some c) s
    go zero enough length ran at = absurd (omega arith)
    go (suc zero) enough length ran at = absurd (omega arith)
    go (suc (suc m)) enough length {b} {s'} (there hit ran) at =
        let inside = stays_in_word (suc m) (some c) s b s' ran (digit_in_word c hit) in
        (suc m, length, (b, s', ran, edge_of (in_word (first_char s')) (rw inside at at)))

-- Where the text has no match, the result has none.
kept_miss :
    (shown before : Option Char) (c : Char) (s : String)
    → Ready 0 shown before (String.◌∷◌ c s)
    → match_at card_digits before (String.◌∷◌ c s) ≡ none
    → (n : ℕ)
    → ¬ Fits card_digits shown (String.◌∷◌ c (replace_from card_digits card_label 0 (some c) s)) n
kept_miss shown before c s ready missed n fits =
    let (k, at, enough, within, _, end) = Fits-card shown _ n fits in go k at enough within end
  where
    starts :
        is_digit c ≡ true
        → xor (in_word shown) (is_word c) ≡ true
        → Ready 0 shown before (String.◌∷◌ c s)
        → at_boundary before (String.◌∷◌ c s) ≡ true
    starts hit at (inl same) = rw same at at
    starts hit at (inr out) = absurd (cc (digit_in_word c hit, out))

    go :
        (k : ℕ)
        → xor (in_word shown) (is_word c) ≡ true
        → 12 ≤ k
        → k ≤ 19
        → IsCardEnd k shown (String.◌∷◌ c (replace_from card_digits card_label 0 (some c) s))
        → ⊥
    go zero at enough within end = omega arith
    go (suc k) at enough within end =
        let (hit, end') = card_goes_on k shown c _ end in
        let (b, s', ran, at') = result-IsCardEnd k (some c) s (digit_in_word c hit) end' in
        let (m, found) =
          Fits-match_at card_digits before (String.◌∷◌ c s) (suc k + 0)
            (edge (starts hit at ready) (through (there hit ran) enough within (edge at' done))) in
        cc (found, missed)

result-MatchesNowhere :
    (skip : ℕ) (shown before : Option Char) (s : String)
    → Ready skip shown before s
    → MatchesNowhere card_digits shown (replace_from card_digits card_label skip before s)
unfolding replace_from
result-MatchesNowhere skip shown before String.[] ready = tt
result-MatchesNowhere (suc m) shown before (String.◌∷◌ c s) ready =
    result-MatchesNowhere m shown (some c) s (next_place m shown before shown c s ready)
result-MatchesNowhere zero shown before (String.◌∷◌ c s) ready =
    elim (Option-cases (match_at card_digits before (String.◌∷◌ c s))) [
      | inl missed ↦ rw missed (
        kept_miss shown before c s ready missed,
        result-MatchesNowhere 0 (some c) (some c) s (inl refl),
      )
      | inr (n, found) ↦
          let (m, length, next) = place_after_match before c s n found in
          let skipped : suc m - 1 ≡ m = omega arith in
          rw (found, length, skipped)
            (prepend-MatchesNowhere card_label shown
              (replace_from card_digits card_label m (some c) s) refl
              (result-MatchesNowhere m (last_char none card_label) (some c) s next))
    ]

-- Nowhere do 12 to 19 digits stand between two places where no word goes on.
abbrev pub ShowsNoCard : Option Char → String → Type 0
ShowsNoCard before String.[] = Unit
ShowsNoCard before (String.◌∷◌ c s) =
    ((k : ℕ) (b : Option Char) (s' : String)
      → in_word before ≡ false
      → 12 ≤ k
      → k ≤ 19
      → Run is_digit k before (String.◌∷◌ c s) b s'
      → in_word (first_char s') ≡ false
      → ⊥)
    × ShowsNoCard (some c) s

begins_with_digit :
    (k : ℕ) (before : Option Char) (c : Char) (s : String) (b : Option Char) (s' : String)
    → 12 ≤ k
    → Run is_digit k before (String.◌∷◌ c s) b s'
    → (is_word c ≡ true) × (in_word b ≡ true)
begins_with_digit zero before c s b s' enough ran = absurd (omega arith)
begins_with_digit (suc k) before c s b s' enough (there hit ran) =
    let word = digit_in_word c hit in (word, stays_in_word k (some c) s b s' ran word)

shows-of_nowhere :
    (before : Option Char) (s : String) → MatchesNowhere card_digits before s → ShowsNoCard before s
shows-of_nowhere before String.[] m = tt
shows-of_nowhere before (String.◌∷◌ c s) m = (
  λ k b s' outside enough within ran out.
      let (word, inside) = begins_with_digit k before c s b s' enough ran in
      let opens : xor (in_word before) (is_word c) ≡ true = rw (outside, word) refl in
      let closes : at_boundary b s' ≡ true = rw (inside, out) refl in
      m.0 _ (edge opens (through ran enough within (edge closes done))),
  shows-of_nowhere (some c) s m.1,
)

-- the other replacements of `sanitizeText`
abbrev pub later_redactions : List (List Piece × String)
later_redactions =
    (member_of "pin", "[REDACTED_PIN]")
    ∷ (member_of "cardNumber", "[REDACTED_CARD]")
    ∷ (member_of "card_number", "[REDACTED_CARD]")
    ∷ (setting_of "pin", "[REDACTED_PIN]")
    ∷ (setting_of "cardNumber", "[REDACTED_CARD]")
    ∷ (setting_of "card_number", "[REDACTED_CARD]")
    ∷ []

-- A sanitized message in which the six later replacements find nothing to cut out holds no 12 to 19
-- digits that stand free. Where they cut something out, digits that touched it can stand free.
pub sanitize_text-ShowsNoCard :
    (h : Host) (s : String)
    → let t = replace_all card_digits card_label s in
      redact_by later_redactions t ≡ t → ShowsNoCard none (sanitize_text h (str s))
unfolding sanitize_text redact_by to_string
sanitize_text-ShowsNoCard h s unchanged = subst (ShowsNoCard none) (sym unchanged) (
    shows-of_nowhere none (replace_all card_digits card_label s)
      (result-MatchesNowhere 0 none none s (inl refl)))
