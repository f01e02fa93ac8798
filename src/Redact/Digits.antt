-- ===== src/Redact/Digits.antt =====
-- Runs of digits in a text, and in what the first replacement of `sanitizeText` makes of it.
use Prim.Native.Char.{Char}
use payment_sim.Redact.{
  Piece, is_word, in_word, xor, at_boundary, match_at, replace_from, card_digits,
}
use payment_sim.Redact.Matches.{done, Run, here, there, Fits, edge, through, match_at-Fits}
use payment_sim.Sensitive.{is_digit}
use payment_sim.Prelude.{
  ℕ, zero, suc, ◌≤◌, String, ◌≡◌, refl, subst, inl, inr, Bool, true, false, Option, none, some,
  List, arith, Bool-cases, Option-cases,
}

-- The expression matches at no place of the text.
abbrev pub MatchesNowhere : List Piece → Option Char → String → Type 0
MatchesNowhere p before String.[] = Unit
MatchesNowhere p before (String.◌∷◌ c s) =
    ((n : ℕ) → ¬ Fits p before (String.◌∷◌ c s) n) × MatchesNowhere p (some c) s

abbrev pub card_label : String
card_label = "[REDACTED_CARD]"

pub digit_in_word : (c : Char) → is_digit c ≡ true → is_word c ≡ true
digit_in_word c e = ground arith

-- The digits of a card and its end.
abbrev pub IsCardEnd : ℕ → Option Char → String → Type 0
IsCardEnd k before s =
    (before' : Option Char) × (s' : String) × Run is_digit k before s before' s'
    × (at_boundary before' s' ≡ true)

pub Fits-card :
    (before : Option Char) (s : String) (n : ℕ)
    → Fits card_digits before s n
    → (k : ℕ) × (at_boundary before s ≡ true) × (12 ≤ k) × (k ≤ 19) × (n ≡ k) × IsCardEnd k before s
Fits-card before s n
      (edge at (through {before' = b} {s' = s'} {k = k} ran enough within (edge at' done))) =
    (k, at, enough, within, omega arith, (b, s', ran, at'))

pub not_digit-Fits :
    (before : Option Char) (c : Char) (s : String) (n : ℕ)
    → is_digit c ≡ false
    → ¬ Fits card_digits before (String.◌∷◌ c s) n
not_digit-Fits before c s n miss fits =
    let (k, _, enough, _, _, (b, s', ran, _)) = Fits-card before (String.◌∷◌ c s) n fits in
    starts k b s' enough ran
  where
    starts :
        (k : ℕ) (b : Option Char) (s' : String)
        → 12 ≤ k
        → Run is_digit k before (String.◌∷◌ c s) b s'
        → ⊥
    starts zero b s' enough ran = omega arith
    starts (suc k) b s' enough (there hit ran) = cc

not_found :
    (p : List Piece) (before : Option Char) (s : String)
    → ((n : ℕ) → ¬ Fits p before s n)
    → match_at p before s ≡ none
not_found p before s none_fits = elim (Option-cases (match_at p before s)) [
  | inl e ↦ e
  | inr (n, e) ↦ absurd (none_fits n (match_at-Fits p before s n e))
]

not_digit : (c : Char) → is_word c ≡ false → is_digit c ≡ false
not_digit c e = elim (Bool-cases (is_digit c)) [
  | inl hit ↦ absurd (cc (digit_in_word c hit, e))
  | inr miss ↦ miss
]

pub edge_of : (b : Bool) → xor true b ≡ true → b ≡ false
edge_of true e = cc
edge_of false e = refl

-- Inside a word no match starts.
word_kept :
    (before : Option Char) (c : Char) (s : String)
    → in_word before ≡ true
    → replace_from card_digits card_label 0 before (String.◌∷◌ c s)
      ≡ String.◌∷◌ c (replace_from card_digits card_label 0 (some c) s)
unfolding replace_from
word_kept before c s inside =
    let missed : match_at card_digits before (String.◌∷◌ c s) ≡ none =
      not_found card_digits before (String.◌∷◌ c s) (λ n fits.
        let (k, at, _, _, _, _) = Fits-card before (String.◌∷◌ c s) n fits in
        not_digit-Fits before c s n (not_digit c (edge_of (is_word c) (rw inside at at))) fits) in
    rw missed refl

card_ends : (before : Option Char) (s : String) → IsCardEnd 0 before s → at_boundary before s ≡ true
card_ends before s (b, s', here, at) = at

pub card_goes_on :
    (k : ℕ) (before : Option Char) (c : Char) (s : String)
    → IsCardEnd (suc k) before (String.◌∷◌ c s)
    → (is_digit c ≡ true) × IsCardEnd k (some c) s
card_goes_on k before c s (b, s', there hit ran, at) = (hit, (b, s', ran, at))

no_card_left : (k : ℕ) (before : Option Char) → ¬ IsCardEnd (suc k) before ""
no_card_left k before (b, s', ran, at) = elim ran [ ]

-- What is in the result a run of digits up to the end of a word is one in the text.
pub result-IsCardEnd :
    (k : ℕ) (before : Option Char) (s : String)
    → in_word before ≡ true
    → IsCardEnd k before (replace_from card_digits card_label 0 before s)
    → IsCardEnd k before s
unfolding replace_from
result-IsCardEnd zero before String.[] inside e = e
result-IsCardEnd (suc k) before String.[] inside e = e
result-IsCardEnd k before (String.◌∷◌ c s) inside e =
    let ih = λ (k : ℕ). result-IsCardEnd k (some c) s in
    rest k ih (subst (IsCardEnd k before) (word_kept before c s inside) e)
  where
    rest :
        (k : ℕ)
        → ((k : ℕ)
            → in_word (some c) ≡ true
            → IsCardEnd k (some c) (replace_from card_digits card_label 0 (some c) s)
            → IsCardEnd k (some c) s)
        → IsCardEnd k before (String.◌∷◌ c (replace_from card_digits card_label 0 (some c) s))
        → IsCardEnd k before (String.◌∷◌ c s)
    rest zero ih e = (before, String.◌∷◌ c s, here, card_ends before _ e)
    rest (suc k) ih e =
        let (hit, e') = card_goes_on k before c _ e in
        let (b, s', ran, at) = ih k (digit_in_word c hit) e' in (b, s', there hit ran, at)
