-- ===== src/Redact/Matches.antt =====
-- What it means that an expression matches, apart from the way that the matcher finds it.
use Prim.Native.Char.{Char}
use payment_sim.Redact.{
  Piece, boundary, run, at_boundary, room, less_one, or_else, one_more, match_run, match_at,
}
use payment_sim.Prelude.{
  ℕ, zero, suc, ◌+◌, ◌-◌, ◌≤◌, String, ◌≡◌, ◌↔◌, refl, sym, subst, ◌⊎◌, inl, inr, Bool, true, false,
  ◌&&◌, Option, none, some, List, [], ◌∷◌, arith, eqb, if◌then◌else◌, length,
}

-- `k` characters of the class, from the place `before`, `s` up to the place `before'`, `s'`
pub data Run (class : Char → Bool) : ℕ → Option Char → String → Option Char → String → Type 0 where
  here : {before : Option Char} {s : String} → Run class 0 before s before s
  there :
      {k : ℕ} {before before' : Option Char} {c : Char} {s s' : String}
      → class c ≡ true
      → Run class k (some c) s before' s'
      → Run class (suc k) before (String.◌∷◌ c s) before' s'

abbrev pub Within : ℕ → Option ℕ → Type 0
Within k none = Unit
Within k (some n) = k ≤ n

-- The expression matches `n` characters at the place `before`, `s`.
pub data Fits : List Piece → Option Char → String → ℕ → Type 0 where
  done : {before : Option Char} {s : String} → Fits [] before s 0
  edge :
      {ps : List Piece} {before : Option Char} {s : String} {n : ℕ}
      → at_boundary before s ≡ true
      → Fits ps before s n
      → Fits (boundary ∷ ps) before s n
  through :
      {class : Char → Bool} {least : ℕ} {most : Option ℕ} {ps : List Piece}
      {before before' : Option Char} {s s' : String} {k n : ℕ}
      → Run class k before s before' s'
      → least ≤ k
      → Within k most
      → Fits ps before' s' n
      → Fits (run class least most ∷ ps) before s (k + n)

-- What a run that is found gives: the run, and the match of the rest after it.
abbrev pub Found :
    (Option Char → String → Option ℕ)
    → (Char → Bool)
    → ℕ
    → Option ℕ
    → Option Char
    → String
    → ℕ
    → Type 0
Found after class least most before s n =
    (k m : ℕ) × (before' : Option Char) × (s' : String) × Run class k before s before' s'
    × (least ≤ k)
    × Within k most
    × (after before' s' ≡ some m)
    × (n ≡ k + m)

or_else-some : (a b : Option ℕ) (n : ℕ) → or_else a b ≡ some n → (a ≡ some n) ⊎ (b ≡ some n)
or_else-some none b n e = inr e
or_else-some (some m) b n e = inl e

is_found : (a b : Option ℕ) (n : ℕ) → (a ≡ some n) ⊎ (b ≡ some n) → (m : ℕ) × (or_else a b ≡ some m)
is_found none b n (inl e) = absurd (cc)
is_found none b n (inr e) = (n, e)
is_found (some m) b n e = (m, refl)

longer-some :
    (test : Bool) (o : Option ℕ) (n : ℕ)
    → (if test then one_more o else none) ≡ some n
    → (m : ℕ) × (test ≡ true) × (o ≡ some m) × (n ≡ suc m)
longer-some true none n e = absurd (cc)
longer-some true (some m) n e = (m, refl, refl, ground arith)
longer-some false o n e = absurd (cc)

Within-zero : (most : Option ℕ) → Within 0 most
Within-zero none = tt
Within-zero (some n) = omega arith

Within-suc :
    (k : ℕ) (most : Option ℕ) → room most ≡ true → Within k (less_one most) → Within (suc k) most
Within-suc k none r w = tt
Within-suc k (some n) r w = ground arith

Within-less :
    (k : ℕ) (most : Option ℕ) → Within (suc k) most → (room most ≡ true) × Within k (less_one most)
Within-less k none w = (refl, tt)
Within-less k (some n) w = (ground arith, omega arith)

longer-due :
    (test : Bool) (o : Option ℕ) (n : ℕ)
    → test ≡ true
    → o ≡ some n
    → (if test then one_more o else none) ≡ some (suc n)
longer-due test o n p e = rw (p, e) refl

no_more-due :
    (least : ℕ) (o : Option ℕ) (n : ℕ)
    → least ≡ 0
    → o ≡ some n
    → (if eqb least 0 then o else none) ≡ some n
no_more-due least o n p e = rw p e

given :
    (test : Bool) (o : Option ℕ) (n : ℕ)
    → (if test then o else none) ≡ some n
    → (test ≡ true) × (o ≡ some n)
given true o n e = (refl, e)
given false o n e = absurd (cc)

same_length : (m n : ℕ) → some m ≡ some n → m ≡ n
same_length m n e = ground arith

no_more-some :
    (least : ℕ) (o : Option ℕ) (n : ℕ)
    → (if eqb least 0 then o else none) ≡ some n
    → (least ≡ 0) × (o ≡ some n)
no_more-some zero o n e = (refl, e)
no_more-some (suc l) o n e = absurd (ground arith)

both_true : (a b : Bool) → (a && b) ≡ true → (a ≡ true) × (b ≡ true)
both_true true b e = (refl, e)
both_true false b e = absurd (cc)

module _ (after : Option Char → String → Option ℕ) (class : Char → Bool) where
  no_more-Found :
      (least : ℕ) (most : Option ℕ) (before : Option Char) (s : String) (n : ℕ)
      → (if eqb least 0 then after before s else none) ≡ some n
      → Found after class least most before s n
  no_more-Found least most before s n e =
      let (none_due, found) = no_more-some least (after before s) n e in
      (0, n, before, s, here, omega arith, Within-zero most, found, omega arith)

  pub match_run-Found :
      (least : ℕ) (most : Option ℕ) (before : Option Char) (s : String) (n : ℕ)
      → match_run after class least most before s ≡ some n
      → Found after class least most before s n
  unfolding match_run
  match_run-Found least most before String.[] n e = no_more-Found least most before "" n e
  match_run-Found least most before (String.◌∷◌ c s) n e =
      let ih = match_run-Found (least - 1) (less_one most) (some c) s in
      elim (or_else-some _ _ n e) [
        | inl longer ↦
            let (m, test, found, length) = longer-some _ _ n longer in
            let (k, r, before', s', ran, enough, within, rest, sum) = ih m found in
            let (hit, more) = both_true (class c) (room most) test in
            (
              suc k,
              r,
              before',
              s',
              there hit ran,
              omega arith,
              Within-suc k most more within,
              rest,
              omega arith,
            )
        | inr last ↦ no_more-Found least most before (String.◌∷◌ c s) n last
      ]

  -- If the rest matches after some run of the right length, a run is found.
  pub Run-match_run :
      (least : ℕ) (most : Option ℕ) (k : ℕ) (before before' : Option Char) (s s' : String)
      → Run class k before s before' s'
      → least ≤ k
      → Within k most
      → (m : ℕ) → after before' s' ≡ some m
      → (n : ℕ) × (match_run after class least most before s ≡ some n)
  unfolding match_run
  Run-match_run least most zero before before' String.[] s' here l w m e =
      (m, no_more-due least _ m (omega arith) e)
  Run-match_run least most zero before before' (String.◌∷◌ c s) s' here l w m e =
      is_found _ _ m (inr (no_more-due least (after before (String.◌∷◌ c s)) m (omega arith) e))
  Run-match_run least most (suc k) before before' String.[] s' ran l w m e = elim ran [ ]
  Run-match_run least most (suc k) before before' (String.◌∷◌ c s) s' (there hit ran) l w m e =
      let (more, within) = Within-less k most w in
      let (n, found) =
        Run-match_run (least - 1) (less_one most) k (some c) before' s s' ran (omega arith) within m
          e in
      is_found _ _ (suc n) (inl (longer-due (class c && room most) _ n (rw (hit, more) refl) found))

-- What the matcher finds is a match.
pub match_at-Fits :
    (p : List Piece) (before : Option Char) (s : String) (n : ℕ)
    → match_at p before s ≡ some n
    → Fits p before s n
unfolding match_at
match_at-Fits [] before s n e = subst (Fits [] before s) (same_length 0 n e) done
match_at-Fits (boundary ∷ ps) before s n e =
    let (at, rest) = given _ _ n e in edge at (match_at-Fits ps before s n rest)
match_at-Fits (run class least most ∷ ps) before s n e =
    let (k, m, before', s', ran, enough, within, rest, sum) =
      match_run-Found (match_at ps) class least most before s n e in
    subst (Fits (run class least most ∷ ps) before s) (sym sum)
      (through ran enough within (match_at-Fits ps before' s' m rest))

-- A match that there is, is found, or one that starts at the same place.
pub Fits-match_at :
    (p : List Piece) (before : Option Char) (s : String) (n : ℕ)
    → Fits p before s n
    → (m : ℕ) × (match_at p before s ≡ some m)
unfolding match_at
Fits-match_at [] before s n done = (0, refl)
Fits-match_at (boundary ∷ ps) before s n (edge at fits) =
    let (m, found) = Fits-match_at ps before s n fits in (m, rw at found)
Fits-match_at (run class least most ∷ ps) before s n
      (through {before' = before'} {s' = s'} {k = k} {n = m} ran enough within fits) =
    let (r, found) = Fits-match_at ps before' s' m fits in
    Run-match_run (match_at ps) class least most k before before' s s' ran enough within r found

-- The matcher is complete and sound: it finds a match at a place exactly if the expression matches
-- some characters there.
match_at_iff :
    (p : List Piece) (before : Option Char) (s : String)
    → ((n : ℕ) × Fits p before s n) ↔ ((n : ℕ) × (match_at p before s ≡ some n))
match_at_iff p before s = (
  λ found. Fits-match_at p before s found.0 found.1,
  λ found. (found.0, match_at-Fits p before s found.0 found.1),
)
