-- ===== src/Auth/Keys.antt =====
-- Whom an API key authenticates.
use Prim.Native.String
use mathlib.Core.List.{Memᴰ}
use payment_sim.Auth.{
  Env, dev_api_key, Credential, parse_api_credentials, configured_or,
  get_configured_api_credentials, constant_time_equals, authenticate_api_key, Auth, client,
  api_key_auth, eqb,
}
use payment_sim.Value.{Host}
use payment_sim.Sensitive.{is_production}
use payment_sim.Prelude.{
  String, ◌≡◌, refl, sym, ap, ◌∙◌, subst, ◌≢◌, inl, inr, true, false, Option, none, some, List, [],
  ◌∷◌, arith, ◌==◌, eq_iff, eq_refl, if◌then◌else◌, Bool-cases, Option-cases, find,
}

abbrev some_or {ℓ} : {A : Type ℓ} → A → Option A → A
some_or a none = a
some_or a (some b) = b

pub equal_texts :
    (h : Host) (a b : String)
    → ((a b : String) → String.len a ≡ String.len b → h.timing_safe_equal a b ≡ (a == b))
    → constant_time_equals h a b ≡ true
    → a ≡ b
unfolding constant_time_equals
equal_texts h a b law e = elim (Bool-cases (eqb (String.len a) (String.len b))) [
  | inl same ↦
      let equal : (a == b) ≡ true = sym (law a b (ground arith)) ∙ rw same at e in
      (eq_iff a b).0 equal
  | inr differs ↦ absurd (cc (rw differs at e))
]

itself :
    (h : Host) (a : String)
    → ((a b : String) → String.len a ≡ String.len b → h.timing_safe_equal a b ≡ (a == b))
    → constant_time_equals h a a ≡ true
unfolding constant_time_equals
itself h a law = ground (arith, law a a refl, eq_refl a)

some_inj {ℓ} : {A : Type ℓ} {a b : A} → some a ≡ some b → a ≡ b
some_inj {a = a} e = ap (some_or a) e

found-listed :
    (h : Host) (provided : String) (cs : List Credential) (c : Credential)
    → ((a b : String) → String.len a ≡ String.len b → h.timing_safe_equal a b ≡ (a == b))
    → find (λ c. constant_time_equals h provided c.key) cs ≡ some c
    → Memᴰ c cs × (provided ≡ c.key)
found-listed h provided [] c law e = cc
found-listed h provided (x ∷ xs) c law e =
    elim (Bool-cases (constant_time_equals h provided x.key)) [
      | inl hit ↦
          let same : some x ≡ some c = rw hit at e in
          let this : x ≡ c = ap (some_or x) same in
          (
            Memᴰ.head (sym this),
            equal_texts h provided x.key law hit ∙ ap (λ (y : Credential). y.key) this,
          )
      | inr miss ↦ let (m, k) = found-listed h provided xs c law (rw miss at e) in (Memᴰ.tail m, k)
    ]

first-found :
    (h : Host) (provided : String) (cs : List Credential)
    → constant_time_equals h provided provided ≡ true
    → (c : Credential) → Memᴰ c cs
    → c.key ≡ provided
    → (d : Credential) × (find (λ c. constant_time_equals h provided c.key) cs ≡ some d)
first-found h provided [] t c m e = elim m [ ]
first-found h provided (x ∷ xs) t c m e =
    elim (Bool-cases (constant_time_equals h provided x.key)) [
      | inl hit ↦ (x, rw hit)
      | inr miss ↦ elim m [
        | Memᴰ.head same ↦ absurd (cc (miss, t, ap (λ (y : Credential). y.key) same, e))
        | Memᴰ.tail rest ↦ let (d, k) = first-found h provided xs t c rest e in (d, rw miss k)
      ]
    ]

-- The configured credentials in production are those of the environment: the development key is
-- no fallback there.
pub production_credentials :
    (env : Env)
    → is_production env ≡ true
    → get_configured_api_credentials env ≡ parse_api_credentials env
unfolding get_configured_api_credentials
production_credentials env p = no_fallback (parse_api_credentials env)
  where
    no_fallback :
        (cs : List Credential)
        → configured_or env (record { client_id = "development-client"; key = dev_api_key }) cs ≡ cs
    no_fallback [] = rw p
    no_fallback (c ∷ cs) = refl

-- the credentials that may be used, without the fallback where it is not meant to be
abbrev pub allowed_credentials : Env → List Credential
allowed_credentials env =
    if is_production env then parse_api_credentials env else get_configured_api_credentials env

allowed-configured : (env : Env) → allowed_credentials env ≡ get_configured_api_credentials env
allowed-configured env = elim (Bool-cases (is_production env)) [
  | inl p ↦ rw p (sym (production_credentials env p))
  | inr dev ↦ rw dev
]

authenticated :
    (h : Host) (key : String) (cs : List Credential) (c : Credential)
    → authenticate_api_key h (some key) cs ≡ some c
    → (key ≢ "") × (find (λ c. constant_time_equals h key c.key) cs ≡ some c)
unfolding authenticate_api_key
authenticated h key cs c e = elim (Bool-cases (key == "")) [
  | inl empty ↦ absurd (cc (rw empty at e))
  | inr given ↦ (ground (arith, eq_iff key ""), rw given at e)
]

-- Whom `apiKeyAuth` lets in: only a client whose key is not empty and is one of the configured
-- credentials, under the client id that stands beside that key. In production those are the
-- credentials that the environment lists. `timingSafeEqual` is
-- assumed to decide whether two texts with equally many bytes are equal; of other texts nothing is
-- assumed.
pub api_key_sound :
    (h : Host) (provided : Option String) (auth : Auth)
    → ((a b : String) → String.len a ≡ String.len b → h.timing_safe_equal a b ≡ (a == b))
    → api_key_auth h provided ≡ some auth
    → (c : Credential) × (provided ≡ some c.key)
      × (c.key ≢ "")
      × (auth ≡ client c.client_id)
      × Memᴰ c (allowed_credentials h.env)
unfolding api_key_auth
api_key_sound h none auth law e = cc
api_key_sound h (some key) auth law e =
    elim (Option-cases (authenticate_api_key h (some key) (get_configured_api_credentials h.env))) [
      | inl refused ↦ absurd (cc (rw (refused, api_key_auth) at e))
      | inr (c, found) ↦
          let (given, first) = authenticated h key _ c found in
          let (listed, same) = found-listed h key _ c law first in
          (
            c,
            ap some same,
            subst (λ k. k ≢ "") same given,
            sym (some_inj (rw (found, api_key_auth) at e)),
            subst (Memᴰ c) (sym (allowed-configured h.env)) listed,
          )
    ]

authenticates :
    (h : Host) (key : String) (cs : List Credential) (d : Credential)
    → key ≢ ""
    → find (λ c. constant_time_equals h key c.key) cs ≡ some d
    → authenticate_api_key h (some key) cs ≡ some d
unfolding authenticate_api_key
authenticates h key cs d given found =
    let nonempty : (key == "") ≡ false = ground (arith, eq_iff key "") in rw nonempty found

let_in :
    (h : Host) (key : Option String) (d : Credential)
    → authenticate_api_key h key (get_configured_api_credentials h.env) ≡ some d
    → api_key_auth h key ≡ some (client d.client_id)
unfolding api_key_auth
let_in h key d e = rw (e, api_key_auth)

-- Every configured key that is not empty is let in, as the client of a credential with that key.
-- `timingSafeEqual` is assumed to decide whether two texts with equally many bytes are equal; of other
-- texts nothing is assumed, so it matters that the lengths are compared first.
pub api_key_complete :
    (h : Host) (c : Credential)
    → ((a b : String) → String.len a ≡ String.len b → h.timing_safe_equal a b ≡ (a == b))
    → Memᴰ c (get_configured_api_credentials h.env)
    → c.key ≢ ""
    → (d : Credential) × Memᴰ d (get_configured_api_credentials h.env)
      × (d.key ≡ c.key)
      × (api_key_auth h (some c.key) ≡ some (client d.client_id))
api_key_complete h c law m given =
    let cs = get_configured_api_credentials h.env in
    let (d, found) = first-found h c.key cs (itself h c.key law) c m refl in
    let (listed, same) = found-listed h c.key cs d law found in
    (d, listed, sym same, let_in h (some c.key) d (authenticates h c.key cs d given found))
