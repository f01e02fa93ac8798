-- ===== src/Auth/Access.antt =====
-- Who is shown a transaction's status.
use Prim.Native.String
use mathlib.Core.List.{Memᴰ}
use payment_sim.App.{StatusAnswer, shown, get_status}
use payment_sim.Auth.{
  Env, dev_admin_api_key, Credential, parse_admin_api_keys, configured_or,
  get_configured_admin_api_keys, constant_time_equals, is_valid_admin_api_key, Auth, client,
  admin_api_key_auth, api_key_or_admin_auth, can_access_transaction_status,
}
use payment_sim.Auth.Keys.{equal_texts, allowed_credentials, api_key_sound}
use payment_sim.Value.{Host}
use payment_sim.Store.Tables.{Row, Db, equals?}
use payment_sim.Store.Updates.{get_transaction}
use payment_sim.Sensitive.{is_production}
use payment_sim.Prelude.{
  String, ◌≡◌, refl, sym, ap, ◌∙◌, subst, ◌≢◌, ◌⊎◌, inl, inr, true, Option, none, some, List, [],
  ◌∷◌, arith, ◌==◌, eq_iff, if◌then◌else◌, Bool-cases, Option-cases, any,
}

abbrev row_or : Row → StatusAnswer → Row
row_or r (shown row) = row
row_or r answer = r

-- the administrator keys that may be used, without the fallback where it is not meant to be
abbrev pub allowed_admin_keys : Env → List String
allowed_admin_keys env =
    if is_production env then parse_admin_api_keys env else get_configured_admin_api_keys env

allowed-admin : (env : Env) → allowed_admin_keys env ≡ get_configured_admin_api_keys env
unfolding get_configured_admin_api_keys
allowed-admin env = elim (Bool-cases (is_production env)) [
  | inl p ↦ rw p (no_fallback p (parse_admin_api_keys env))
  | inr dev ↦ rw dev refl
]
  where
    no_fallback :
        is_production env ≡ true
        → (keys : List String) → keys ≡ configured_or env dev_admin_api_key keys
    no_fallback p [] = rw p refl
    no_fallback p (k ∷ ks) = refl

-- An administrator, by a configured key that is not empty.
abbrev pub IsAdmin : Host → Option String → Type 0
IsAdmin h admin_key =
    (k : String) × (admin_key ≡ some k) × (k ≢ "") × Memᴰ k (allowed_admin_keys h.env)

-- The owner of a row, by a configured key that is not empty.
abbrev pub IsOwner : Host → Option String → Row → Type 0
IsOwner h key r =
    (c : Credential) × (key ≡ some c.key)
    × (c.key ≢ "")
    × Memᴰ c (allowed_credentials h.env)
    × (r.client_id ≡ some c.client_id)

abbrev pub TimingSafe : Host → Type 0
TimingSafe h = (a b : String) → String.len a ≡ String.len b → h.timing_safe_equal a b ≡ (a == b)

one_of :
    (h : Host) (provided : String) (keys : List String)
    → TimingSafe h
    → any (constant_time_equals h provided) keys ≡ true
    → Memᴰ provided keys
one_of h provided [] law e = cc
one_of h provided (k ∷ ks) law e = elim (Bool-cases (constant_time_equals h provided k)) [
  | inl hit ↦ Memᴰ.head (equal_texts h provided k law hit)
  | inr miss ↦ Memᴰ.tail (one_of h provided ks law (rw miss at e))
]

admitted :
    (h : Host) (admin_key : Option String)
    → TimingSafe h
    → admin_api_key_auth h admin_key ≡ true
    → IsAdmin h admin_key
unfolding admin_api_key_auth is_valid_admin_api_key
admitted h none law e = cc
admitted h (some k) law e =
    let given : k ≢ "" = ground (arith, eq_iff k "") in
    let known : any (constant_time_equals h k) (get_configured_admin_api_keys h.env) ≡ true =
      ground arith in
    (
      k,
      refl,
      given,
      subst (Memᴰ k) (sym (allowed-admin h.env))
          (one_of h k (get_configured_admin_api_keys h.env) law known),
    )

equal_text : (o : Option String) (s : String) → equals? o s ≡ true → o ≡ some s
equal_text none s e = cc
equal_text (some t) s e = ap some ((eq_iff t s).0 e)

reader :
    (h : Host) (admin_key key : Option String) (auth : Auth) (r : Row)
    → TimingSafe h
    → api_key_or_admin_auth h admin_key key ≡ some auth
    → can_access_transaction_status auth r ≡ true
    → IsAdmin h admin_key ⊎ IsOwner h key r
unfolding can_access_transaction_status api_key_or_admin_auth
reader h admin_key key auth r law known allowed =
    elim (Bool-cases (admin_api_key_auth h admin_key)) [
      | inl is_admin ↦ inl (admitted h admin_key law is_admin)
      | inr not_admin ↦
          let (c, provided, given, same, listed) =
            api_key_sound h key auth law (rw not_admin at known) in
          let owns : can_access_transaction_status (client c.client_id) r ≡ true =
            subst (λ a. can_access_transaction_status a r ≡ true) same allowed in
          inr (c, provided, given, listed, equal_text r.client_id c.client_id owns)
    ]

-- `GET /status/:id` shows a row only for a configured administrator key, or for a configured client
-- key of the client whose id stands in the row; the row is the one that the id names. In production
-- the keys are those of the environment. `timingSafeEqual` is assumed to decide whether two texts with
-- equally many bytes are equal.
pub status_shown :
    (h : Host) (admin_key key : Option String) (id : String) (db : Db) (r : Row)
    → TimingSafe h
    → get_status h admin_key key id db ≡ shown r
    → (get_transaction id db ≡ some r) × (IsAdmin h admin_key ⊎ IsOwner h key r)
unfolding get_status
status_shown h admin_key key id db r law e =
    elim (Option-cases (api_key_or_admin_auth h admin_key key)) [
      | inl refused ↦ absurd (cc (rw (refused, get_status) at e))
      | inr (auth, known) ↦ elim (Option-cases (get_transaction id db)) [
        | inl missing ↦ absurd (cc (rw (known, missing, get_status) at e))
        | inr (row, found) ↦ elim (Bool-cases (can_access_transaction_status auth row)) [
          | inr denied ↦ absurd (cc (rw (known, found, denied, get_status) at e))
          | inl allowed ↦
              let same : row ≡ r = ap (row_or r) (rw (known, found, allowed, get_status) at e) in
              (
                found ∙ ap some same,
                subst (λ x. IsAdmin h admin_key ⊎ IsOwner h key x) same
                    (reader h admin_key key auth row law known allowed),
              )
        ]
      ]
    ]
