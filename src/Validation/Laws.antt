-- ===== src/Validation/Laws.antt =====
-- The validator against the description of the requests that it accepts.
use payment_sim.Prelude.{
  ◌≤◌, String, ◌≡◌, refl, sym, ap, ◌∙◌, ◌↔◌, ◌⊎◌, inl, inr, Bool, true, false, not, ◌&&◌, List, [],
  ◌∷◌, arith, ltb, Bool-cases, ◌≢◌, subst, eq_iff,
}
use payment_sim.Value.{Value, str, Fields, Host, truthy, is_str, prop, to_string}
use payment_sim.Value.Numbers.{
  ℤ, Num, finite, infinity, neg_infinity, nan, of_ℕ, num_lt, num_le, is_finite,
}
use payment_sim.Config.{
  Config, supported_issuer_types, supported_networks, supported_transaction_types,
  supported_channels,
}
use payment_sim.Validation.{
  valid, includes, required_fields, missing_fields, length_utf16, accepted_transaction, is_empty,
  validate_transaction, get, to_number, num, undefined, obj,
}
use payment_sim.Validation.Accepts.{
  IsOneOf, is_str_iff, includes_iff, missing_fields_iff, IsAcceptable, Passes, passed, not_rejected,
  Passes-of_valid, valid_of_Passes,
}
use payment_sim.Sensitive.Cards.{get-set_prop}

finite_of_test : (n : Num) → is_finite n ≡ true → (a : ℤ) × (n ≡ finite a)
finite_of_test (finite a) e = (a, refl)
finite_of_test infinity e = cc
finite_of_test neg_infinity e = cc
finite_of_test nan e = cc

positive_iff :
    (type : Value) (a : ℤ)
    → (not (is_str "BALANCE_INQUIRY" type) && num_le (finite a) (of_ℕ 0) ≡ false)
      ↔ ((type ≡ str "BALANCE_INQUIRY") ⊎ (num_lt (of_ℕ 0) (finite a) ≡ true))
positive_iff type a = (
  λ e. elim (Bool-cases (is_str "BALANCE_INQUIRY" type)) [
    | inl same ↦ inl ((is_str_iff "BALANCE_INQUIRY" type).0 same)
    | inr other ↦ elim (Bool-cases (num_lt (of_ℕ 0) (finite a))) [
      | inl above ↦ inr above
      | inr below ↦ absurd (cc (rw (other, below) at e))
    ]
  ],
  λ e. elim e [
    | inl same ↦ rw ((is_str_iff "BALANCE_INQUIRY" type).1 same)
    | inr above ↦ rw above (no_and (not (is_str "BALANCE_INQUIRY" type)))
  ],
)
  where
    no_and : (b : Bool) → b && false ≡ false
    no_and true = refl
    no_and false = refl

supported_network_truthy : (v : Value) → IsOneOf supported_networks v → truthy v ≡ true
supported_network_truthy v (inl e) = rw e
supported_network_truthy v (inr (inl e)) = rw e
supported_network_truthy v (inr (inr e)) = absurd e

-- The two tests on the network.
record PassesNetwork (issuer network : Value) : Type 0 where
  given : is_str "EXTERNAL" issuer && not (truthy network) ≡ false
  known : truthy network && not (includes supported_networks network) ≡ false

abbrev NetworkKnown : Value → Value → Type 0
NetworkKnown issuer network =
    ((truthy network ≡ false) × (issuer ≡ str "INTERNAL")) ⊎ IsOneOf supported_networks network

network_to :
    (issuer network : Value)
    → IsOneOf supported_issuer_types issuer
    → PassesNetwork issuer network
    → NetworkKnown issuer network
network_to issuer network (inl internal) p = elim (Bool-cases (truthy network)) [
  | inl given ↦ inr ((includes_iff supported_networks network).0 (ground (arith, p.known)))
  | inr left_out ↦ inl (left_out, internal)
]
network_to issuer network (inr (inl external)) p = elim (Bool-cases (truthy network)) [
  | inl given ↦ inr ((includes_iff supported_networks network).0 (ground (arith, p.known)))
  | inr left_out ↦ absurd (cc (rw (external, left_out) at p.given))
]
network_to issuer network (inr (inr e)) p = absurd e

network_from : (issuer network : Value) → NetworkKnown issuer network → PassesNetwork issuer network
network_from issuer network (inl (left_out, internal)) = record {
  given = rw internal;
  known = rw left_out;
}
network_from issuer network (inr known) =
    let t = supported_network_truthy network known in
    let i = (includes_iff supported_networks network).1 known in
    record { given = ground (arith, t); known = rw (t, i) }

card_iff :
    (h : Host) (card : Value)
    → (truthy card && ltb (length_utf16 (to_string h card)) 4 ≡ false)
      ↔ ((truthy card ≡ false) ⊎ (4 ≤ length_utf16 (to_string h card)))
card_iff h card = ground arith

no_missing : (xs : List String) → not (is_empty xs) ≡ false → xs ≡ []
no_missing [] e = refl
no_missing (x ∷ xs) e = cc

IsAcceptable-of_Passes :
    (h : Host) (cfg : Config) (txn : Value)
    → missing_fields txn required_fields ≡ []
    → Passes h cfg txn
    → (a : ℤ) × IsAcceptable h cfg txn a
IsAcceptable-of_Passes h cfg txn none_missing p =
    let (a, n) = finite_of_test _ p.finite_amount in
    let issuer = (includes_iff supported_issuer_types _).0 p.issuer_known in
    (
      a,
      record {
        present = unfold required_fields in (missing_fields_iff txn required_fields).0 none_missing;
        numeric = n;
        positive = (positive_iff (prop "type" txn) a).0 (rw n at p.positive);
        limited = rw n at p.limited;
        type_known = (includes_iff supported_transaction_types _).0 p.type_known;
        issuer_known = issuer;
        channel_known = (includes_iff supported_channels _).0 p.channel_known;
        network_known =
            network_to _ _ issuer (record { given = p.network_given; known = p.network_known });
        card_long_enough = (card_iff h (prop "cardNumber" txn)).0 p.card;
      },
    )

Passes-of_acceptable :
    (h : Host) (cfg : Config) (txn : Value) (a : ℤ) → IsAcceptable h cfg txn a → Passes h cfg txn
Passes-of_acceptable h cfg txn a r =
    let net = network_from (prop "issuerType" txn) (prop "network" txn) r.network_known in
    record {
      finite_amount = rw r.numeric;
      positive = rw r.numeric ((positive_iff (prop "type" txn) a).1 r.positive);
      limited = rw r.numeric r.limited;
      type_known = (includes_iff supported_transaction_types _).1 r.type_known;
      issuer_known = (includes_iff supported_issuer_types _).1 r.issuer_known;
      channel_known = (includes_iff supported_channels _).1 r.channel_known;
      network_given = net.given;
      network_known = net.known;
      card = (card_iff h (prop "cardNumber" txn)).1 r.card_long_enough;
    }

accepts_iff :
    (h : Host) (cfg : Config) (txn : Value) (t : Fields)
    → (validate_transaction h cfg txn ≡ valid t)
      ↔ ((a : ℤ) × IsAcceptable h cfg txn a × (t ≡ accepted_transaction txn (finite a)))
unfolding validate_transaction
accepts_iff h cfg txn t = (
  λ e.
      let (m, e1) = passed _ _ _ e in
      let (p, same) = Passes-of_valid h cfg txn e1 in
      let (a, r) = IsAcceptable-of_Passes h cfg txn (no_missing _ m) p in
      (a, r, same ∙ ap (accepted_transaction txn) r.numeric),
  λ (a, r, same).
      let none_missing : missing_fields txn required_fields ≡ [] =
        (missing_fields_iff txn required_fields).1 (unfold required_fields in r.present) in
      not_rejected _ _ _ (ap (λ xs. not (is_empty xs)) none_missing)
      ∙ valid_of_Passes h cfg txn (Passes-of_acceptable h cfg txn a r)
      ∙ ap (λ n. valid (accepted_transaction txn n)) r.numeric
      ∙ ap valid (sym same),
)

-- What an accepted request becomes: its amount as a number, and every other property as it was.
pub record IsConverted (txn : Value) (a : ℤ) (t : Fields) : Type 0 where
  pub amount : get "amount" t ≡ num (finite a)
  pub others : (k : String) → k ≢ "amount" → get k t ≡ prop k txn

converted :
    (txn : Value) (a : ℤ)
    → prop "amount" txn ≢ undefined
    → IsConverted txn a (accepted_transaction txn (finite a))
unfolding accepted_transaction
converted (obj fs) a given = record {
  amount = simp get-set_prop;
  others = λ k other. simp get-set_prop (ground (arith, eq_iff "type" k, eq_iff "amount" k));
}
converted _ a given = absurd (given refl)

-- The validator accepts exactly the requests of the description: the six required properties are
-- there, the amount converts to a number within the limit, positive unless the type is
-- BALANCE_INQUIRY, type, issuer, channel and network are among the named ones, and a card number has
-- four characters at least. Of an accepted request it answers the amount as a number and every other
-- property as it was.
pub validate_transaction_iff :
    (h : Host) (cfg : Config) (txn : Value)
    → (((t : Fields) × (validate_transaction h cfg txn ≡ valid t))
        ↔ ((a : ℤ) × IsAcceptable h cfg txn a))
      × ((t : Fields)
          → validate_transaction h cfg txn ≡ valid t
          → (a : ℤ) × (to_number h (prop "amount" txn) ≡ finite a) × IsConverted txn a t)
validate_transaction_iff h cfg txn = (
  (
    λ (t, e). let (a, r, _) = (accepts_iff h cfg txn t).0 e in (a, r),
    λ (a, r). (
      accepted_transaction txn (finite a),
      (accepts_iff h cfg txn (accepted_transaction txn (finite a))).1 (a, r, refl),
    ),
  ),
  λ t e.
      let (a, r, same) = (accepts_iff h cfg txn t).0 e in
      (a, r.numeric, subst (IsConverted txn a) (sym same) (converted txn a r.present.0.0)),
)
