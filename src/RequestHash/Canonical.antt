-- ===== src/RequestHash/Canonical.antt =====
-- `sortValue` answers a canonical form: two values have the same one exactly if they are reorderings
-- of each other.
use payment_sim.RequestHash.{
  units, units_le, key_le, insert_sorted, sort_value, sort_items, sort_fields,
}
use payment_sim.RequestHash.Reordered.{
  Reordered, same, objects, arrays, ReorderedItems, empty, both, ReorderedFields, none_left, keep,
  swap, chain, sort_value-Reordered,
}
use payment_sim.Value.{Fields, field, end, Value, obj, arr, Items, cons, nil}
use payment_sim.Prelude.{String, ◌≡◌, sym, subst, ◌≢◌, ◌↔◌, inl, inr, false, Bool-cases}
use payment_sim.RequestHash.Order.{key_le_total}

later_units : (k j : String) → key_le k j ≡ false → units k ≢ units j
unfolding key_le
later_units k j later e =
    let first : key_le k k ≡ false = subst (λ us. units_le (units k) us ≡ false) (sym e) later in
    cc (first, key_le_total k k first)

fields_same : (fs : Fields) → ReorderedFields fs fs
fields_same end = none_left
fields_same (field k v fs) = keep same (fields_same fs)

insert_sorted-ReorderedFields :
    (k : String) (v : Value) (fs : Fields) → ReorderedFields (field k v fs) (insert_sorted k v fs)
unfolding insert_sorted
insert_sorted-ReorderedFields k v end = keep same none_left
insert_sorted-ReorderedFields k v (field j w fs) = elim (Bool-cases (key_le k j)) [
  | inl first ↦ rw first (fields_same (field k v (field j w fs)))
  | inr later ↦
      rw later
        (chain (swap (later_units k j later)) (keep same (insert_sorted-ReorderedFields k v fs)))
]

mutual
  unfolding sort_value

  value_sorted : (v : Value) → Reordered v (sort_value v)
  value_sorted (arr xs) = arrays (items_sorted xs)
  value_sorted (obj fs) = objects (fields_sorted fs)
  value_sorted _ = same

  items_sorted : (xs : Items) → ReorderedItems xs (sort_items xs)
  items_sorted nil = empty
  items_sorted (cons v xs) = both (value_sorted v) (items_sorted xs)

  fields_sorted : (fs : Fields) → ReorderedFields fs (sort_fields fs)
  fields_sorted end = none_left
  fields_sorted (field k v fs) =
      chain (keep (value_sorted v) (fields_sorted fs))
        (insert_sorted-ReorderedFields k (sort_value v) (sort_fields fs))

mutual
  value_back : {v w : Value} → Reordered v w → Reordered w v
  value_back same = same
  value_back (objects r) = objects (fields_back r)
  value_back (arrays r) = arrays (items_back r)

  items_back : {xs ys : Items} → ReorderedItems xs ys → ReorderedItems ys xs
  items_back empty = empty
  items_back (both r rs) = both (value_back r) (items_back rs)

  fields_back : {fs gs : Fields} → ReorderedFields fs gs → ReorderedFields gs fs
  fields_back none_left = none_left
  fields_back (keep r rs) = keep (value_back r) (fields_back rs)
  fields_back (swap n) = swap (λ e. n (sym e))
  fields_back (chain r r') = chain (fields_back r') (fields_back r)

mutual
  value_then : {u v w : Value} → Reordered u v → Reordered v w → Reordered u w
  value_then same r = r
  value_then (objects r) same = objects r
  value_then (objects r) (objects r') = objects (chain r r')
  value_then (arrays r) same = arrays r
  value_then (arrays r) (arrays r') = arrays (items_then r r')

  items_then :
      {xs ys zs : Items} → ReorderedItems xs ys → ReorderedItems ys zs → ReorderedItems xs zs
  items_then empty rs = rs
  items_then (both r rs) (both r' rs') = both (value_then r r') (items_then rs rs')

-- Two values have the same canonical form exactly if they differ only in the order of the properties
-- of their objects, at any depth: what `sortValue` forgets is the order, and nothing else.
pub sort_value_iff : (v w : Value) → Reordered v w ↔ (sort_value v ≡ sort_value w)
sort_value_iff v w = (
  sort_value-Reordered v w,
  λ e. value_then (subst (Reordered v) e (value_sorted v)) (value_back (value_sorted w)),
)
