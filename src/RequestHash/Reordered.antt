-- ===== src/RequestHash/Reordered.antt =====
-- The request hash does not depend on the order of properties.
use payment_sim.RequestHash.{
  units, sort_value, sort_items, sort_fields, canonicalize, create_request_hash,
}
use payment_sim.RequestHash.Json.{json_value}
use payment_sim.RequestHash.Order.{insert_sorted_comm}
use payment_sim.Value.{Fields, field, end, Value, obj, arr, Items, cons, nil, Host}
use payment_sim.Prelude.{String, ◌≡◌, refl, ap, ◌∙◌, ◌≢◌}

-- One value with the properties of its objects, at any depth, in another order. Two names are
-- different when their UTF-16 units are.
mutual
  pub data Reordered : Value → Value → Type 0 where
    same : {v : Value} → Reordered v v
    objects : {fs gs : Fields} → ReorderedFields fs gs → Reordered (obj fs) (obj gs)
    arrays : {xs ys : Items} → ReorderedItems xs ys → Reordered (arr xs) (arr ys)

  pub data ReorderedItems : Items → Items → Type 0 where
    empty : ReorderedItems nil nil
    both :
        {v w : Value} {xs ys : Items}
        → Reordered v w
        → ReorderedItems xs ys
        → ReorderedItems (cons v xs) (cons w ys)

  pub data ReorderedFields : Fields → Fields → Type 0 where
    none_left : ReorderedFields end end
    keep :
        {k : String} {v w : Value} {fs gs : Fields}
        → Reordered v w
        → ReorderedFields fs gs
        → ReorderedFields (field k v fs) (field k w gs)
    swap :
        {k j : String} {v w : Value} {fs : Fields}
        → units k ≢ units j
        → ReorderedFields (field k v (field j w fs)) (field j w (field k v fs))
    chain :
        {fs gs hs : Fields} → ReorderedFields fs gs → ReorderedFields gs hs → ReorderedFields fs hs

mutual
  unfolding sort_value

  pub sort_value-Reordered : (v w : Value) → Reordered v w → sort_value v ≡ sort_value w
  sort_value-Reordered v w same = refl
  sort_value-Reordered v w (objects {fs = fs} {gs = gs} r) = ap obj (sort_fields-Reordered fs gs r)
  sort_value-Reordered v w (arrays {xs = xs} {ys = ys} r) = ap arr (sort_items-Reordered xs ys r)

  sort_items-Reordered : (xs ys : Items) → ReorderedItems xs ys → sort_items xs ≡ sort_items ys
  sort_items-Reordered xs ys empty = refl
  sort_items-Reordered xs ys (both {v = v} {w = w} {xs = xs'} {ys = ys'} r rs) =
      cc (sort_value-Reordered v w r, sort_items-Reordered xs' ys' rs)

  sort_fields-Reordered : (fs gs : Fields) → ReorderedFields fs gs → sort_fields fs ≡ sort_fields gs
  sort_fields-Reordered fs gs none_left = refl
  sort_fields-Reordered fs gs (keep {k = k} {v = v} {w = w} {fs = fs'} {gs = gs'} r rs) =
      cc (sort_value-Reordered v w r, sort_fields-Reordered fs' gs' rs)
  sort_fields-Reordered fs gs (swap {k = k} {j = j} {v = v} {w = w} {fs = fs'} n) =
      insert_sorted_comm k j (sort_value v) (sort_value w) (sort_fields fs') n
  sort_fields-Reordered fs gs (chain {gs = middle} r r') =
      sort_fields-Reordered fs middle r ∙ sort_fields-Reordered middle gs r'

-- Two bodies that differ only in the order of the properties of their objects, at any depth, have
-- the same request hash, so the second one is no conflict under an idempotency key.
pub create_request_hash-Reordered :
    (h : Host) (v w : Value) → Reordered v w → create_request_hash h v ≡ create_request_hash h w
create_request_hash-Reordered h v w r =
    let same_text : canonicalize h v ≡ canonicalize h w =
      unfold canonicalize in ap (json_value h) (sort_value-Reordered v w r) in
    unfold create_request_hash in rw (same_text, create_request_hash)
