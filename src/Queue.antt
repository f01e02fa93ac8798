-- ===== src/Queue.antt =====
-- queue/queue.js: the two queues in memory, first in, first out.
use mathlib.Core.List.{append-nil, append_assoc}
use payment_sim.Value.{Value, undefined}
use payment_sim.Prelude.{ℕ, zero, suc, ◌≡◌, refl, sym, ap, ◌∙◌, List, [], ◌∷◌, ◌++◌, length}

pub record Queues : Type 0 where
  pub queue : List Value
  pub dead_letter_queue : List Value

-- `queue.push(txn)`
unfoldable pub add_to_queue : Value → Queues → Queues
add_to_queue txn q = record q { queue = q.queue ++ txn ∷ [] }

-- `queue.shift()`, which answers `undefined` when the queue is empty
abbrev pub shifted : List Value → Value × List Value
shifted [] = (undefined, [])
shifted (txn ∷ rest) = (txn, rest)

unfoldable pub get_next_transaction : Queues → Value × Queues
get_next_transaction q = let (txn, rest) = shifted q.queue in (txn, record q { queue = rest })

unfoldable pub add_to_dead_letter_queue : Value → Queues → Queues
add_to_dead_letter_queue txn q = record q { dead_letter_queue = q.dead_letter_queue ++ txn ∷ [] }

abbrev pub get_dead_letter_queue : Queues → List Value
get_dead_letter_queue q = q.dead_letter_queue

-- as many transactions as are asked for, one after another
abbrev pub next_transactions : ℕ → Queues → List Value
next_transactions zero q = []
next_transactions (suc n) q = let (txn, q') = get_next_transaction q in txn ∷ next_transactions n q'

abbrev pub add_all : List Value → Queues → Queues
add_all [] q = q
add_all (txn ∷ txns) q = add_all txns (add_to_queue txn q)

added_queue : (txns : List Value) (q : Queues) → (add_all txns q).queue ≡ q.queue ++ txns
unfolding add_to_queue
added_queue [] q = sym (append-nil q.queue)
added_queue (txn ∷ txns) q =
    added_queue txns (add_to_queue txn q) ∙ append_assoc q.queue (txn ∷ []) txns

in_order :
    (txns : List Value) (q : Queues) → q.queue ≡ txns → next_transactions (length txns) q ≡ txns
unfolding get_next_transaction
in_order [] q e = refl
in_order (txn ∷ txns) q e =
    let rest : (shifted q.queue).1 ≡ txns = ap (λ (l : List Value). (shifted l).1) e in
    ap
      (λ (l : List Value).
        (shifted l).0 ∷ next_transactions (length txns) (get_next_transaction q).1)
      e
    ∙ ap (λ l. txn ∷ l) (in_order txns (get_next_transaction q).1 rest)

-- Transactions come out of an empty queue in the order in which they were added.
pub next_transactions-add_all :
    (txns : List Value) (q : Queues)
    → q.queue ≡ []
    → next_transactions (length txns) (add_all txns q) ≡ txns
next_transactions-add_all txns q empty =
    in_order txns (add_all txns q) (added_queue txns q ∙ ap (λ (l : List Value). l ++ txns) empty)
