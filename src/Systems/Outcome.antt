-- ===== src/Systems/Outcome.antt =====
-- What the processor and the routed systems let through, in one condition each.
use payment_sim.Systems.{
  route_transaction, Processed, process_transaction, validate_pin, validate_balance, is_declined,
  handle_internal, handle_external, dispatch_route,
}
use payment_sim.Value.{
  Value, Host, truthy, is_str, is_num, is_bool_true, prop, to_number, greater_than,
}
use payment_sim.Value.Numbers.{of_ℕ, num_le}
use payment_sim.Config.{Config}
use payment_sim.Prelude.{◌≡◌, Bool, true, false, not, ◌&&◌, ◌||◌, arith, if◌then◌else◌}

abbrev pub is_balance_inquiry : Value → Bool
is_balance_inquiry txn = is_str "BALANCE_INQUIRY" (prop "type" txn)

-- a positive amount, or a balance inquiry, which needs none
abbrev pub has_amount : Host → Value → Bool
has_amount h txn =
    is_balance_inquiry txn
    || (truthy (prop "amount" txn) && not (num_le (to_number h (prop "amount" txn)) (of_ℕ 0)))

-- the amount for which the processor simulates a failure
abbrev pub has_failing_amount : Value → Bool
has_failing_amount txn = is_num (of_ℕ 999) (prop "amount" txn)

-- the PIN was right, and the money is there
abbrev pub is_covered : Host → Config → Value → Bool
is_covered h cfg txn =
    is_bool_true (prop "pinVerified" txn)
    && (is_str "REVERSAL" (prop "type" txn)
        || not (greater_than h (prop "amount" txn) cfg.default_balance))

abbrev pub is_known_network : Value → Bool
is_known_network txn =
    is_str "EXTERNAL_PROCESSOR" (prop "network" txn) || is_str "CARD_NETWORK" (prop "network" txn)

-- An internal transaction is a balance inquiry or covered; any other goes to a known network.
abbrev pub is_served : Host → Config → Value → Bool
is_served h cfg txn =
    if is_str "INTERNAL" (prop "issuerType" txn)
    then is_balance_inquiry txn || is_covered h cfg txn
    else is_known_network txn

abbrev pub is_declined_by_processor : Processed → Bool
is_declined_by_processor (Processed.declined reason) = true
is_declined_by_processor p = false

abbrev pub is_failed_by_processor : Processed → Bool
is_failed_by_processor (Processed.failed reason) = true
is_failed_by_processor p = false

pub processor_declines :
    (h : Host) (txn : Value)
    → is_declined_by_processor (process_transaction h txn) ≡ not (has_amount h txn)
unfolding process_transaction
processor_declines h txn = ground arith

pub processor_fails :
    (h : Host) (txn : Value)
    → is_failed_by_processor (process_transaction h txn)
      ≡ (has_amount h txn && has_failing_amount txn)
unfolding process_transaction
processor_fails h txn = ground arith

pub dispatch_declines :
    (h : Host) (cfg : Config) (txn : Value)
    → is_declined (dispatch_route h cfg txn (route_transaction txn)) ≡ not (is_served h cfg txn)
unfolding dispatch_route route_transaction handle_internal handle_external validate_pin
    validate_balance
dispatch_declines h cfg txn = ground arith
