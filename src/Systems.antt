-- ===== src/Systems.antt =====
-- broker/router.js, processor/processor.js and systems/*.js
pub mod Outcome
use payment_sim.Prelude.{String, Bool, true, false, not, ◌&&◌, ◌||◌, if◌then◌else◌}
use payment_sim.Value.{
  Value, Host, truthy, is_str, is_num, is_bool_true, prop, to_number, greater_than,
}
use payment_sim.Value.Numbers.{Num, of_ℕ, num_le}
use payment_sim.Config.{Config}

pub data Route : Type 0 where
  internal external_processor card_network external unknown : Route

unfoldable pub route_transaction : Value → Route
route_transaction txn =
    if is_str "INTERNAL" (prop "issuerType" txn)
    then internal
    else if is_str "EXTERNAL_PROCESSOR" (prop "network" txn)
    then external_processor
    else if is_str "CARD_NETWORK" (prop "network" txn)
    then card_network
    else if is_str "EXTERNAL" (prop "issuerType" txn)
    then external
    else unknown

-- `APPROVED`, `DECLINED` and `FAILED` of the processor
pub data Processed : Type 0 where
  approved : Processed
  declined failed : String → Processed

unfoldable pub process_transaction : Host → Value → Processed
process_transaction h txn =
    let amount = prop "amount" txn in
    if not (is_str "BALANCE_INQUIRY" (prop "type" txn))
      && (not (truthy amount) || num_le (to_number h amount) (of_ℕ 0))
    then declined "Invalid amount"
    else if is_num (of_ℕ 999) amount
    then failed "Simulated processor failure"
    else approved

-- What a routed system answers. `approved` is the `APPROVED` of systems A and B.
pub data Reply : Type 0 where
  approved : Reply
  declined : (reason : String) → Reply
  success : (system details : String) → Reply
  balance : Num → Reply

unfoldable pub validate_pin : Value → Reply
validate_pin txn =
    if is_bool_true (prop "pinVerified" txn) then Reply.approved else Reply.declined "Invalid PIN"

unfoldable pub validate_balance : Host → Config → Value → Reply
validate_balance h cfg txn =
    if is_str "BALANCE_INQUIRY" (prop "type" txn)
    then balance cfg.inquiry_balance
    else if is_str "REVERSAL" (prop "type" txn)
    then success "REVERSAL_SYSTEM" "Previous transaction reversed"
    else if greater_than h (prop "amount" txn) cfg.default_balance
    then Reply.declined "Insufficient funds"
    else Reply.approved

abbrev pub is_declined : Reply → Bool
is_declined (Reply.declined reason) = true
is_declined _ = false

unfoldable pub handle_internal : Host → Config → Value → Reply
unfolding validate_pin validate_balance
handle_internal h cfg txn =
    let pin_result = validate_pin txn in
    let balance_result = validate_balance h cfg txn in
    if is_str "BALANCE_INQUIRY" (prop "type" txn)
    then balance_result
    else if is_declined pin_result
    then pin_result
    else if is_declined balance_result
    then balance_result
    else if is_str "REVERSAL" (prop "type" txn)
    then balance_result
    else if is_str "CASH_WITHDRAWAL" (prop "type" txn)
    then success "ATM_CASH_SYSTEM" "Cash withdrawal approved"
    else success "PURCHASE_SYSTEM" "Purchase approved"

unfoldable pub handle_external : Value → Reply
handle_external txn =
    if is_str "EXTERNAL_PROCESSOR" (prop "network" txn)
    then success "EXTERNAL_PROCESSOR" "Processed by external issuer processor"
    else if is_str "CARD_NETWORK" (prop "network" txn)
    then success "CARD_NETWORK" "Routed through card network to issuer"
    else Reply.declined "Unsupported external network"

-- the part of `processClaimedTransaction` that picks the system by the route
unfoldable pub dispatch_route : Host → Config → Value → Route → Reply
unfolding handle_internal handle_external
dispatch_route h cfg txn internal = handle_internal h cfg txn
dispatch_route h cfg txn external_processor = handle_external txn
dispatch_route h cfg txn card_network = handle_external txn
dispatch_route h cfg txn _ = Reply.declined "Unsupported route"
