-- ===== src/Risk.antt =====
-- risk/riskEngine.js
use payment_sim.Prelude.{String, ◌&&◌, if◌then◌else◌}
use payment_sim.Value.{Value, Host, is_str, prop, greater_than}
use payment_sim.Config.{
  international_atm_limit, ecommerce_review_limit, international_pos_review_limit,
}

pub data Risk : Type 0 where
  reject review : String → Risk
  approve : Risk

unfoldable pub evaluate_risk : Host → Value → Risk
evaluate_risk h txn =
    let channel = prop "channel" txn in
    let amount = prop "amount" txn in
    if is_str "INTERNATIONAL_ATM" channel && greater_than h amount international_atm_limit
    then reject "High-risk international ATM withdrawal"
    else if is_str "ECOM" channel && greater_than h amount ecommerce_review_limit
    then review "High-value e-commerce transaction"
    else if is_str "INTERNATIONAL_POS" channel
        && greater_than h amount international_pos_review_limit
    then review "High-value international POS transaction"
    else approve
