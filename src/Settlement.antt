-- ===== src/Settlement.antt =====
-- generateSettlement.js: the lines of the settlement file. An amount is kept in cents, which is what
-- `Math.round(txn.amount * 100)` makes of the four amounts; they are exact as doubles.
pub mod Width
use Prim.Native.String
use payment_sim.Value.{Host}
use payment_sim.Value.Numbers.{of_ℕ}
use payment_sim.Sensitive.{chars}
use payment_sim.Prelude.{ℕ, zero, suc, ◌-◌, String, List, [], ◌∷◌, if◌then◌else◌, length}

pub record Settled : Type 0 where
  pub id : String
  pub type : String
  pub cents : ℕ
  pub status : String

abbrev pub transactions : List Settled
transactions =
    record { id = "TXN1001"; type = "PURCHASE"; cents = 10025; status = "APPROVED" }
    ∷ record { id = "TXN1002"; type = "WITHDRAWAL"; cents = 25000; status = "APPROVED" }
    ∷ record { id = "TXN1003"; type = "BALANCE"; cents = 0; status = "SUCCESS" }
    ∷ record { id = "TXN1004"; type = "PURCHASE"; cents = 7550; status = "DECLINED" }
    ∷ []

-- `n` copies of a text
unfoldable pub copies : ℕ → String → String
copies zero s = ""
copies (suc n) s = String.◌++◌ s (copies n s)

-- `String(value).padEnd(length, " ")`, of texts in the basic plane
unfoldable pub pad_right : String → ℕ → String
unfolding copies chars
pad_right s length = String.◌++◌ s (copies (length - chars s) " ")

-- `String(value).padStart(length, "0")`
unfoldable pub pad_left : String → ℕ → String
unfolding copies chars
pad_left s length = String.◌++◌ (copies (length - chars s) "0") s

unfoldable pub settlement_line : Host → Settled → String
unfolding pad_right pad_left
settlement_line h txn = String.◌++◌ (pad_right txn.id 12) (
    String.◌++◌ (pad_right txn.type 12)
      (String.◌++◌ (pad_left (h.string_of_number (of_ℕ txn.cents)) 10) (pad_right txn.status 10)))
