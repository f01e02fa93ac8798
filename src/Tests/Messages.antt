-- ===== src/Tests/Messages.antt =====
-- Messages with card data in them.
use payment_sim.Redact.{replace_from, sanitize_text, redact_by, member_of, setting_of}
use payment_sim.Redact.Cards.{ShowsNoCard, sanitize_text-ShowsNoCard}
use payment_sim.Value.{to_string, str}
use payment_sim.Tests.Samples.{small_host}
use payment_sim.Prelude.{String, ◌≡◌, refl, none}

abbrev leaking : String
leaking = "declined 4111111111111111, \"pin\": \"1234\" PIN=99 cardNumber: 5 at 12:30"

sanitized_message :
    sanitize_text small_host (str leaking)
    ≡ "declined [REDACTED_CARD], [REDACTED_PIN] [REDACTED_PIN] [REDACTED_CARD] at 12:30"
unfolding sanitize_text to_string
sanitized_message = refl

sanitize_text-ShowsNoCard_example :
    ShowsNoCard none (sanitize_text small_host (str "declined 4111111111111111 at 12:30"))
unfolding redact_by replace_from member_of setting_of
sanitize_text-ShowsNoCard_example =
    sanitize_text-ShowsNoCard small_host "declined 4111111111111111 at 12:30" refl

-- Digits that touch a pin are not redacted before it, and stand free after it is.
card_before_pin :
    sanitize_text small_host (str "4111111111111111pin:1") ≡ "4111111111111111[REDACTED_PIN]"
unfolding sanitize_text to_string
card_before_pin = refl
