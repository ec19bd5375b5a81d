-- ===== src/Sdk/Math/Tests.antt =====
-- Instances of the theorems on the SDK's quotes, in whole numbers.
use duel_protocol.Prelude.{ℕ, ◌≡◌, refl, some, true, leb}
use duel_protocol.Curve.{tokens_out, bisect}
use duel_protocol.Sdk.Number.{whole}
use duel_protocol.Sdk.Math.{calculate_reserve, calculate_tokens_out, calculate_quote_out}
use duel_protocol.Sdk.Math.Laws.{IsBestQuote, calculate_tokens_out-IsBestQuote, quote_round_trip}
use duel_protocol.Sdk.Math.Whole.{whole-IsRounded, sdk_config, calculate_tokens_out-whole}

buy_run : calculate_tokens_out whole 100000 0 1000000000 ≡ some 52304
unfolding calculate_tokens_out calculate_reserve bisect
buy_run = refl

calculate_tokens_out-IsBestQuote_example :
    (r : ℕ) × (calculate_tokens_out whole 100000 0 1000000000 ≡ some r)
    × IsBestQuote whole 100000 0 1000000000 r
calculate_tokens_out-IsBestQuote_example =
    calculate_tokens_out-IsBestQuote whole whole-IsRounded 100000 0 1000000000 refl (λ e. cc)

quote_round_trip_example :
    (back : ℕ) × (calculate_quote_out whole 52304 52304 ≡ some back) × (leb back 100000 ≡ true)
quote_round_trip_example =
    quote_round_trip whole whole-IsRounded 100000 0 1000000000 refl 52304 buy_run

calculate_tokens_out-whole_example :
    calculate_tokens_out whole 100000 7 500 ≡ tokens_out 100000 7 (sdk_config 500)
calculate_tokens_out-whole_example = calculate_tokens_out-whole 100000 7 500
