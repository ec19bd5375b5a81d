-- ===== src/App/Tokens.antt =====
-- The known tokens of app/app/lib/program.ts, and their choice on the page that creates a compare
-- duel, app/app/compare/create/page.tsx.
use package.text.Mathlib.Text.{◌==◌ as str_eq}
use duel_protocol.Prelude.{String, Option, none, some, List, [], ◌∷◌, All, ◌≡◌, refl, if◌then◌else◌}

pub record Token : Type 0 where
  pub symbol : String
  pub mint : String
  pub oracle : String

-- `KNOWN_TOKENS`, whose keys are the symbols, in its order.
abbrev pub known_tokens : List Token
known_tokens =
    record {
      symbol = "SOL";
      mint = "So11111111111111111111111111111111111111112";
      oracle = "H6ARHf6YXhGYeQfUzQNGk6rDNnLBQKrenN712K4AQJEG";
    }
    ∷ record {
      symbol = "BONK";
      mint = "DezXAZ8z7PnrnRJjz3wXBoRgixCa6xjnB7YaB1pPB263";
      oracle = "8ihFLu5FimgTQ1Unh4dVyEHUGodJ5gJQCR9BMy3NKCQ5";
    }
    ∷ record {
      symbol = "WIF";
      mint = "EKpQGSJtjMFqKZ9KQanSqYXRcF8fBopzLHYxdM65zcjm";
      oracle = "6ABgrEZk8urs6kJ1JNdC1sspH5zKXRqxy8sg3ZG2cQps";
    }
    ∷ record {
      symbol = "JUP";
      mint = "JUPyiwrYJFskUPiHa7hkeR8VUtAeFoSYbKedZNsDvCN";
      oracle = "g6eRCbboSwK4tSWngn773RCMexr1APQr4uA9bGZBYfo";
    }
    ∷ record {
      symbol = "RENDER";
      mint = "rndrizKT3MK1iimdxRdWabcF7Zg7AR5T4nud4EkHBof";
      oracle = "HAm5DZhrgrWa12heKSNj4fLvoAuJR4M8pMridwRGE8Sn";
    }
    ∷ []

unfoldable pub symbol_in : List Token → String → Option String
symbol_in [] mint = none
symbol_in (t ∷ ts) mint =
    let later = symbol_in ts mint in if str_eq t.mint mint then some t.symbol else later

unfoldable pub get_token_symbol_from_mint : String → Option String
unfolding symbol_in
get_token_symbol_from_mint mint = symbol_in known_tokens mint

-- `KNOWN_TOKENS[symbol]`
unfoldable pub token_of : List Token → String → Option Token
token_of [] symbol = none
token_of (t ∷ ts) symbol =
    let later = token_of ts symbol in if str_eq t.symbol symbol then some t else later

-- The fields of one side of the form.
pub record Choice : Type 0 where
  pub token_mint : String
  pub oracle : String
  pub quick_select : String

-- `handleQuickSelectA` and `handleQuickSelectB`, on the side that each sets.
unfoldable pub handle_quick_select : String → Choice → Choice
unfolding token_of
handle_quick_select symbol c = elim (token_of known_tokens symbol) as (λ o. Choice) [
  | none ↦ c
  | some token ↦ record { token_mint = token.mint; oracle = token.oracle; quick_select = symbol }
]

-- Choosing a known token sets its mint, from which its symbol is found again.
pub quick_select_round_trip :
    (c : Choice)
    → All
        (λ (t : Token).
          get_token_symbol_from_mint (handle_quick_select t.symbol c).token_mint ≡ some t.symbol)
        known_tokens
unfolding get_token_symbol_from_mint handle_quick_select
quick_select_round_trip c = (refl, (refl, (refl, (refl, (refl, tt)))))
