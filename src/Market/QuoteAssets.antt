-- ===== src/Market/QuoteAssets.antt =====
-- api/src/marketplace/quote-assets.ts. `upper` stands for JavaScript's `trim().toUpperCase()`.
use eco_mint.Prelude.{
  ℕ, String, Bool, true, Option, none, some, List, [], ◌∷◌, filter, str_eq, if◌then◌else◌,
}

pub record QuoteAssetConfig : Type 0 where
  pub symbol : String
  pub decimals : ℕ
  pub display_label : String
  pub enabled : Bool

abbrev pub quote_asset_registry : List QuoteAssetConfig
quote_asset_registry =
    record { symbol = "USDC"; decimals = 6; display_label = "USD Coin"; enabled = true }
    ∷ record { symbol = "XLM"; decimals = 7; display_label = "Stellar Lumens"; enabled = true }
    ∷ []

unfoldable pub find_asset : String → List QuoteAssetConfig → Option QuoteAssetConfig
find_asset symbol [] = none
find_asset symbol (a ∷ registry) =
    if str_eq a.symbol symbol then some a else find_asset symbol registry

unfoldable pub get_quote_asset : (String → String) → String → Option QuoteAssetConfig
get_quote_asset upper symbol = find_asset (upper symbol) quote_asset_registry

abbrev pub enabled_symbol : Option QuoteAssetConfig → Option String
enabled_symbol none = none
enabled_symbol (some a) = if a.enabled then some a.symbol else none

-- `none` is the error `Unsupported quote asset`.
unfoldable pub normalize_quote_asset_symbol : (String → String) → String → Option String
normalize_quote_asset_symbol upper symbol = enabled_symbol (get_quote_asset upper symbol)

unfoldable pub list_supported_quote_assets : List QuoteAssetConfig
list_supported_quote_assets = filter (λ a. a.enabled) quote_asset_registry
