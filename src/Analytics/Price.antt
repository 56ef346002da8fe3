-- ===== src/Analytics/Price.antt =====
-- internal/analytics/model_price.go and pricing_service.go: the price table, the cost of an event's
-- tokens and the premium models.
pub mod Longest
use Prim.Native.String.{String}
use codeburn_watcher.Prelude.{
  ℕ, ◌+◌, Bool, true, false, Option, none, some, List, [], ◌∷◌, Text, codes, has_prefix, contains,
  to_lower, any, if◌then◌else◌,
}
use codeburn_watcher.Prelude.Float.{Float64, of_nat}

-- Dollars per million tokens.
pub record ModelPrice (F : Type 0) : Type 0 where
  pub prefix : Text
  pub input_per_m_token : F
  pub output_per_m_token : F
  pub cache_read_per_m_token : F
  pub cache_write_per_m_token : F

pub record Cost (F : Type 0) : Type 0 where
  pub usd : F
  pub estimated : Bool
  pub unpriced_tokens : ℕ

pub record PricingService (F : Type 0) : Type 0 where
  pub prices : List (ModelPrice F)

abbrev pub premium_prefixes : List Text
premium_prefixes =
    codes "claude-opus"
    ∷ codes "gpt-4"
    ∷ codes "o1"
    ∷ codes "o3"
    ∷ codes "gemini-1.5-pro"
    ∷ codes "claude-3-opus"
    ∷ codes "claude-3-5-sonnet"
    ∷ codes "claude-sonnet-4"
    ∷ codes "claude-opus-4"
    ∷ []

-- strings.HasPrefix(m, strings.ToLower(price.Prefix))
abbrev pub matches : {F : Type 0} → Text → ModelPrice F → Bool
matches m price = has_prefix (to_lower price.prefix) m

-- The loop of CostOf: the first entry whose prefix starts the lowered model name.
unfoldable pub match_price : {F : Type 0} → Text → List (ModelPrice F) → Option (ModelPrice F)
match_price m [] = none
match_price m (price ∷ rest) = if matches m price then some price else match_price m rest

unfoldable pub is_premium_model : {F : Type 0} → PricingService F → Text → Bool
is_premium_model p model =
    let m = to_lower model in any (λ prefix. contains (to_lower prefix) m) premium_prefixes

module _ {F : Type 0} ⦃d : Float64 F⦄ where
  -- An entry of the table, its prices in hundred-thousandths of a dollar.
  abbrev row : String → ℕ → ℕ → ℕ → ℕ → ModelPrice F
  row prefix input output cache_read cache_write = record {
    prefix = codes prefix;
    input_per_m_token = d.lit input 100_000;
    output_per_m_token = d.lit output 100_000;
    cache_read_per_m_token = d.lit cache_read 100_000;
    cache_write_per_m_token = d.lit cache_write 100_000;
  }

  abbrev pub prices : List (ModelPrice F)
  prices =
      row "claude-opus-4" 1_500_000 7_500_000 150_000 1_875_000
      ∷ row "claude-sonnet-4" 300_000 1_500_000 30_000 375_000
      ∷ row "claude-haiku-4" 80_000 400_000 8_000 100_000
      ∷ row "claude-3-5-sonnet" 300_000 1_500_000 30_000 375_000
      ∷ row "claude-3-5-haiku" 80_000 400_000 8_000 100_000
      ∷ row "claude-3-opus" 1_500_000 7_500_000 150_000 1_875_000
      ∷ row "claude-3-sonnet" 300_000 1_500_000 30_000 375_000
      ∷ row "claude-3-haiku" 25_000 125_000 3_000 30_000
      ∷ row "gpt-4o" 250_000 1_000_000 125_000 0
      ∷ row "gpt-4-turbo" 1_000_000 3_000_000 0 0
      ∷ row "gpt-4" 3_000_000 6_000_000 0 0
      ∷ row "gpt-3.5" 50_000 150_000 0 0
      ∷ row "o1" 1_500_000 6_000_000 750_000 0
      ∷ row "o3" 1_000_000 4_000_000 250_000 0
      ∷ row "gemini-2.0-flash" 10_000 40_000 2_500 0
      ∷ row "gemini-1.5-pro" 125_000 500_000 31_250 0
      ∷ row "gemini-1.5-flash" 7_500 30_000 1_875 0
      ∷ []

  abbrev pub new_pricing_service : PricingService F
  new_pricing_service = record { prices = prices }

  abbrev pub usd_of : ModelPrice F → ℕ → ℕ → ℕ → ℕ → F
  usd_of price input output cache_read cache_write =
      let million : F = d.lit 1_000_000 1 in
      d.add
        (d.add
          (d.add (d.div (d.mul (of_nat input) price.input_per_m_token) million)
            (d.div (d.mul (of_nat output) price.output_per_m_token) million))
          (d.div (d.mul (of_nat cache_read) price.cache_read_per_m_token) million))
        (d.div (d.mul (of_nat cache_write) price.cache_write_per_m_token) million)

  unfoldable pub cost_of : PricingService F → Text → ℕ → ℕ → ℕ → ℕ → Cost F
  unfolding match_price
  cost_of p model input output cache_read cache_write =
      elim (match_price (to_lower model) p.prices) [
        | some price ↦ record {
          usd = usd_of price input output cache_read cache_write;
          estimated = false;
          unpriced_tokens = 0;
        }
        | none ↦ record {
          usd = of_nat 0;
          estimated = true;
          unpriced_tokens = input + output + cache_read + cache_write;
        }
      ]
