-- ===== src/Tests/ProviderRuns.antt =====
-- The theorems on infrastructure/providers at a concrete input.
use codeburn_watcher.Prelude.{
  ℕ, ◌≡◌, refl, true, false, none, some, List, [], ◌∷◌, arith, Text, codes, text_eq, nat_eq,
  if◌then◌else◌, ◌==◌,
}
use codeburn_watcher.Prelude.Results.{Result, ok, err}
use codeburn_watcher.Reconciliation.{ProviderUsage}
use codeburn_watcher.Reconciliation.Providers.{
  openai_url, OpenAiRow, openai, Page, Refusal, Response, AnthropicRow, anthropic, fetch_page,
  digits, fetch_usage,
}
use codeburn_watcher.Reconciliation.Providers.Pages.{
  Served, last, next, tokens_of_model, weight_of_model, anthropic_tokens, anthropic-Adds,
  fetch_usage-returns, fetch_usage-loops,
}

abbrev usage_row : ℕ → AnthropicRow
usage_row n = record {
  model = codes "m";
  uncached_input_tokens = n;
  output_tokens = 1;
  cache_read_input_tokens = 0;
  ephemeral_5m = 2;
  ephemeral_1h = 0;
}

-- A server of two pages, and one that always says that there are more.
abbrev two_pages : Text → Result Text (Page AnthropicRow)
two_pages body =
    if body == codes "u"
    then ok (record { rows = usage_row 1 ∷ []; has_more = true; next_page = codes "2" })
    else ok (record { rows = usage_row 2 ∷ usage_row 3 ∷ []; has_more = false; next_page = [] })

abbrev more_page : Page AnthropicRow
more_page = record { rows = []; has_more = true; next_page = [] }

-- The client answers with the URL.
abbrev echo : Text → Result Refusal Response
echo url = ok (record { status = 200; body = url })

abbrev all_rows : List AnthropicRow
all_rows = usage_row 1 ∷ usage_row 2 ∷ usage_row 3 ∷ []

two-Served : Served anthropic echo two_pages (codes "u") [] 2 all_rows
unfolding fetch_page
two-Served =
    next [] (record { rows = usage_row 1 ∷ []; has_more = true; next_page = codes "2" }) refl refl
      (last (codes "2")
        (record { rows = usage_row 2 ∷ usage_row 3 ∷ []; has_more = false; next_page = [] }) refl
        refl)

fetch_usage-returns_example :
    (usages : List ProviderUsage) × (fetch_usage anthropic echo two_pages (codes "u") 3
      ≡ some (ok usages))
    × ((model : Text)
        → tokens_of_model anthropic model usages
          ≡ weight_of_model anthropic anthropic_tokens model all_rows)
fetch_usage-returns_example =
    fetch_usage-returns anthropic echo two_pages (codes "u") anthropic_tokens 3 two-Served
      (
        anthropic-Adds (usage_row 1),
        (anthropic-Adds (usage_row 2), (anthropic-Adds (usage_row 3), tt)),
      )
      (omega arith)

more_served : fetch_page anthropic echo (λ body. ok more_page) (codes "u") [] ≡ ok more_page
unfolding fetch_page
more_served = refl

fetch_usage-loops_example : fetch_usage anthropic echo (λ body. ok more_page) (codes "u") 9 ≡ none
fetch_usage-loops_example =
    fetch_usage-loops anthropic echo (λ body. ok more_page) (codes "u") more_page more_served refl
      refl 9

abbrev cached_row : OpenAiRow
cached_row = record {
  model = codes "m";
  input_tokens = 5;
  input_cached_tokens = 3;
  output_tokens = 1;
  cached_le = omega arith;
}

abbrev one_page : Page OpenAiRow
one_page = record { rows = cached_row ∷ cached_row ∷ []; has_more = false; next_page = [] }

one-Served :
    Served openai echo
      (λ body. ok one_page)
      (openai_url (codes "h") (codes "0") (codes "9"))
      []
      1
      (cached_row ∷ cached_row ∷ [])
unfolding fetch_page
one-Served = last [] one_page refl refl

unavailable :
    fetch_page anthropic
      (λ url. ok (record { status = 503; body = codes "no" }))
      two_pages
      (codes "u")
      []
    ≡ err (codes "anthropic: status 503: no")
unfolding fetch_page digits
unavailable = refl
