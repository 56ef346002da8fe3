-- ===== src/Reconciliation/Providers.antt =====
-- infrastructure/providers: the usage APIs of Anthropic and OpenAI in anthropic.go and openai.go. The HTTP
-- client is a function from the URL to the answer. The loop over the pages has no bound in the code, so it
-- takes fuel, `none` being that it still runs.
pub mod Pages
use codeburn_watcher.Prelude.{
  ℕ, zero, suc, ◌+◌, ◌-◌, ◌/◌, ◌%◌, ◌≤◌, Bool, true, false, not, Option, none, some, List, [], ◌∷◌,
  ◌++◌, foldl, Text, text_eq, codes, leb, ltb, Assoc, upsert, values, if◌then◌else◌, ◌==◌,
}
use codeburn_watcher.Prelude.Results.{Result, ok, err}
use codeburn_watcher.Reconciliation.{ProviderUsage}

-- A decoded answer.
pub record Page (R : Type 0) : Type 0 where
  pub rows : List R
  pub has_more : Bool
  pub next_page : Text

-- The errors of http.NewRequest and of the client.
pub data Refusal : Type 0 where
  not_built : Text → Refusal
  not_sent : Text → Refusal

pub record Response : Type 0 where
  pub status : ℕ
  pub body : Text

-- What the two adapters differ in: the name in their errors, the model of a row and how a row is added.
pub record Api (R : Type 0) : Type 0 where
  pub name : Text
  pub model_of : R → Text
  pub add : R → ProviderUsage → ProviderUsage

pub record AnthropicRow : Type 0 where
  pub model : Text
  pub uncached_input_tokens : ℕ
  pub output_tokens : ℕ
  pub cache_read_input_tokens : ℕ
  pub ephemeral_5m : ℕ
  pub ephemeral_1h : ℕ

abbrev pub anthropic : Api AnthropicRow
anthropic = record {
  name = codes "anthropic";
  model_of = λ r. r.model;
  add = λ r u. record {
    model = u.model;
    input_tokens = u.input_tokens + r.uncached_input_tokens;
    output_tokens = u.output_tokens + r.output_tokens;
    cache_read_tokens = u.cache_read_tokens + r.cache_read_input_tokens;
    cache_creation_tokens = u.cache_creation_tokens + (r.ephemeral_5m + r.ephemeral_1h);
  };
}

-- The cached tokens of a row are among its input tokens, as the API documents, so that the code's
-- difference of the two is not below zero.
pub record OpenAiRow : Type 0 where
  pub model : Text
  pub input_tokens : ℕ
  pub input_cached_tokens : ℕ
  pub output_tokens : ℕ
  pub cached_le : input_cached_tokens ≤ input_tokens

abbrev pub openai : Api OpenAiRow
openai = record {
  name = codes "openai";
  model_of = λ r. r.model;
  add = λ r u. record u {
    input_tokens = u.input_tokens + (r.input_tokens - r.input_cached_tokens);
    cache_read_tokens = u.cache_read_tokens + r.input_cached_tokens;
    output_tokens = u.output_tokens + r.output_tokens;
  };
}

-- %d of a number that is not negative: a digit for each round, of which there is one more than `fuel` has.
unfoldable pub digits : ℕ → ℕ → Text → Text
digits zero n acc = (b'0' + n % 10) ∷ acc
digits (suc fuel) n acc = elim (ltb n 10) [
  | true ↦ (b'0' + n) ∷ acc
  | false ↦ digits fuel (n / 10) ((b'0' + n % 10) ∷ acc)
]

abbrev pub decimal : ℕ → Text
decimal n = digits n n []

abbrev pub blank_usage : Text → ProviderUsage
blank_usage model = record {
  model = model;
  input_tokens = 0;
  output_tokens = 0;
  cache_read_tokens = 0;
  cache_creation_tokens = 0;
}

module _ {R : Type 0} (api : Api R) where
  -- The body of the loop over the rows of a page.
  abbrev pub add_row : Assoc Text ProviderUsage → R → Assoc Text ProviderUsage
  add_row totals row =
      upsert (blank_usage (api.model_of row)) (api.model_of row) (api.add row) totals

  -- The client, json.Unmarshal, and the URL up to the page.
  module _ (client : Text → Result Refusal Response) (decode : Text → Result Text (Page R))
      (url : Text) where
    abbrev pub page_url : Text → Text
    page_url next_page = if next_page == [] then url else url ++ (codes "&next_page=" ++ next_page)

    -- One request.
    unfoldable pub fetch_page : Text → Result Text (Page R)
    fetch_page next_page = elim (client (page_url next_page)) [
      | err (not_built m) ↦ err (api.name ++ (codes ": build request: " ++ m))
      | err (not_sent m) ↦ err (api.name ++ (codes ": request: " ++ m))
      | ok r ↦
          if leb 300 r.status
          then err (api.name ++ (codes ": status " ++ (decimal r.status ++ (codes ": " ++ r.body))))
          else elim (decode r.body) [
            | err m ↦ err (api.name ++ (codes ": parse response: " ++ m))
            | ok p ↦ ok p
          ]
    ]

    unfoldable pub fetch_pages :
        ℕ → Assoc Text ProviderUsage → Text → Option (Result Text (Assoc Text ProviderUsage))
    fetch_pages zero totals next_page = none
    fetch_pages (suc fuel) totals next_page = elim (fetch_page next_page) [
      | err m ↦ some (err m)
      | ok p ↦
          let summed = foldl add_row totals p.rows in
          let rest = fetch_pages fuel summed p.next_page in
          if not p.has_more then some (ok summed) else rest
    ]

    unfoldable pub fetch_usage : ℕ → Option (Result Text (List ProviderUsage))
    fetch_usage fuel = elim (fetch_pages fuel [] []) [
      | none ↦ none
      | some (err m) ↦ some (err m)
      | some (ok totals) ↦ some (ok (values totals))
    ]

-- FetchUsage of the two APIs; the dates and the seconds come formatted.
abbrev pub anthropic_url : Text → Text → Text → Text
anthropic_url base_url start_at end_at =
    base_url
    ++ (codes "/v1/organizations/usage_report/messages?starting_at="
        ++ (start_at
            ++ (codes "&ending_at="
                ++ (end_at ++ codes "&bucket_width=1d&limit=31&group_by[]=model"))))

unfoldable pub anthropic_usage :
    (Text → Result Refusal Response)
    → (Text → Result Text (Page AnthropicRow))
    → Text
    → Text
    → Text
    → ℕ
    → Option (Result Text (List ProviderUsage))
anthropic_usage client decode base_url start_at end_at =
    fetch_usage anthropic client decode (anthropic_url base_url start_at end_at)

abbrev pub openai_url : Text → Text → Text → Text
openai_url base_url start_sec end_sec =
    base_url
    ++ (codes "/v1/organization/usage/completions?start_time="
        ++ (start_sec
            ++ (codes "&end_time="
                ++ (end_sec ++ codes "&bucket_width=1d&group_by=model&limit=31"))))

unfoldable pub openai_usage :
    (Text → Result Refusal Response)
    → (Text → Result Text (Page OpenAiRow))
    → Text
    → Text
    → Text
    → ℕ
    → Option (Result Text (List ProviderUsage))
openai_usage client decode base_url start_sec end_sec =
    fetch_usage openai client decode (openai_url base_url start_sec end_sec)
