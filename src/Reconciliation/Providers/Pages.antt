-- ===== src/Reconciliation/Providers/Pages.antt =====
-- The loop over the pages: when it ends, and what it adds up.
use codeburn_watcher.Prelude.{
  ℕ, suc, zero, ◌+◌, ◌≤◌, ◌≡◌, refl, sym, ap, ◌∙◌, true, false, none, some, List, [], ◌∷◌, ◌++◌,
  foldl, arith, Text, text_eq, Assoc, upsert, values, All, sum_by, foldl-append, if◌then◌else◌,
  ◌==◌, Bool-cases, inl, inr,
}
use codeburn_watcher.Prelude.Results.{Result, ok}
use codeburn_watcher.Reconciliation.{ProviderUsage, total_tokens}
use codeburn_watcher.Reconciliation.Providers.{
  openai_url, openai_usage, Page, Refusal, Response, Api, AnthropicRow, anthropic, OpenAiRow,
  openai, blank_usage, add_row, fetch_page, fetch_pages, fetch_usage,
}

blank_tokens : (model k : Text) → (if model == k then total_tokens (blank_usage k) else 0) ≡ 0
blank_tokens model k = ground arith

module _ {R : Type 0} (api : Api R) where
  -- The weight of the rows of a model.
  abbrev pub weight_of_model : (R → ℕ) → Text → List R → ℕ
  weight_of_model weight model rows =
      sum_by (λ r. if model == api.model_of r then weight r else 0) rows

  -- Adding a row keeps the model of a usage and adds the row's weight to its tokens.
  abbrev pub Adds : (R → ℕ) → R → Type 0
  Adds weight r =
      (u : ProviderUsage)
      → (total_tokens (api.add r u) ≡ total_tokens u + weight r) × ((api.add r u).model ≡ u.model)

  -- The tokens of a model among some usages.
  abbrev pub tokens_of_model : Text → List ProviderUsage → ℕ
  tokens_of_model model us = sum_by (λ u. if model == u.model then total_tokens u else 0) us

  -- Each usage stands under its model.
  abbrev IsKeyed : Assoc Text ProviderUsage → Type 0
  IsKeyed [] = Unit {0}
  IsKeyed ((k, u) ∷ m) = (u.model ≡ k) × IsKeyed m

  module _ (weight : R → ℕ) (r : R) (adds : Adds weight r) where
    add_row-IsKeyed : (m : Assoc Text ProviderUsage) → IsKeyed m → IsKeyed (add_row api m r)
    unfolding upsert
    add_row-IsKeyed [] h = ((adds (blank_usage (api.model_of r))).1, tt)
    add_row-IsKeyed ((k, u) ∷ m) h = elim (Bool-cases (api.model_of r == k)) [
      | inl p ↦ rw p ((adds u).1 ∙ h.0, h.1)
      | inr p ↦ rw p (h.0, add_row-IsKeyed m h.1)
    ]

    tokens_of_model-add :
        (model : Text) (u : ProviderUsage)
        → u.model ≡ api.model_of r
        → tokens_of_model model (api.add r u ∷ [])
          ≡ tokens_of_model model (u ∷ []) + (if model == api.model_of r then weight r else 0)
    tokens_of_model-add model u h =
        let n = total_tokens (api.add r u) in
        let grown = ap (λ t. if model == t then n else 0) ((adds u).1 ∙ h) in
        let before = ap (λ t. if model == t then total_tokens u else 0) h in
        elim (Bool-cases (model == api.model_of r)) [
          | inl p ↦ rw p (omega (arith, (adds u).0, rw p at grown, rw p at before))
          | inr p ↦ rw p (omega (arith, rw p at grown, rw p at before))
        ]

    tokens_of_model-add_row :
        (model : Text) (m : Assoc Text ProviderUsage)
        → IsKeyed m
        → tokens_of_model model (values (add_row api m r))
          ≡ tokens_of_model model (values m) + (if model == api.model_of r then weight r else 0)
    unfolding upsert
    tokens_of_model-add_row model [] h = omega (
      arith,
      tokens_of_model-add model (blank_usage (api.model_of r)) refl,
      blank_tokens model (api.model_of r),
    )
    tokens_of_model-add_row model ((k, u) ∷ m) h = elim (Bool-cases (api.model_of r == k)) [
      | inl p ↦ rw p (
          omega (
            arith,
            tokens_of_model-add model u (h.0 ∙ sym ((text_eq.beq_iff (api.model_of r) k).0 p)),
          ))
      | inr p ↦ rw p (omega (arith, tokens_of_model-add_row model m h.1))
    ]

  foldl-add_row :
      (weight : R → ℕ) (model : Text) (rows : List R) (m : Assoc Text ProviderUsage)
      → All (Adds weight) rows
      → IsKeyed m
      → tokens_of_model model (values (foldl (add_row api) m rows))
        ≡ tokens_of_model model (values m) + weight_of_model weight model rows
  foldl-add_row weight model [] m a h = omega arith
  foldl-add_row weight model (r ∷ rows) m a h = omega (
    arith,
    foldl-add_row weight model rows (add_row api m r) a.1 (add_row-IsKeyed weight r a.0 m h),
    tokens_of_model-add_row weight r a.0 model m h,
  )

module _ {R : Type 0} (api : Api R) (client : Text → Result Refusal Response)
    (decode : Text → Result Text (Page R)) (url : Text) where
  -- The pages that a server gives from a token on, the last of which says that there are no more, with
  -- all their rows.
  pub data Served : Text → ℕ → List R → Type 0 where
    last :
        (token : Text) (p : Page R)
        → fetch_page api client decode url token ≡ ok p
        → p.has_more ≡ false
        → Served token 1 p.rows
    next :
        (token : Text) (p : Page R) {n : ℕ} {rows : List R}
        → fetch_page api client decode url token ≡ ok p
        → p.has_more ≡ true
        → Served p.next_page n rows
        → Served token (suc n) (p.rows ++ rows)

  fetch_pages-Served :
      {token : Text} {n : ℕ} {rows : List R}
      → Served token n rows
      → (fuel : ℕ) (totals : Assoc Text ProviderUsage) → n ≤ fuel
      → fetch_pages api client decode url fuel totals token
        ≡ some (ok (foldl (add_row api) totals rows))
  unfolding fetch_pages
  fetch_pages-Served (last token p got done) zero totals h = absurd (omega arith)
  fetch_pages-Served (last token p got done) (suc fuel) totals h = rw (fetch_pages, got, done) refl
  fetch_pages-Served (next token p got more rest) zero totals h = absurd (omega arith)
  fetch_pages-Served (next token p {n} {rows} got more rest) (suc fuel) totals h =
      rw (fetch_pages, got, more)
        (fetch_pages-Served rest fuel (foldl (add_row api) totals p.rows) (omega arith)
          ∙ ap (λ t. some (ok t)) (sym (foldl-append (add_row api) totals p.rows rows)))

  -- If the server's pages end after `n` of them, the loop ends within `n` rounds, and it returns usages in
  -- which the tokens of each model are those of its rows on all pages, whatever weight adding a row adds.
  pub fetch_usage-returns :
      (weight : R → ℕ) {n : ℕ} {rows : List R} (fuel : ℕ)
      → Served [] n rows
      → All (Adds api weight) rows
      → n ≤ fuel
      → (usages : List ProviderUsage) × (fetch_usage api client decode url fuel ≡ some (ok usages))
        × ((model : Text)
            → tokens_of_model api model usages ≡ weight_of_model api weight model rows)
  unfolding fetch_usage
  fetch_usage-returns weight {n} {rows} fuel served adds h = (
    values (foldl (add_row api) [] rows),
    rw (fetch_usage, fetch_pages-Served served fuel [] h) refl,
    λ model. omega (arith, foldl-add_row api weight model rows [] adds tt),
  )

  fetch_pages-loops :
      (p : Page R)
      → fetch_page api client decode url [] ≡ ok p
      → p.has_more ≡ true
      → p.next_page ≡ []
      → (fuel : ℕ) (totals : Assoc Text ProviderUsage)
      → fetch_pages api client decode url fuel totals [] ≡ none
  unfolding fetch_pages
  fetch_pages-loops p got more same zero totals = refl
  fetch_pages-loops p got more same (suc fuel) totals =
      rw (fetch_pages, got, more, same)
        (fetch_pages-loops p got more same fuel (foldl (add_row api) totals p.rows))

  -- A server whose first page says that there are more and names no next page is asked for it for ever.
  pub fetch_usage-loops :
      (p : Page R)
      → fetch_page api client decode url [] ≡ ok p
      → p.has_more ≡ true
      → p.next_page ≡ []
      → (fuel : ℕ) → fetch_usage api client decode url fuel ≡ none
  unfolding fetch_usage
  fetch_usage-loops p got more same fuel =
      rw (fetch_usage, fetch_pages-loops p got more same fuel []) refl

-- The tokens of a row, as the two APIs report them.
abbrev pub anthropic_tokens : AnthropicRow → ℕ
anthropic_tokens r =
    r.uncached_input_tokens + r.output_tokens + r.cache_read_input_tokens + r.ephemeral_5m
    + r.ephemeral_1h

pub anthropic-Adds : (r : AnthropicRow) → Adds anthropic anthropic_tokens r
anthropic-Adds r u = (omega arith, refl)

abbrev pub openai_tokens : OpenAiRow → ℕ
openai_tokens r = r.input_tokens + r.output_tokens

-- The cached tokens are not counted twice.
pub openai-Adds : (r : OpenAiRow) → Adds openai openai_tokens r
openai-Adds r u = (omega (arith, r.cached_le), refl)

rows-Adds : (rows : List OpenAiRow) → All (Adds openai openai_tokens) rows
rows-Adds [] = tt
rows-Adds (r ∷ rows) = (openai-Adds r, rows-Adds rows)

-- If the pages that OpenAI serves end after `n` of them, FetchUsage returns within `n` rounds, and the
-- tokens of a model among the usages that it returns are the input and output tokens of the model's rows:
-- the cached tokens are not counted twice.
pub openai_usage-returns :
    (client : Text → Result Refusal Response) (decode : Text → Result Text (Page OpenAiRow))
    (base_url start_sec end_sec : Text) {n : ℕ} {rows : List OpenAiRow} (fuel : ℕ)
    → Served openai client decode (openai_url base_url start_sec end_sec) [] n rows
    → n ≤ fuel
    → (usages : List ProviderUsage) × (openai_usage client decode base_url start_sec end_sec fuel
        ≡ some (ok usages))
      × ((model : Text)
          → tokens_of_model openai model usages ≡ weight_of_model openai openai_tokens model rows)
unfolding openai_usage
openai_usage-returns client decode base_url start_sec end_sec {n} {rows} fuel served h =
    fetch_usage-returns openai client decode (openai_url base_url start_sec end_sec) openai_tokens
      fuel served (rows-Adds rows) h
