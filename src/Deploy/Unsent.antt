-- ===== src/Deploy/Unsent.antt =====
-- An export for a URL that a transport without a client takes.
use codeburn_watcher.Prelude.{◌≡◌, refl, true, none, Text, codes, inl, inr}
use codeburn_watcher.Prelude.Results.{Result-cases}
use codeburn_watcher.Prelude.Runs.{
  unfinished, after, exited, returned, Run, Ended, failed, panicked,
}
use codeburn_watcher.Disk.{Disk}
use codeburn_watcher.Deploy.Transport.{
  Web, HttpExportTransport, is_http, http_push, http_fetch_config, composite_push,
  composite_fetch_config,
}

-- The run returns nothing (it fails or panics) and leaves the state as it was.
abbrev HasFailed : {A : Type 0} → Ended A → Type 0
HasFailed (returned a) = ⊥
HasFailed (failed m) = Unit {0}
HasFailed panicked = Unit {0}
HasFailed (exited n) = ⊥
HasFailed unfinished = ⊥

abbrev pub IsUnsent : {S A : Type 0} → S → Ended A × S → Type 0
IsUnsent s r = HasFailed r.0 × (r.1 ≡ s)

-- What goes on after a run that is unsent.
pub after-IsUnsent :
    {S A B : Type 0} (f : A → Run S B) (s : S) (r : Ended A × S)
    → IsUnsent {A = A} s r
    → IsUnsent {A = B} s (after f r)
after-IsUnsent f s (returned a, t) h = absurd (h.0)
after-IsUnsent f s (failed m, t) h = h
after-IsUnsent f s (panicked, t) h = h
after-IsUnsent f s (exited n, t) h = absurd (h.0)
after-IsUnsent f s (unfinished, t) h = absurd (h.0)

abbrev pub no_client : HttpExportTransport
no_client = record { client = none }

module _ {S : Type 0} (web : Web S) (d : Disk S) where
  http_push-IsUnsent :
      (filename body url : Text) (s : S) → IsUnsent s (http_push web no_client filename body url s)
  unfolding http_push
  http_push-IsUnsent filename body url s =
      elim (Result-cases (web.create_form_file (codes "file") filename)) [
        | inl (e, p) ↦ rw p (tt, refl)
        | inr (header, p) ↦ elim (Result-cases (web.copy header body)) [
          | inl (e, q) ↦ rw (p, q) (tt, refl)
          | inr (buf, q) ↦
              elim (Result-cases (web.new_request (codes "POST") url (web.close buf))) [
                | inl (e, r) ↦ rw (p, q, r) (tt, refl)
                | inr (req, r) ↦ rw (p, q, r) (tt, refl)
              ]
        ]
      ]

  http_fetch_config-IsUnsent :
      (url : Text) (s : S) → IsUnsent s (http_fetch_config web no_client url s)
  unfolding http_fetch_config
  http_fetch_config-IsUnsent url s =
      elim (Result-cases (web.new_request (codes "GET") url (codes ""))) [
        | inl (e, r) ↦ rw r (tt, refl)
        | inr (req, r) ↦ rw r (tt, refl)
      ]

  -- A transport without a client sends nothing to a URL that starts with http, and fetches nothing from
  -- it: it fails or panics, and changes nothing.
  pub composite-IsUnsent :
      (filename body url : Text) (s : S)
      → is_http url ≡ true
      → IsUnsent s (composite_push web d no_client filename body url s)
        × IsUnsent s (composite_fetch_config web d no_client url s)
  unfolding composite_push composite_fetch_config
  composite-IsUnsent filename body url s h =
      (rw h (http_push-IsUnsent filename body url s), rw h (http_fetch_config-IsUnsent url s))
