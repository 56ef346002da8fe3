-- ===== src/Adapters/Seen.antt =====
-- The loop that skips the events whose keys it has seen.
use codeburn_watcher.Prelude.{
  ◌+◌, ◌≡◌, refl, List, [], ◌∷◌, foldl, arith, Text, text_eq, firsts_by, has_one, insert_new,
  foldl-insert_new_start, any-append, length, Bool-cases, inl, inr, ◌==◌,
}
use codeburn_watcher.Collection.Event.{UsageEvent}
use codeburn_watcher.Adapters.{Gathered, nothing, is_seen, keep}

-- The keys that are seen are those of the events that are kept.
abbrev pub SeesKept : (UsageEvent → Text) → Gathered → Type 0
SeesKept key g = (k : Text) → is_seen k g ≡ has_one key k g.events

pub keep-events :
    (key : UsageEvent → Text) (g : Gathered) (ev : UsageEvent)
    → SeesKept key g
    → (keep key g ev).events ≡ insert_new key g.events ev
unfolding keep
keep-events key g ev s = elim (Bool-cases (is_seen (key ev) g)) [
  | inl p ↦ rw (p, ← s (key ev), p) refl
  | inr p ↦ rw (p, ← s (key ev), p) refl
]

pub keep-SeesKept :
    (key : UsageEvent → Text) (g : Gathered) (ev : UsageEvent)
    → SeesKept key g
    → SeesKept key (keep key g ev)
unfolding keep
keep-SeesKept key g ev s k = elim (Bool-cases (is_seen (key ev) g)) [
  | inl p ↦ rw p (s k)
  | inr p ↦ rw p (ground (arith, s k, any-append (λ e. k == key e) g.events (ev ∷ [])))
]

pub keep-found :
    (key : UsageEvent → Text) (g : Gathered) (ev : UsageEvent) → (keep key g ev).found ≡ g.found + 1
unfolding keep
keep-found key g ev = ground arith

pub foldl-keep :
    (key : UsageEvent → Text) (l : List UsageEvent) (g : Gathered)
    → SeesKept key g
    → ((foldl (keep key) g l).events ≡ foldl (insert_new key) g.events l)
      × ((foldl (keep key) g l).found ≡ g.found + length l)
foldl-keep key [] g s = (refl, omega arith)
foldl-keep key (ev ∷ l) g s =
    let (events, found) = foldl-keep key l (keep key g ev) (keep-SeesKept key g ev s) in
    (rw (← keep-events key g ev s) events, omega (arith, found, keep-found key g ev))

-- From the start the loop keeps the first event of each key, and counts all.
pub foldl-keep_start :
    (key : UsageEvent → Text) (l : List UsageEvent)
    → ((foldl (keep key) nothing l).events ≡ firsts_by key l)
      × ((foldl (keep key) nothing l).found ≡ length l)
foldl-keep_start key l =
    let (events, found) = foldl-keep key l nothing (λ k. refl) in
    (rw (← foldl-insert_new_start key l) events, omega (arith, found))
