-- ===== src/Collection/Classifier/Priority.antt =====
-- The flags of Classify say which kinds of tools a turn used, so that its answer depends on these alone.
use codeburn_watcher.Prelude.{
  ◌≡◌, refl, ◌∙◌, ap, Bool, true, false, not, ◌&&◌, ◌||◌, List, [], ◌∷◌, arith, map, foldl, Text,
  text_eq, text_beq_iff, codes, join, any, All, All-imp, if◌then◌else◌,
}
use codeburn_watcher.Shared.{
  Activity, thinking, exploration, coding, testing, shipping, conversation,
}
use codeburn_watcher.Collection.Classifier.{
  write_tools, shell_tools, read_tools, plan_tools, is_in, test_words, ship_words, has_word, norm,
  Flags, no_flags, is_interactive, flag_tool, choose, classify,
}

-- A test that fails at each element of a set fails at each text in the set.
abbrev fails_on : (Text → Bool) → List Text → Bool
fails_on t [] = true
fails_on t (s ∷ set) = not (t s) && fails_on t set

fails_at :
    (t : Text → Bool) (set : List Text) (x : Text)
    → fails_on t set ≡ true
    → is_in set x ≡ true
    → t x ≡ false
unfolding is_in
fails_at t [] x f h = cc
fails_at t (s ∷ set) x f h = ground (arith, text_beq_iff x s, fails_at t set x)

-- What the sets of tools have to do with one another.
pub record IsOneKind (t : Text) : Type 0 where
  pub write_plan : is_in write_tools t ≡ true → is_in shell_tools t ≡ false
  pub plan_kind :
      is_in plan_tools t ≡ true → (is_in shell_tools t ≡ false) × (is_in write_tools t ≡ false)
  pub read_kind :
      is_in read_tools t ≡ true
      → (is_in shell_tools t ≡ false) × (is_in write_tools t ≡ false) × (is_in plan_tools t ≡ false)
  pub shell_kind : is_in shell_tools t ≡ true → is_interactive t ≡ false
  pub write_kind : is_in write_tools t ≡ true → is_interactive t ≡ false
  pub plan_other : is_in plan_tools t ≡ true → is_interactive t ≡ false
  pub read_other : is_in read_tools t ≡ true → is_interactive t ≡ false

kinds : (t : Text) → IsOneKind t
unfolding is_in
kinds t = record {
  write_plan = fails_at (is_in shell_tools) write_tools t refl;
  plan_kind = λ h. (
    fails_at (is_in shell_tools) plan_tools t refl h,
    fails_at (is_in write_tools) plan_tools t refl h,
  );
  read_kind = λ h. (
    fails_at (is_in shell_tools) read_tools t refl h,
    fails_at (is_in write_tools) read_tools t refl h,
    fails_at (is_in plan_tools) read_tools t refl h,
  );
  shell_kind = fails_at is_interactive shell_tools t refl;
  write_kind = fails_at is_interactive write_tools t refl;
  plan_other = fails_at is_interactive plan_tools t refl;
  read_other = fails_at is_interactive read_tools t refl;
}

-- The flags of a list of tools, each as the presence of a tool of its kind.
abbrev pub flags_of : List Text → Flags
flags_of ts = record {
  has_shell = any (is_in shell_tools) ts;
  has_write = any (is_in write_tools) ts;
  has_plan = any (is_in plan_tools) ts;
  has_read = any (is_in read_tools) ts;
  has_interactive = any is_interactive ts;
}

abbrev or_flags : Flags → Flags → Flags
or_flags f g = record {
  has_shell = f.has_shell || g.has_shell;
  has_write = f.has_write || g.has_write;
  has_plan = f.has_plan || g.has_plan;
  has_read = f.has_read || g.has_read;
  has_interactive = f.has_interactive || g.has_interactive;
}

-- The flags of one tool.
abbrev flag_of : Text → Flags
flag_of t = record {
  has_shell = is_in shell_tools t;
  has_write = is_in write_tools t;
  has_plan = is_in plan_tools t;
  has_read = is_in read_tools t;
  has_interactive = is_interactive t;
}

or_assoc : (a b c : Bool) → ((a || b) || c) ≡ (a || (b || c))
or_assoc a b c = ground arith

or_flags_assoc : (f g h : Flags) → or_flags (or_flags f g) h ≡ or_flags f (or_flags g h)
or_flags_assoc f g h = λ i. record {
  has_shell = or_assoc f.has_shell g.has_shell h.has_shell i;
  has_write = or_assoc f.has_write g.has_write h.has_write i;
  has_plan = or_assoc f.has_plan g.has_plan h.has_plan i;
  has_read = or_assoc f.has_read g.has_read h.has_read i;
  has_interactive = or_assoc f.has_interactive g.has_interactive h.has_interactive i;
}

flag_tool-or : (f : Flags) (t : Text) → flag_tool f t ≡ or_flags f (flag_of t)
unfolding flag_tool
flag_tool-or f t = let k = kinds t in ground arith

or_none : (f : Flags) → f ≡ or_flags f no_flags
or_none f = ground arith

foldl-or : (f : Flags) (ts : List Text) → foldl flag_tool f ts ≡ or_flags f (flags_of ts)
foldl-or f [] = or_none f
foldl-or f (t ∷ ts) =
    foldl-or (flag_tool f t) ts
    ∙ ap (λ g. or_flags g (flags_of ts)) (flag_tool-or f t)
    ∙ or_flags_assoc f (flag_of t) (flags_of ts)

-- The answer that the flags stand for.
abbrev pub by_kind : Flags → Text → Activity
by_kind f joined =
    if f.has_shell
    then (if has_word test_words joined
        then testing
        else if has_word ship_words joined
        then shipping
        else coding)
    else if f.has_write
    then coding
    else if f.has_plan
    then exploration
    else if f.has_interactive
    then conversation
    else exploration

choose-by_kind : (f : Flags) (joined : Text) → choose f joined ≡ by_kind f joined
unfolding choose
choose-by_kind f joined = ground arith

-- Classify looks for the kinds of tools in a fixed order, whatever the order of the tools: no tools is
-- thinking; with a shell tool, a test word in the joined names is testing, else a ship word is shipping,
-- else it is coding; else a write tool is coding; else a plan tool is exploration; else an interactive
-- tool is conversation; else it is exploration.
pub classify_priority :
    (t : Text) (ts : List Text)
    → let normed = map norm (t ∷ ts) in
      (classify [] ≡ thinking)
      × (classify (t ∷ ts) ≡ by_kind (flags_of normed) (join (codes " ") normed))
unfolding classify
classify_priority t ts =
    let normed = map norm (t ∷ ts) in
    (
      refl,
      ap (λ f. choose f (join (codes " ") normed)) (foldl-or no_flags normed)
          ∙ choose-by_kind (flags_of normed) (join (codes " ") normed),
    )

-- The names of a tool set of no kind.
abbrev pub IsUnknown : Text → Type 0
IsUnknown t =
    (is_in shell_tools (norm t) ≡ false)
    × (is_in write_tools (norm t) ≡ false)
    × (is_in plan_tools (norm t) ≡ false)
    × (is_interactive (norm t) ≡ false)

none_unknown :
    (kind : Text → Bool) (ts : List Text)
    → All (λ t. kind (norm t) ≡ false) ts
    → any kind (map norm ts) ≡ false
none_unknown kind [] h = refl
none_unknown kind (t ∷ ts) h = rw (h.0, none_unknown kind ts h.1)

-- A turn whose tools are all neither shell nor write nor plan nor interactive tools by their lowered,
-- trimmed names is exploration.
pub classify_unknown :
    (t : Text) (ts : List Text) → All IsUnknown (t ∷ ts) → classify (t ∷ ts) ≡ exploration
classify_unknown t ts h =
    let l = t ∷ ts in
    let shell = none_unknown (is_in shell_tools) l (All-imp IsUnknown _ l (λ t u. u.0) h) in
    let write = none_unknown (is_in write_tools) l (All-imp IsUnknown _ l (λ t u. u.1) h) in
    let plan = none_unknown (is_in plan_tools) l (All-imp IsUnknown _ l (λ t u. u.2) h) in
    let interactive = none_unknown is_interactive l (All-imp IsUnknown _ l (λ t u. u.3) h) in
    (classify_priority t ts).1 ∙ rw (shell, write, plan, interactive)
