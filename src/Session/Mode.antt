-- ===== src/Session/Mode.antt =====
-- The novice and the expert mode: resolveMode and setMode of internal/web/static/base.js.
use cronova.Base.{
  ℕ, ◌+◌, ◌≡◌, Bool, true, false, Option, none, some, Text, codes, text_eq, if◌then◌else◌, ltb,
  arith,
}
use cronova.Session.Api.{Response, answered, refused, unreachable}

pub data Mode : Type 0 where
  novice expert : Mode

abbrev pub same_mode : Mode → Mode → Bool
same_mode novice novice = true
same_mode novice expert = false
same_mode expert novice = false
same_mode expert expert = true

-- `uiMode`, the item `cnv_mode` of the local storage, and the mode that the document shows; `routed`
-- counts the calls of applyRoute.
pub record Modes : Type 0 where
  pub ui : Option Mode
  pub saved : Option Text
  pub shown : Option Mode
  pub routed : ℕ

unfoldable pub mode_name : Mode → Text
mode_name novice = codes "novice"
mode_name expert = codes "expert"

-- The saved mode, if it is one.
unfoldable pub saved_mode : Option Text → Option Mode
unfolding text_eq
saved_mode none = none
saved_mode (some m) =
    if text_eq m (codes "novice")
    then some novice
    else if text_eq m (codes "expert")
    then some expert
    else none

-- The mode that the overview suggests, given the number of definitions.
unfoldable pub inferred : Response ℕ → Mode
inferred (answered n) = if ltb 0 n then expert else novice
inferred (refused st x b) = expert
inferred (unreachable m) = expert

unfoldable pub resolved : Option Text → Response ℕ → Mode
unfolding saved_mode inferred
resolved m r = elim (saved_mode m) [ none ↦ inferred r | some k ↦ k ]

unfoldable pub resolve_mode : Response ℕ → Modes → Modes
unfolding resolved
resolve_mode r s = record s { ui = some (resolved s.saved r); shown = some (resolved s.saved r) }

unfoldable pub set_mode : Mode → Modes → Modes
unfolding mode_name
set_mode m s =
    if elim s.ui [ none ↦ false | some k ↦ same_mode k m ]
    then s
    else record s { ui = some m; saved = some (mode_name m); shown = some m; routed = s.routed + 1 }

-- A mode that is chosen against the current one is the mode of every later start of the console,
-- whatever the overview says then.
resolve_mode-set_mode :
    (m k : Mode) (r : Response ℕ) (s : Modes)
    → s.ui ≡ some k
    → same_mode k m ≡ false
    → (resolve_mode r (set_mode m s)).ui ≡ some m
unfolding resolve_mode set_mode resolved saved_mode mode_name text_eq
resolve_mode-set_mode novice k r s e h = ground arith
resolve_mode-set_mode expert k r s e h = ground arith
