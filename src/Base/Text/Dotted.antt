-- ===== src/Base/Text/Dotted.antt =====
-- The pattern `/^[a-z][a-z0-9_]*(\.[a-z][a-z0-9_-]*){1,7}$/` of job types, event types, operation
-- keys and flag keys, as the automaton that reads a text from left to right.
use moventra_tms.Base.Tests.{◌==◌, if◌then◌else◌, is_some, Option-cases}
use moventra_tms.Base.Json.{Text, codes}
use moventra_tms.Base.Lists.{allb}
use moventra_tms.Base.Text.{is_lower, is_digit, to_lower_case, trim}
use moventra_tms.Base.Text.Laws.{is_plain, trim-lower_of_plain, to_lower_case_of_plain}
use Prim.Native.Nat.{ℕ, zero, suc}
use mathlib.Core.Path.{◌≡◌, refl, sym, ap, ◌∙◌}
use mathlib.Core.Bool.{Bool, true, false, ◌||◌}
use mathlib.Core.List.{[], ◌∷◌, ◌++◌}
use mathlib.Core.Option.{Option, none, some}
use mathlib.Core.Logic.{inl, inr}
use native.Mathlib.Omega.{arith}

-- `first` reads the segment before the first dot; `start n` and `inside n` read a later segment,
-- behind which at most `n` more may follow.
pub data Mode : Type 0 where
  opening : Mode
  first : Mode
  start : ℕ → Mode
  inside : ℕ → Mode
  dead : Mode

is_word : ℕ → Bool
is_word c = is_lower c || is_digit c || c == b'_'

after_dot : ℕ → Mode
after_dot zero = dead
after_dot (suc n) = start n

next : Mode → ℕ → Mode
unfolding is_word after_dot
next opening c = if is_lower c then first else dead
next first c = if is_word c then first else if c == b'.' then start 6 else dead
next (start n) c = if is_lower c then inside n else dead
next (inside n) c =
    if is_word c || c == b'-' then inside n else if c == b'.' then after_dot n else dead
next dead c = dead

run : Mode → Text → Mode
unfolding next
run m [] = m
run m (c ∷ s) = run (next m c) s

abbrev accepts : Mode → Bool
accepts (inside n) = true
accepts _ = false

unfoldable pub is_dotted : Text → Bool
unfolding run
is_dotted s = accepts (run opening s)

run_dead : (s : Text) → accepts (run dead s) ≡ false
unfolding run
run_dead [] = refl
run_dead (c ∷ s) = run_dead s

abbrev is_dead : Mode → Bool
is_dead dead = true
is_dead _ = false

next_plain : (m : Mode) (c : ℕ) → is_dead (next m c) ≡ false → is_plain c ≡ true
unfolding next
next_plain opening c e = ground arith
next_plain first c e = ground arith
next_plain (start n) c e = ground arith
next_plain (inside n) c e = ground arith
next_plain dead c e = cc

run_alive : (m : Mode) (s : Text) → accepts (run m s) ≡ true → is_dead m ≡ false
run_alive dead s e = cc (run_dead s)
run_alive opening s e = refl
run_alive first s e = refl
run_alive (start n) s e = refl
run_alive (inside n) s e = refl

run_plain : (m : Mode) (s : Text) → accepts (run m s) ≡ true → allb is_plain s ≡ true
unfolding run
run_plain m [] e = refl
run_plain m (c ∷ s) e = rw (next_plain m c (run_alive (next m c) s e)) (run_plain (next m c) s e)

-- What the pattern accepts is plain, so that normalising it again changes nothing.
pub is_dotted-plain : (s : Text) → is_dotted s ≡ true → allb is_plain s ≡ true
unfolding is_dotted
is_dotted-plain s e = run_plain opening s e

pub is_dotted-stable : (s : Text) → is_dotted s ≡ true → to_lower_case (trim s) ≡ s
is_dotted-stable s e = trim-lower_of_plain s (is_dotted-plain s e)

pub is_dotted-lower : (s : Text) → is_dotted s ≡ true → to_lower_case s ≡ s
is_dotted-lower s e = to_lower_case_of_plain s (is_dotted-plain s e)

-- What follows a prefix.
strip : (prefix : Text) → Text → Option Text
strip [] s = some s
strip (c ∷ prefix) [] = none
strip (c ∷ prefix) (d ∷ s) = let rest = strip prefix s in if c == d then rest else none

unfoldable pub starts_with : (prefix : Text) → Text → Bool
unfolding strip
starts_with prefix s = is_some (strip prefix s)

-- The pattern `^system\.[a-z][a-z0-9_-]*(\.[a-z][a-z0-9_-]*){0,6}$`.
unfoldable pub is_system_dotted : Text → Bool
unfolding strip run
is_system_dotted s = elim (strip (codes "system.") s) [
  | none ↦ false
  | some rest ↦ accepts (run (start 6) rest)
]

strip-append : (prefix s : Text) {rest : Text} → strip prefix s ≡ some rest → s ≡ prefix ++ rest
unfolding strip
strip-append [] s e = ground arith
strip-append (c ∷ prefix) [] e = cc
strip-append (c ∷ prefix) (d ∷ s) {rest} e =
    let tail : strip prefix s ≡ some rest = ground arith in
    let same : c ≡ d = ground arith in rw (same, strip-append prefix s tail)

run_system : (rest : Text) → is_dotted (codes "system." ++ rest) ≡ accepts (run (start 6) rest)
unfolding is_dotted
run_system rest = refl

-- Of the texts that `is_dotted` accepts, this pattern accepts those with the prefix.
pub is_system_dotted_of_dotted :
    (s : Text) → is_dotted s ≡ true → is_system_dotted s ≡ starts_with (codes "system.") s
unfolding is_system_dotted starts_with
is_system_dotted_of_dotted s h = elim (Option-cases (strip (codes "system.") s)) [
  | inl missing ↦ rw missing refl
  | inr (rest, found) ↦
      rw found
        (sym (run_system rest) ∙ ap is_dotted (sym (strip-append (codes "system.") s found)) ∙ h)
]
