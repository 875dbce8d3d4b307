-- ===== src/Base/Text/Laws.antt =====
-- Laws of the string built-ins.
use moventra_tms.Base.Tests.{leb}
use moventra_tms.Base.Json.{Text}
use moventra_tms.Base.Lists.{allb}
use moventra_tms.Base.Text.{is_space, trim_start, trim, is_upper, to_lower_case, text_eq}
use Prim.Native.Nat.{ℕ}
use mathlib.Core.Path.{◌≡◌, refl}
use mathlib.Core.Bool.{Bool, true, false, not, ◌&&◌}
use mathlib.Core.List.{[], ◌∷◌, ◌++◌, reverse, reverse-cons, reverse-reverse}
use native.Mathlib.Omega.{arith}

pub text_eq_sound : (s t : Text) → text_eq s t ≡ true → s ≡ t
unfolding text_eq
text_eq_sound [] [] e = refl
text_eq_sound [] (d ∷ t) e = cc
text_eq_sound (c ∷ s) [] e = cc
text_eq_sound (c ∷ s) (d ∷ t) e = ground (arith, text_eq_sound s t)

pub text_eq_refl : (s : Text) → text_eq s s ≡ true
unfolding text_eq
text_eq_refl [] = refl
text_eq_refl (c ∷ s) = ground (arith, text_eq_refl s)

-- A printable ASCII unit that is no upper-case letter: the built-ins keep it.
abbrev pub is_plain : ℕ → Bool
is_plain c = leb 33 c && leb c 126 && not (is_upper c)

plain_not_space : (c : ℕ) → is_plain c ≡ true → is_space c ≡ false
unfolding is_space
plain_not_space c e = ground arith

pub trim_start_of_plain : (s : Text) → allb is_plain s ≡ true → trim_start s ≡ s
unfolding trim_start
trim_start_of_plain [] e = refl
trim_start_of_plain (c ∷ s) e = ground (arith, plain_not_space c)

pub to_lower_case_of_plain : (s : Text) → allb is_plain s ≡ true → to_lower_case s ≡ s
unfolding to_lower_case
to_lower_case_of_plain [] e = refl
to_lower_case_of_plain (c ∷ s) e = ground (arith, to_lower_case_of_plain s)

allb-append :
    (p : ℕ → Bool) (s t : Text) → allb p s ≡ true → allb p t ≡ true → allb p (s ++ t) ≡ true
allb-append p [] t e f = f
allb-append p (c ∷ s) t e f = ground (arith, allb-append p s t)

allb-reverse : (p : ℕ → Bool) (s : Text) → allb p s ≡ true → allb p (reverse s) ≡ true
allb-reverse p [] e = e
allb-reverse p (c ∷ s) e =
    rw (reverse-cons c s)
      (allb-append p (reverse s) (c ∷ []) (allb-reverse p s (ground arith)) (ground arith))

pub trim_of_plain : (s : Text) → allb is_plain s ≡ true → trim s ≡ s
unfolding trim
trim_of_plain s e =
    rw (trim_start_of_plain s e, trim_start_of_plain (reverse s) (allb-reverse is_plain s e))
      (reverse-reverse s)

-- What `trim` and `toLowerCase` make of a plain text is the text.
pub trim-lower_of_plain : (s : Text) → allb is_plain s ≡ true → to_lower_case (trim s) ≡ s
trim-lower_of_plain s e = rw (trim_of_plain s e) (to_lower_case_of_plain s e)
