-- ===== src/Base/Strings.antt =====
-- JavaScript strings as lists of UTF-16 code units, and the string methods that the program calls.
-- `toLowerCase` is modelled on the ASCII letters; any other unit stands unchanged.
use Prim.Native.Nat.{ℕ, ◌+◌}
use Prim.Native.Char.{code}
use Prim.Native.String.{String}
use mathlib.Core.Path.{◌≡◌, refl}
use mathlib.Core.Logic.{◌↔◌}
use mathlib.Core.Bool.{Bool, true, false, ◌&&◌, ◌||◌}
use mathlib.Core.List.{List, [], ◌∷◌, ◌++◌, reverse}
use native.Mathlib.Omega.{arith}
use monadguard.Base.Lists.{All}
use monadguard.Base.Tests.{leb, ◌==◌, if◌then◌else◌}

abbrev pub Text : Type 0
Text = List ℕ

-- A literal of the source.
abbrev pub lit : String → Text
lit String.[] = []
lit (String.◌∷◌ c s) = code c ∷ lit s

-- `a === b`
unfoldable pub text_eq : Text → Text → Bool
text_eq [] [] = true
text_eq (a ∷ s) (b ∷ t) = a == b && text_eq s t
text_eq _ _ = false

pub text_eq_sound : (s t : Text) → text_eq s t ≡ true → s ≡ t
unfolding text_eq
text_eq_sound [] [] h = refl
text_eq_sound (a ∷ s) (b ∷ t) h = ground (arith, text_eq_sound s t)
text_eq_sound [] (b ∷ t) h = cc
text_eq_sound (a ∷ s) [] h = cc

pub text_eq_refl : (s : Text) → text_eq s s ≡ true
unfolding text_eq
text_eq_refl [] = refl
text_eq_refl (a ∷ s) = ground (arith, text_eq_refl s)

pub text_eq_iff : (s t : Text) → (text_eq s t ≡ true) ↔ (s ≡ t)
text_eq_iff s t = (text_eq_sound s t, λ e. rw e (text_eq_refl t))

-- `String.prototype.toLowerCase`
unfoldable pub lower_unit : ℕ → ℕ
lower_unit c = if leb 65 c && leb c 90 then c + 32 else c

unfoldable pub to_lower : Text → Text
unfolding lower_unit
to_lower [] = []
to_lower (c ∷ s) = lower_unit c ∷ to_lower s

lower_unit_idem : (c : ℕ) → lower_unit (lower_unit c) ≡ lower_unit c
unfolding lower_unit
lower_unit_idem c = ground arith

pub to_lower_idem : (s : Text) → to_lower (to_lower s) ≡ to_lower s
unfolding to_lower
to_lower_idem [] = refl
to_lower_idem (c ∷ s) = cc (lower_unit_idem c, to_lower_idem s)

-- `String.prototype.trim` removes the white space and line terminators of ECMA-262.
unfoldable pub is_space : ℕ → Bool
is_space c =
    (leb 9 c && leb c 13)
    || c == 32
    || c == 0xa0
    || c == 0x1680
    || (leb 0x2000 c && leb c 0x200a)
    || c == 0x2028
    || c == 0x2029
    || c == 0x202f
    || c == 0x205f
    || c == 0x3000
    || c == 0xfeff

unfoldable pub trim_start : Text → Text
unfolding is_space
trim_start [] = []
trim_start (c ∷ s) = if is_space c then trim_start s else c ∷ s

unfoldable pub trim : Text → Text
unfolding trim_start
trim s = reverse (trim_start (reverse (trim_start s)))

-- `replace(/\/+$/, '')`
unfoldable pub strip_slashes_start : Text → Text
strip_slashes_start [] = []
strip_slashes_start (c ∷ s) = if c == b'/' then strip_slashes_start s else c ∷ s

unfoldable pub strip_slashes : Text → Text
unfolding strip_slashes_start
strip_slashes s = reverse (strip_slashes_start (reverse s))

-- `s.split(sep)` for a separator of one unit, and `parts.join(sep)`.
split_step : ℕ → ℕ → List Text → List Text
split_step sep c [] = [] ∷ []
split_step sep c (p ∷ ps) = if c == sep then [] ∷ p ∷ ps else (c ∷ p) ∷ ps

unfoldable pub split : ℕ → Text → List Text
unfolding split_step
split sep [] = [] ∷ []
split sep (c ∷ s) = split_step sep c (split sep s)

unfoldable pub join : Text → List Text → Text
join sep [] = []
join sep (p ∷ []) = p
join sep (p ∷ q ∷ ps) = p ++ sep ++ join sep (q ∷ ps)

-- `!!text`: the empty text is falsy.
unfoldable pub truthy : Text → Bool
truthy [] = false
truthy (c ∷ s) = true

split_step-here : (sep : ℕ) (ps : List Text) → split_step sep sep ps ≡ [] ∷ ps
unfolding split_step
split_step-here sep [] = refl
split_step-here sep (p ∷ ps) = ground arith

-- A part without the separator is split off.
pub split-append :
    (sep : ℕ) (s rest : Text)
    → All (λ c. (c == sep) ≡ false) s
    → split sep (s ++ sep ∷ rest) ≡ s ∷ split sep rest
unfolding split split_step
split-append sep [] rest h = split_step-here sep (split sep rest)
split-append sep (c ∷ s) rest (hc, h) = rw (split-append sep s rest h, hc) refl

pub split-whole : (sep : ℕ) (s : Text) → All (λ c. (c == sep) ≡ false) s → split sep s ≡ s ∷ []
unfolding split split_step
split-whole sep [] h = refl
split-whole sep (c ∷ s) (hc, h) = rw (split-whole sep s h, hc) refl
