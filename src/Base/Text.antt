-- ===== src/Base/Text.antt =====
-- Go's `strings` functions that the program calls, on texts of ASCII characters.
use Prim.Native.Nat.{ℕ, zero, suc, ◌-◌, ◌%◌, ◌<◌, compare, Ordering}
use Prim.Native.Char.{Char, char, code, IsScalar}
use Prim.Native.String.{String}
use mathlib.Core.Path.{◌≡◌, refl}
use mathlib.Core.Bool.{Bool, true, false, ◌&&◌, ◌||◌}
use mathlib.Core.Option.{Option, none, some}
use mathlib.Core.List.{List, [], ◌∷◌}
use native.Mathlib.Omega.{arith}
use text.Mathlib.Text.{◌==◌ as ◌=ₛ◌}
use mesh_geth_sdk.Base.Tests.{leb, ◌==◌, if◌then◌else◌}

compare_small : (n : ℕ) → n < 128 → compare n 55296 ≡ Ordering.lt
compare_small n h = ground arith

pub IsScalar-small : (n : ℕ) → n < 128 → IsScalar n
IsScalar-small n h = rw (compare_small n h) tt

-- The ASCII character of a number.
unfoldable pub ascii : ℕ → Char
ascii n = char (n % 128) (IsScalar-small (n % 128) (omega arith))

upper_char : Char → Char
unfolding ascii
upper_char c = if leb b'a' (code c) && leb (code c) b'z' then ascii (code c - 32) else c

-- `strings.ToUpper`
unfoldable pub to_upper : String → String
unfolding upper_char
to_upper String.[] = String.[]
to_upper (String.◌∷◌ c s) = String.◌∷◌ (upper_char c) (to_upper s)

-- `strings.EqualFold`
unfoldable pub equal_fold : String → String → Bool
unfolding to_upper
equal_fold s t = to_upper s =ₛ to_upper t

-- `s == ""`
abbrev pub is_empty : String → Bool
is_empty String.[] = true
is_empty (String.◌∷◌ c s) = false

-- `strings.Split` by one character, given by its code; the result is never empty.
pub first_of : Char → List String → List String
first_of c [] = String.◌∷◌ c String.[] ∷ []
first_of c (s ∷ rest) = String.◌∷◌ c s ∷ rest

unfoldable pub split : ℕ → String → List String
unfolding first_of
split sep String.[] = String.[] ∷ []
split sep (String.◌∷◌ c s) =
    if code c == sep then String.[] ∷ split sep s else first_of c (split sep s)

-- `strings.HasPrefix(s, prefix)`, with the prefix first
unfoldable pub has_prefix : String → String → Bool
has_prefix String.[] s = true
has_prefix (String.◌∷◌ c p) String.[] = false
has_prefix (String.◌∷◌ c p) (String.◌∷◌ d s) = (code c == code d) && has_prefix p s

-- What is left of the text after the prefix, if it has that.
strip : String → String → Option String
strip String.[] s = some s
strip (String.◌∷◌ c p) String.[] = none
strip (String.◌∷◌ c p) (String.◌∷◌ d s) = if code c == code d then strip p s else none

-- `strings.TrimPrefix(s, prefix)`, with the prefix first
unfoldable pub trim_prefix : String → String → String
unfolding strip
trim_prefix p s = elim (strip p s) [ none ↦ s | some rest ↦ rest ]

-- `s[from:to]` on ASCII; none where that is out of range.
unfoldable pub slice : ℕ → ℕ → String → Option String
slice zero zero s = some String.[]
slice zero (suc to) String.[] = none
slice zero (suc to) (String.◌∷◌ c s) = elim (slice zero to s) [
  | none ↦ none
  | some t ↦ some (String.◌∷◌ c t)
]
slice (suc from) zero s = none
slice (suc from) (suc to) String.[] = none
slice (suc from) (suc to) (String.◌∷◌ c s) = slice from to s

-- `strconv.ParseBool`
unfoldable pub parse_bool : String → Option Bool
parse_bool s =
    if s =ₛ "1" || s =ₛ "t" || s =ₛ "T" || s =ₛ "true" || s =ₛ "TRUE" || s =ₛ "True"
    then some true
    else if s =ₛ "0" || s =ₛ "f" || s =ₛ "F" || s =ₛ "false" || s =ₛ "FALSE" || s =ₛ "False"
    then some false
    else none

shout : to_upper "Call_2" ≡ "CALL_2"
unfolding to_upper
shout = refl

signature : split b'(' "f(a,b)" ≡ "f" ∷ "a,b)" ∷ []
unfolding split
signature = refl
