-- ===== src/Base/Decimal.antt =====
-- `big.Int`'s `String()` and `SetString(s, 10)`: the decimal texts of the integers.
use Prim.Native.Nat.{ℕ, zero, suc, ◌+◌, ◌-◌, ◌*◌, ◌/◌, ◌%◌, ◌^◌, ◌<◌}
use Prim.Native.Char.{Char, code}
use Prim.Native.String.{String}
use mathlib.Core.Path.{◌≡◌, refl, ap, ◌∙◌}
use mathlib.Core.Bool.{◌||◌}
use mathlib.Core.Logic.{dite}
use mathlib.Core.Option
use mathlib.Core.Option.{Option, none, some}
use mathlib.Core.WellFounded.{Acc, WellFounded}
use native.Mathlib.Decide.{dec_lt}
use native.Mathlib.Omega.{arith}
use mesh_geth_sdk.Base.Tests.{ltb, ◌==◌, if◌then◌else◌}
use mesh_geth_sdk.Base.Int.{ℤ, pos, negsuc, neg}
use mesh_geth_sdk.Base.Text.{ascii}

Acc-below : (k n : ℕ) → n < k → Acc ◌<◌ n
Acc-below zero n h = absurd (omega arith)
Acc-below (suc k) n h = Acc.intro n (λ m lt. Acc-below k m (omega arith))

lt_wf : WellFounded ◌<◌
unfolding Acc-below
lt_wf = record { apply = λ n. Acc-below (suc n) n (omega arith) }

digit : ℕ → Char
unfolding ascii
digit n = ascii (b'0' + n)

-- The digits of `n`, in front of `out`.
emit : (n : ℕ) → Acc ◌<◌ n → String → String
unfolding digit
emit n (Acc.intro _ smaller) out =
    dite (dec_lt 9 n)
      (λ h. emit (n / 10) (smaller (n / 10) (omega arith)) (String.◌∷◌ (digit (n % 10)) out))
      (λ _. String.◌∷◌ (digit n) out)

unfoldable pub show_ℕ : ℕ → String
unfolding emit lt_wf dec_lt
show_ℕ n = emit n (lt_wf.apply n) String.[]

scan : String → ℕ → Option ℕ
scan String.[] n = some n
scan (String.◌∷◌ c s) n =
    if ltb (code c) b'0' || ltb b'9' (code c) then none else scan s (n * 10 + (code c - b'0'))

-- At least one digit, and nothing else.
parse_ℕ : String → Option ℕ
unfolding scan
parse_ℕ String.[] = none
parse_ℕ (String.◌∷◌ c s) = scan (String.◌∷◌ c s) 0

-- `strconv.ParseUint(s, 10, w)`
unfoldable pub parse_uint : ℕ → String → Option ℕ
unfolding parse_ℕ
parse_uint w s = elim (parse_ℕ s) [ none ↦ none | some n ↦ if ltb n (2 ^ w) then some n else none ]

-- `x.String()`
unfoldable pub show_ℤ : ℤ → String
unfolding show_ℕ
show_ℤ (pos n) = show_ℕ n
show_ℤ (negsuc n) = String.◌∷◌ (ascii b'-') (show_ℕ (suc n))

-- `SetString(s, 10)`: an optional sign and decimal digits.
unfoldable pub parse_ℤ : String → Option ℤ
unfolding parse_ℕ neg
parse_ℤ String.[] = none
parse_ℤ (String.◌∷◌ c s) =
    if code c == b'-'
    then Option.map (λ n. neg (pos n)) (parse_ℕ s)
    else if code c == b'+'
    then Option.map pos (parse_ℕ s)
    else Option.map pos (parse_ℕ (String.◌∷◌ c s))

code-digit : (n : ℕ) → n < 10 → code (digit n) ≡ b'0' + n
unfolding digit
code-digit n h = omega arith

-- One digit is read.
scan-digit : (d n : ℕ) (s : String) → d < 10 → scan (String.◌∷◌ (digit d) s) n ≡ scan s (n * 10 + d)
unfolding scan
scan-digit d n s h = ground (arith, code-digit d h)

-- Reading what `emit` wrote goes on with its number.
scan-emit : (n : ℕ) (w : Acc ◌<◌ n) (out : String) → scan (emit n w out) 0 ≡ scan out n
unfolding emit
scan-emit n (Acc.intro _ smaller) out =
    elim (dec_lt 9 n)
      as (λ d.
        scan
          (dite d
            (λ h. emit (n / 10) (smaller (n / 10) (omega arith)) (String.◌∷◌ (digit (n % 10)) out))
            (λ _. String.◌∷◌ (digit n) out))
          0
        ≡ scan out n) [
          | yes h ↦
              scan-emit (n / 10) (smaller (n / 10) (omega arith)) (String.◌∷◌ (digit (n % 10)) out)
              ∙ scan-digit (n % 10) (n / 10) out (omega arith)
              ∙ ap (scan out) (omega arith)
          | no h ↦ scan-digit n 0 out (omega arith) ∙ ap (scan out) (omega arith)
        ]

scan-show : (n : ℕ) → scan (show_ℕ n) 0 ≡ some n
unfolding show_ℕ scan
scan-show n = scan-emit n (lt_wf.apply n) String.[]

-- What `emit` writes begins with a digit.
HasDigit : String → Type 0
HasDigit s = (d : ℕ) × (t : String) × (d < 10) × (s ≡ String.◌∷◌ (digit d) t)

emit-HasDigit : (n : ℕ) (w : Acc ◌<◌ n) (out : String) → HasDigit (emit n w out)
unfolding emit
emit-HasDigit n (Acc.intro _ smaller) out =
    elim (dec_lt 9 n)
      as (λ d. HasDigit (
        dite d
          (λ h. emit (n / 10) (smaller (n / 10) (omega arith)) (String.◌∷◌ (digit (n % 10)) out))
          (λ _. String.◌∷◌ (digit n) out))) [
            | yes h ↦
                emit-HasDigit (n / 10) (smaller (n / 10) (omega arith))
                  (String.◌∷◌ (digit (n % 10)) out)
            | no h ↦ unfold HasDigit in (n, out, omega arith, refl)
          ]

parse_ℕ-HasDigit : (s : String) → HasDigit s → parse_ℕ s ≡ scan s 0
unfolding parse_ℕ HasDigit
parse_ℕ-HasDigit s (d, t, h, e) = rw e

parse_ℤ-HasDigit : (s : String) → HasDigit s → parse_ℤ s ≡ Option.map pos (parse_ℕ s)
unfolding parse_ℤ HasDigit
parse_ℤ-HasDigit s (d, t, h, e) = rw e (ground (arith, code-digit d h))

show_ℕ-HasDigit : (n : ℕ) → HasDigit (show_ℕ n)
unfolding show_ℕ
show_ℕ-HasDigit n = emit-HasDigit n (lt_wf.apply n) String.[]

parse-show_ℕ : (n : ℕ) → parse_ℕ (show_ℕ n) ≡ some n
parse-show_ℕ n = parse_ℕ-HasDigit (show_ℕ n) (show_ℕ-HasDigit n) ∙ scan-show n

-- Every integer is read back from its decimal text.
pub parse-show_ℤ : (a : ℤ) → parse_ℤ (show_ℤ a) ≡ some a
unfolding show_ℤ
parse-show_ℤ (pos n) =
    parse_ℤ-HasDigit (show_ℕ n) (show_ℕ-HasDigit n) ∙ ap (Option.map pos) (parse-show_ℕ n)
parse-show_ℤ (negsuc n) = unfold parse_ℤ in rw (parse-show_ℕ (suc n)) (ground arith)

shown : show_ℤ (negsuc 1233) ≡ "-1234"
unfolding show_ℤ
shown = refl

unsigned : parse_ℤ "1x" ≡ none
unfolding parse_ℤ
unsigned = refl
