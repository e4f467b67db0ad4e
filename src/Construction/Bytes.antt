-- ===== src/Construction/Bytes.antt =====
-- Numbers as bytes: `Bytes` and `SetBytes` of math/big, and `LeftPadBytes` of go-ethereum, which pads
-- with zeros and leaves a longer slice as it is.
use mesh_geth_sdk.Base.{
  ℕ, zero, suc, ◌+◌, ◌-◌, ◌*◌, ◌/◌, ◌%◌, ◌^◌, ◌≤◌, ◌<◌, ◌≡◌, refl, sym, ap, ap₂, ◌∙◌, List, [], ◌∷◌,
  ◌++◌, arith, length, length-append, length-replicate, replicate, All, All-append,
}
use mathlib.Core.Path.{subst}
use native.Mathlib.Nat.{pow-suc}

-- Big-endian, without leading zeros, before `tail`.
unfoldable pub bytes_before : ℕ → ℕ → List ℕ → List ℕ
bytes_before zero n tail = tail
bytes_before (suc fuel) zero tail = tail
bytes_before (suc fuel) (suc m) tail = bytes_before fuel (suc m / 256) (suc m % 256 ∷ tail)

unfoldable pub bytes : ℕ → List ℕ
bytes n = bytes_before n n []

unfoldable pub value_from : ℕ → List ℕ → ℕ
value_from acc [] = acc
value_from acc (b ∷ bs) = value_from (acc * 256 + b) bs

unfoldable pub set_bytes : List ℕ → ℕ
set_bytes bs = value_from 0 bs

unfoldable pub left_pad_bytes : List ℕ → ℕ → List ℕ
left_pad_bytes bs l = replicate (l - length bs) 0 ++ bs

value_from-bytes_before :
    (fuel n : ℕ) (tail : List ℕ)
    → n ≤ fuel
    → value_from 0 (bytes_before fuel n tail) ≡ value_from n tail
unfolding bytes_before value_from
value_from-bytes_before zero n tail h = ap (λ x. value_from x tail) (omega arith)
value_from-bytes_before (suc fuel) zero tail h = refl
value_from-bytes_before (suc fuel) (suc m) tail h =
    value_from-bytes_before fuel (suc m / 256) (suc m % 256 ∷ tail) (omega arith)
    ∙ ap (λ x. value_from x tail) (omega arith)

value_from-zeros : (k : ℕ) (bs : List ℕ) → value_from 0 (replicate k 0 ++ bs) ≡ value_from 0 bs
unfolding value_from
value_from-zeros zero bs = refl
value_from-zeros (suc k) bs = value_from-zeros k bs

-- Reading back what was padded gives the number.
pub set_bytes-left_pad_bytes : (n l : ℕ) → set_bytes (left_pad_bytes (bytes n) l) ≡ n
unfolding set_bytes left_pad_bytes bytes
set_bytes-left_pad_bytes n l =
    value_from-zeros (l - length (bytes n)) (bytes n)
    ∙ value_from-bytes_before n n [] (omega arith)
    ∙ (unfold value_from in refl)

div-below : (m p : ℕ) → m < p * 256 → m / 256 < p
div-below m p h = omega arith

carry : (a b p r : ℕ) → (a * 256 + b) * p + r ≡ a * (p * 256) + (b * p + r)
carry a b p r = grind arith

digit-below : (b p r : ℕ) → b < 256 → r < p → b * p + r < p * 256
digit-below b p r h k = grind arith

length-bytes_before :
    (k fuel n : ℕ) (tail : List ℕ)
    → n < 256 ^ k
    → length (bytes_before fuel n tail) ≤ k + length tail
unfolding bytes_before
length-bytes_before k zero n tail h = omega arith
length-bytes_before k (suc fuel) zero tail h = omega arith
length-bytes_before zero (suc fuel) (suc m) tail h = omega arith
length-bytes_before (suc k) (suc fuel) (suc m) tail h =
    let less : suc m / 256 < 256 ^ k = div-below (suc m) (256 ^ k) (rw (← pow-suc 256 k) h) in
    omega (arith, length-bytes_before k fuel (suc m / 256) (suc m % 256 ∷ tail) less)

pub length-bytes : (k n : ℕ) → n < 256 ^ k → length (bytes n) ≤ k
unfolding bytes
length-bytes k n h = omega (arith, length-bytes_before k n n [] h)

-- Padding to a length that is enough gives that length.
pub length-left_pad_bytes : (bs : List ℕ) (l : ℕ) → length bs ≤ l → length (left_pad_bytes bs l) ≡ l
unfolding left_pad_bytes
length-left_pad_bytes bs l h = omega (
  arith,
  length-append (replicate (l - length bs) 0) bs,
  length-replicate {A = ℕ} (l - length bs) 0,
)

-- Digits below 256.
abbrev pub IsBytes : List ℕ → Type 0
IsBytes bs = All (λ b. b < 256) bs

IsBytes-bytes_before :
    (fuel n : ℕ) (tail : List ℕ) → IsBytes tail → IsBytes (bytes_before fuel n tail)
unfolding bytes_before
IsBytes-bytes_before zero n tail h = h
IsBytes-bytes_before (suc fuel) zero tail h = h
IsBytes-bytes_before (suc fuel) (suc m) tail h =
    IsBytes-bytes_before fuel (suc m / 256) (suc m % 256 ∷ tail) (omega arith, h)

IsBytes-zeros : (k : ℕ) → IsBytes (replicate k 0)
IsBytes-zeros zero = tt
IsBytes-zeros (suc k) = (omega arith, IsBytes-zeros k)

pub IsBytes-left_pad_bytes : (n l : ℕ) → IsBytes (left_pad_bytes (bytes n) l)
unfolding left_pad_bytes bytes
IsBytes-left_pad_bytes n l =
    All-append (λ b. b < 256) (replicate (l - length (bytes n)) 0) (bytes n)
      (IsBytes-zeros (l - length (bytes n))) (IsBytes-bytes_before n n [] tt)

value_from-first : (b : ℕ) (bs : List ℕ) → value_from 0 (b ∷ bs) ≡ value_from b bs
unfolding value_from
value_from-first b bs = ap (λ x. value_from x bs) (omega arith)

value_from-split :
    (bs : List ℕ) (acc : ℕ) → value_from acc bs ≡ acc * 256 ^ length bs + value_from 0 bs
unfolding value_from
value_from-split [] acc = omega arith
value_from-split (b ∷ bs) acc =
    value_from-split bs (acc * 256 + b)
    ∙ carry acc b (256 ^ length bs) (value_from 0 bs)
    ∙ sym (
        ap₂ (λ x y. acc * x + y) (pow-suc 256 (length bs))
          (value_from-first b bs ∙ value_from-split bs b))

value_from-bound : (bs : List ℕ) → IsBytes bs → value_from 0 bs < 256 ^ length bs
value_from-bound [] h = unfold value_from in omega arith
value_from-bound (b ∷ bs) (h, k) =
    rw (value_from-first b bs ∙ value_from-split bs b, pow-suc 256 (length bs))
      (digit-below b (256 ^ length bs) (value_from 0 bs) h (value_from-bound bs k))

low-bits : (n b r : ℕ) → n ≡ b * 256 ^ 31 + r → r < 256 ^ 31 → r ≡ n % 2 ^ 248
low-bits n b r h k = omega arith

-- Without its first byte, a number of 32 bytes is cut to 248 bits.
pub set_bytes-tail :
    (b : ℕ) (bs : List ℕ)
    → IsBytes bs
    → length bs ≡ 31
    → set_bytes bs ≡ set_bytes (b ∷ bs) % 2 ^ 248
unfolding set_bytes
set_bytes-tail b bs h l =
    low-bits (value_from 0 (b ∷ bs)) b (value_from 0 bs)
      (subst (λ k. value_from 0 (b ∷ bs) ≡ b * 256 ^ k + value_from 0 bs) l
        (value_from-first b bs ∙ value_from-split bs b))
      (subst (λ k. value_from 0 bs < 256 ^ k) l (value_from-bound bs h))
