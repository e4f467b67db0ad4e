-- ===== src/Mapper/Operations.antt =====
-- Lists of operations: their indices and the sum of their amounts.
use mesh_geth_sdk.Base.{
  ℕ, suc, ◌+◌, ℤ, pos, ◌+ℤ◌, int_laws, String, ◌≡◌, refl, ap, ◌∙◌, Option, none, some, List, [],
  ◌∷◌, ◌++◌, arith, length, Bool, false, ◌=ₛ◌, if◌then◌else◌,
}
use mesh_geth_sdk.Base.Decimal.{parse_ℤ, show_ℤ, parse-show_ℤ}
use mesh_geth_sdk.Rosetta.{Operation, Amount, Currency}

-- The indices count up from `n`.
abbrev pub IsIndexed : ℕ → List Operation → Type 0
IsIndexed n [] = Unit
IsIndexed n (op ∷ ops) = (op.index ≡ n) × IsIndexed (suc n) ops

pub IsIndexed-append :
    (n : ℕ) (xs ys : List Operation)
    → IsIndexed n xs
    → IsIndexed (n + length xs) ys
    → IsIndexed n (xs ++ ys)
IsIndexed-append n [] ys h k = let e : n + 0 ≡ n = omega arith in rw e at k
IsIndexed-append n (x ∷ xs) ys h k =
    let e : n + suc (length xs) ≡ suc n + length xs = omega arith in
    (h.0, IsIndexed-append (suc n) xs ys h.1 (rw e at k))

-- `ops[len(ops)-1].OperationIdentifier.Index`; the empty list has no last operation.
unfoldable pub last_index : List Operation → Option ℕ
last_index [] = none
last_index (op ∷ []) = some op.index
last_index (op ∷ op' ∷ ops) = last_index (op' ∷ ops)

pub last_index-append :
    (xs : List Operation) (op : Operation) → last_index (xs ++ op ∷ []) ≡ some op.index
unfolding last_index
last_index-append [] op = refl
last_index-append (x ∷ []) op = refl
last_index-append (x ∷ y ∷ xs) op = last_index-append (y ∷ xs) op

pub last_index-IsIndexed :
    (n : ℕ) (x : Operation) (xs : List Operation)
    → IsIndexed n (x ∷ xs)
    → last_index (x ∷ xs) ≡ some (n + length xs)
unfolding last_index
last_index-IsIndexed n x [] h = ap some (omega arith)
last_index-IsIndexed n x (y ∷ ys) h = last_index-IsIndexed (suc n) y ys h.1 ∙ ap some (omega arith)

abbrev pub integer_or_zero : Option ℤ → ℤ
integer_or_zero none = pos 0
integer_or_zero (some a) = a

-- The integer that an amount states; none is stated by an absent amount.
abbrev pub stated : Option Amount → ℤ
stated none = pos 0
stated (some a) = integer_or_zero (parse_ℤ a.value)

-- The sum of the amounts of the operations.
abbrev pub total : List Operation → ℤ
total [] = pos 0
total (op ∷ ops) = stated op.amount +ℤ total ops

-- Whether the operation is on the account with this address.
abbrev pub is_at : String → Operation → Bool
is_at address op = elim op.account [ none ↦ false | some a ↦ a =ₛ address ]

-- The sum of the amounts of the operations on one account.
abbrev pub total_at : String → List Operation → ℤ
total_at address [] = pos 0
total_at address (op ∷ ops) =
    (if is_at address op then stated op.amount else pos 0) +ℤ total_at address ops

pub IsIndexed-snoc :
    (n : ℕ) (xs : List Operation) (op : Operation)
    → IsIndexed n xs
    → op.index ≡ n + length xs
    → IsIndexed n (xs ++ op ∷ [])
IsIndexed-snoc n xs op h k = IsIndexed-append n xs (op ∷ []) h (k, tt)

-- The index after the last one is the number of operations, from `n` on.
pub IsIndexed-next :
    (n : ℕ) (xs : List Operation) {last : ℕ}
    → IsIndexed n xs
    → last_index xs ≡ some last
    → last + 1 ≡ n + length xs
IsIndexed-next n [] h e = unfold last_index in cc
IsIndexed-next n (x ∷ xs) h e = ground (arith, last_index-IsIndexed n x xs h)

pub stated-show :
    (a : ℤ) (c : Currency) → stated (some (record { value = show_ℤ a; currency = c })) ≡ a
stated-show a c = rw (parse-show_ℤ a)

pub total-append : (xs ys : List Operation) → total (xs ++ ys) ≡ total xs +ℤ total ys
total-append [] ys = omega int_laws
total-append (x ∷ xs) ys = rw (total-append xs ys) (omega int_laws)
