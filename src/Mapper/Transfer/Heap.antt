-- ===== src/Mapper/Transfer/Heap.antt =====
-- services/mapper.go: the heap of operations that `parseTransferOps` shares by pointer, and the indices
-- of the operations on it.
use mathlib.Core.Option
use mesh_geth_sdk.Base.{
  ℕ, zero, suc, ◌+◌, String, ◌≡◌, refl, ap, ◌∙◌, Option, none, some, List, [], ◌∷◌, ◌++◌, ok,
  >>=-eq-ok, ok-injective, or_crash, or_crash-eq-ok, arith, length, get_elem?, set, inl, inr,
  Option-cases,
}
use mesh_geth_sdk.Rosetta.{Operation}
use mesh_geth_sdk.Mapper.Operations.{IsIndexed}
use mesh_geth_sdk.Mapper.Transfer.{write_amount, set_amount, deref}

-- The index of the operation at a position of the heap.
abbrev pub index_at : List Operation → ℕ → Option ℕ
index_at [] r = none
index_at (op ∷ h) zero = some op.index
index_at (op ∷ h) (suc r) = index_at h r

-- What was on the heap is still there, with its index.
abbrev pub Extends : List Operation → List Operation → Type 0
Extends h h' = (r i : ℕ) → index_at h r ≡ some i → index_at h' r ≡ some i

pub Extends-append : (h : List Operation) (op : Operation) → Extends h (h ++ op ∷ [])
Extends-append [] op r i e = cc
Extends-append (x ∷ h) op zero i e = e
Extends-append (x ∷ h) op (suc r) i e = Extends-append h op r i e

pub index_at-length :
    (h : List Operation) (op : Operation) → index_at (h ++ op ∷ []) (length h) ≡ some op.index
index_at-length [] op = refl
index_at-length (x ∷ h) op = index_at-length h op

pub index_at-set :
    (h : List Operation) (r q : ℕ) (op op' : Operation)
    → get_elem? h r ≡ some op
    → op'.index ≡ op.index
    → index_at (set h r op') q ≡ index_at h q
index_at-set [] r q op op' e k = refl
index_at-set (x ∷ h) zero zero op op' e k = ap some (k ∙ ground arith)
index_at-set (x ∷ h) zero (suc q) op op' e k = refl
index_at-set (x ∷ h) (suc r) zero op op' e k = refl
index_at-set (x ∷ h) (suc r) (suc q) op op' e k = index_at-set h r q op op' e k

pub index-write_amount : (op : Operation) (v : String) → (write_amount op v).index ≡ op.index
unfolding write_amount
index-write_amount op v = refl

pub set_amount-set :
    (h : List Operation) (r : ℕ) (v : String) {op : Operation} {h' : List Operation}
    → get_elem? h r ≡ some op
    → set_amount h r v ≡ some h'
    → h' ≡ set h r (write_amount op v)
unfolding set_amount
set_amount-set h r v there e = ground arith

pub set_amount-none :
    (h : List Operation) (r : ℕ) (v : String) {h' : List Operation}
    → get_elem? h r ≡ none
    → set_amount h r v ≡ some h'
    → ⊥
unfolding set_amount
set_amount-none h r v nothing e = ground arith

pub set_amount-Extends :
    (h : List Operation) (r : ℕ) (v : String) {h' : List Operation}
    → set_amount h r v ≡ some h'
    → Extends h h'
set_amount-Extends h r v {h'} e q i known = elim (Option-cases (get_elem? h r)) [
  | inl nothing ↦ absurd (set_amount-none h r v nothing e)
  | inr (op, there) ↦
      rw
        (
          set_amount-set h r v there e,
          index_at-set h r q op (write_amount op v) there (index-write_amount op v),
        )
        known
]

unfoldable pub RefsIndexed : List Operation → ℕ → List ℕ → Type 0
RefsIndexed h n [] = Unit
RefsIndexed h n (r ∷ rs) = (index_at h r ≡ some n) × RefsIndexed h (suc n) rs

pub RefsIndexed-Extends :
    (h h' : List Operation) (n : ℕ) (rs : List ℕ)
    → Extends h h'
    → RefsIndexed h n rs
    → RefsIndexed h' n rs
unfolding RefsIndexed
RefsIndexed-Extends h h' n [] x k = tt
RefsIndexed-Extends h h' n (r ∷ rs) x k = (x r n k.0, RefsIndexed-Extends h h' (suc n) rs x k.1)

pub RefsIndexed-snoc :
    (h : List Operation) (n r : ℕ) (rs : List ℕ)
    → RefsIndexed h n rs
    → index_at h r ≡ some (n + length rs)
    → RefsIndexed h n (rs ++ r ∷ [])
unfolding RefsIndexed
RefsIndexed-snoc h n r [] k e = (e ∙ ap some (omega arith), tt)
RefsIndexed-snoc h n r (q ∷ rs) k e =
    (k.0, RefsIndexed-snoc h (suc n) r rs k.1 (e ∙ ap some (omega arith)))

pub RefsIndexed-append :
    (h : List Operation) (n : ℕ) (rs qs : List ℕ)
    → RefsIndexed h n rs
    → RefsIndexed h (n + length rs) qs
    → RefsIndexed h n (rs ++ qs)
unfolding RefsIndexed
RefsIndexed-append h n [] qs k l = let e : n + 0 ≡ n = omega arith in rw e at l
RefsIndexed-append h n (r ∷ rs) qs k l =
    let e : n + suc (length rs) ≡ suc n + length rs = omega arith in
    (k.0, RefsIndexed-append h (suc n) rs qs k.1 (rw e at l))

pub index_at-get_elem? :
    (h : List Operation) (r : ℕ) {op : Operation}
    → get_elem? h r ≡ some op
    → index_at h r ≡ some op.index
index_at-get_elem? [] r e = cc
index_at-get_elem? (x ∷ h) zero e = ap (Option.map (λ o. o.index)) e
index_at-get_elem? (x ∷ h) (suc r) e = index_at-get_elem? h r e

-- What the pointers point to has the indices from `n` on.
pub deref-IsIndexed :
    (h : List Operation) (n : ℕ) (rs : List ℕ) {ops : List Operation}
    → RefsIndexed h n rs
    → deref h rs ≡ ok ops
    → IsIndexed n ops
unfolding deref RefsIndexed
deref-IsIndexed h n [] k e = rw (← ok-injective e) tt
deref-IsIndexed h n (r ∷ rs) k e =
    let (op, found, e') = >>=-eq-ok (or_crash (get_elem? h r)) _ e in
    let (ops, rest, e'') = >>=-eq-ok (deref h rs) _ e' in
    let index = index_at-get_elem? h r (or_crash-eq-ok (get_elem? h r) found) in
    rw (← ok-injective e'') (ground (arith, index, k.0), deref-IsIndexed h (suc n) rs k.1 rest)
