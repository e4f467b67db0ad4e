-- ===== src/Mapper/Fee/Balance.antt =====
-- services/mapper.go: the accounts that `FeeOps` charges and pays.
use mesh_geth_sdk.Base.{
  ℕ, ℤ, pos, ◌-ℤ◌, neg, int_laws, String, ◌≡◌, refl, ap, false, ◌=ₛ◌, eq_iff, Option, none, some,
  List, [], ◌∷◌, ok, ◌>>=◌, >>=-eq-ok, ok-injective, or_crash, arith, if◌then◌else◌, ◌∙◌,
}
use text.Mathlib.TextPositions.{eq_refl}
use mesh_geth_sdk.Base.Decimal.{parse-show_ℤ}
use mesh_geth_sdk.Base.Text.{is_empty}
use mesh_geth_sdk.Rosetta.{Operation}
use mesh_geth_sdk.Geth.{Geth, Address, ReadsHex}
use mesh_geth_sdk.Types.{native_currency}
use mesh_geth_sdk.Client.Data.{LoadedTransaction}
use mesh_geth_sdk.Client.Utils.{amount, account, must_checksum, must_checksum-hex, checksum_address}
use mesh_geth_sdk.Mapper.Operations.{IsIndexed, stated, total, total_at, stated-show}
use mesh_geth_sdk.Mapper.Fee.{miner_earned, fee_op, burnt_ops, paid_ops, fee_ops}

-- Who gets the fee: the author, where there is one.
abbrev pub rewarder : LoadedTransaction → String
rewarder tx = if is_empty tx.author then tx.miner else tx.author

abbrev pub burned_part : Option ℤ → ℤ
burned_part none = pos 0
burned_part (some burned) = burned

must_checksum-valid :
    (g : Geth) (s : String) {a : Address}
    → g.mixedcase_address s ≡ some a
    → must_checksum g s ≡ ok a.hex
unfolding must_checksum checksum_address
must_checksum-valid g s e = rw (e, must_checksum)

-- What the operations of a fee do to the accounts.
abbrev pub Charges : Address → Address → ℤ → ℤ → List Operation → Type 0
Charges from payee fee burned ops =
    IsIndexed 0 ops
    × (total ops ≡ neg burned)
    × (total_at from.hex ops ≡ neg fee)
    × (total_at payee.hex ops ≡ fee -ℤ burned)

stated-fee_op : (i : ℕ) (r : List ℕ) (a : String) (v : ℤ) → stated (fee_op i r a v).amount ≡ v
unfolding amount
stated-fee_op i r a v = stated-show v native_currency

abbrev ops_of : Address → Address → ℤ → Option ℤ → List Operation
ops_of from payee earned burned =
    fee_op 0 [] from.hex (neg earned) ∷ fee_op 1 (0 ∷ []) payee.hex earned ∷ burnt_ops from burned

paid_ops-eq :
    (g : Geth) (tx : LoadedTransaction) {from payee : Address} (earned : ℤ)
    → ReadsHex g
    → tx.from ≡ some from
    → g.mixedcase_address (rewarder tx) ≡ some payee
    → paid_ops g tx (some earned) ≡ ok (ops_of from payee earned tx.fee_burned)
unfolding paid_ops
paid_ops-eq g tx {from} earned reads f p =
    rw (f, must_checksum-hex g reads from, must_checksum-valid g (rewarder tx) p) refl

miner_earned-eq :
    (fee : ℤ) (b : Option ℤ) → miner_earned (some fee) b ≡ ok (some (fee -ℤ burned_part b))
unfolding miner_earned
miner_earned-eq fee none = ap (λ x. ok (some x)) (omega int_laws)
miner_earned-eq fee (some burned) = refl

-- Distinct addresses are told apart both ways.
=ₛ-ne_comm : (s t : String) → (s =ₛ t) ≡ false → (t =ₛ s) ≡ false
=ₛ-ne_comm s t h = ground (arith, eq_iff s t, eq_iff t s)

ops_of-Charges :
    (from payee : Address) (fee : ℤ) (b : Option ℤ)
    → (from.hex =ₛ payee.hex) ≡ false
    → Charges from payee fee (burned_part b) (ops_of from payee (fee -ℤ burned_part b) b)
unfolding burnt_ops amount account
ops_of-Charges from payee fee none d =
    simp (parse-show_ℤ, eq_refl, d, =ₛ-ne_comm _ _ d)
      ((refl, (refl, tt)), omega int_laws, omega int_laws, omega int_laws)
ops_of-Charges from payee fee (some burned) d =
    simp (parse-show_ℤ, eq_refl, d, =ₛ-ne_comm _ _ d)
      ((refl, (refl, (refl, tt))), omega int_laws, omega int_laws, omega int_laws)

-- Where the sender, the fee and a valid address of the miner (or of the author) are known, `FeeOps`
-- gives operations with the indices 0, 1 and up, in which the sender pays exactly the fee, the
-- rewarded account earns the fee less its burned part, and the sum is minus the burned part.
pub fee_ops-Charges :
    (g : Geth) (tx : LoadedTransaction) {from payee : Address} {fee : ℤ}
    → ReadsHex g
    → tx.from ≡ some from
    → tx.fee_amount ≡ some fee
    → g.mixedcase_address (rewarder tx) ≡ some payee
    → (from.hex =ₛ payee.hex) ≡ false
    → (ops : List Operation) × (fee_ops g tx ≡ ok ops)
      × Charges from payee fee (burned_part tx.fee_burned) ops
unfolding fee_ops miner_earned
fee_ops-Charges g tx {from} {payee} {fee} reads f a p d = (
  ops_of from payee (fee -ℤ burned_part tx.fee_burned) tx.fee_burned,
  ap (λ o. miner_earned o tx.fee_burned >>= paid_ops g tx) a
      ∙ ap (λ m. m >>= paid_ops g tx) (miner_earned-eq fee tx.fee_burned)
      ∙ paid_ops-eq g tx (fee -ℤ burned_part tx.fee_burned) reads f p,
  ops_of-Charges from payee fee tx.fee_burned d,
)

burnt_ops-IsIndexed : (from : Address) (b : Option ℤ) → IsIndexed 2 (burnt_ops from b)
unfolding burnt_ops
burnt_ops-IsIndexed from none = tt
burnt_ops-IsIndexed from (some b) = (refl, tt)

paid_ops-IsIndexed :
    (g : Geth) (tx : LoadedTransaction) (o : Option ℤ) {ops : List Operation}
    → paid_ops g tx o ≡ ok ops
    → IsIndexed 0 ops
unfolding paid_ops
paid_ops-IsIndexed g tx none e = rw (← ok-injective e) tt
paid_ops-IsIndexed g tx (some earned) e =
    let (from, f, e1) = >>=-eq-ok (or_crash tx.from) _ e in
    let (payer, p, e2) = >>=-eq-ok (must_checksum g from.hex) _ e1 in
    let (rewarded, r, e3) = >>=-eq-ok (must_checksum g (rewarder tx)) _ e2 in
    rw (← ok-injective e3) (refl, (refl, burnt_ops-IsIndexed from tx.fee_burned))

pub fee_ops-IsIndexed :
    (g : Geth) (tx : LoadedTransaction) {ops : List Operation}
    → fee_ops g tx ≡ ok ops
    → IsIndexed 0 ops
unfolding fee_ops
fee_ops-IsIndexed g tx e =
    let (earned, m, e') = >>=-eq-ok (miner_earned tx.fee_amount tx.fee_burned) (paid_ops g tx) e in
    paid_ops-IsIndexed g tx earned e'
