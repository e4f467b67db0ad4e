-- ===== src/Ethereum/Parsed.antt =====
-- examples/ethereum/client/client.go: `ParseOps` as a whole, and failing receipts.
use mesh_geth_sdk.Base.{
  ℕ, ◌+◌, ℤ, neg, int_laws, ◌≡◌, ap, ◌∙◌, false, ◌=ₛ◌, some, List, [], ◌++◌, ok, ◌>>=◌, >>=-eq-ok,
  ok-injective, arith, length, All,
}
use mesh_geth_sdk.Base.Dict.{Dict}
use mesh_geth_sdk.Rosetta.{Operation}
use mesh_geth_sdk.Geth.{Geth, Address, ReadsHex}
use mesh_geth_sdk.Client.Data.{LoadedTransaction}
use mesh_geth_sdk.Mapper.Operations.{IsIndexed, IsIndexed-append, total, total-append}
use mesh_geth_sdk.Mapper.Fee.{fee_ops}
use mesh_geth_sdk.Mapper.Fee.Balance.{fee_ops-Charges, fee_ops-IsIndexed, rewarder, burned_part}
use mesh_geth_sdk.Mapper.Trace.{trace_ops}
use mesh_geth_sdk.Mapper.Trace.Indices.{trace_ops-IsIndexed}
use mesh_geth_sdk.Mapper.Trace.Balance.{trace_ops_balance, IsPlain}
use mesh_geth_sdk.Ethereum.{parse_ops}

no_ops_before : (n : ℕ) → 0 + n ≡ n
no_ops_before n = omega arith

-- The operations that `ParseOps` returns, fees first and traces after them, have the indices 0, 1 and
-- so on.
pub parse_ops-IsIndexed :
    (g : Geth) (order : Dict ℤ → Dict ℤ) (tx : LoadedTransaction) (ops : List Operation)
    → parse_ops g order tx ≡ ok ops
    → IsIndexed 0 ops
unfolding parse_ops
parse_ops-IsIndexed g order tx ops e =
    let (fees, paid, e') =
      >>=-eq-ok (fee_ops g tx)
        (λ fees. trace_ops g order tx.trace (length fees) >>= λ traces. ok (fees ++ traces)) e in
    let (traces, traced, e'') =
      >>=-eq-ok (trace_ops g order tx.trace (length fees)) (λ traces. ok (fees ++ traces)) e' in
    rw (← ok-injective e'') (
      IsIndexed-append 0 fees traces (fee_ops-IsIndexed g tx paid) (
        rw (no_ops_before (length fees))
          (trace_ops-IsIndexed g order tx.trace (length fees) traced)))

-- A transaction whose sender, fee and rewarded account are known, with calls of which none is a
-- self-destruct, is parsed; and the amounts of its operations add up to minus the burned part of
-- the fee: nothing else enters or leaves the accounts.
pub parse_ops_balance :
    (g : Geth) (order : Dict ℤ → Dict ℤ) (tx : LoadedTransaction) {from payee : Address} {fee : ℤ}
    → ReadsHex g
    → order [] ≡ []
    → tx.from ≡ some from
    → tx.fee_amount ≡ some fee
    → g.mixedcase_address (rewarder tx) ≡ some payee
    → (from.hex =ₛ payee.hex) ≡ false
    → All IsPlain tx.trace
    → (ops : List Operation) × (parse_ops g order tx ≡ ok ops)
      × (total ops ≡ neg (burned_part tx.fee_burned))
unfolding parse_ops
parse_ops_balance g order tx reads keeps f a p d plain =
    let (fees, paid, charges) = fee_ops-Charges g tx reads f a p d in
    let (traces, traced, indexed, even) =
      trace_ops_balance g reads (length fees) order tx.trace keeps plain in
    (
      fees ++ traces,
      ap
            (λ m. m >>= λ fees.
              trace_ops g order tx.trace (length fees) >>= λ traces. ok (fees ++ traces))
            paid
          ∙ ap (λ m. m >>= λ traces. ok (fees ++ traces)) traced,
      total-append fees traces ∙ (rw (charges.1, even) (omega int_laws)),
    )
