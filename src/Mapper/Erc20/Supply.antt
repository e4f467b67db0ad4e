-- ===== src/Mapper/Erc20/Supply.antt =====
-- services/mapper.go: `Erc20Ops` and the supply of a token.
use mesh_geth_sdk.Base.{
  ℕ, ℤ, pos, neg, ◌+ℤ◌, int_laws, String, ◌≡◌, refl, sym, ap, ok-injective, ◌⊎◌, inl, inr, Bool,
  true, false, ◌&&◌, ◌=ₛ◌, eq_iff, List, [], ◌∷◌, ok, arith, if◌then◌else◌, Bool-cases, ◌∙◌, ◌+◌,
}
use mesh_geth_sdk.Base.Decimal.{parse-show_ℤ}
use mesh_geth_sdk.Rosetta.{Operation}
use mesh_geth_sdk.Geth.{Geth, Hash}
use mesh_geth_sdk.Types.{op_erc20_mint, op_erc20_burn, op_erc20_transfer}
use mesh_geth_sdk.Client.Data.{Log, ContractCurrency}
use mesh_geth_sdk.Mapper.Operations.{IsIndexed, total, stated}
use mesh_geth_sdk.Mapper.Erc20.{
  zero_address, transfer_topic, deposit_topic, withdrawal_topic, erc20_op,
  deposit_or_withdrawal_ops, transfer_log_ops, erc20_ops_of, erc20_ops,
}

-- The number in the log's data.
abbrev pub moved : Geth → Log → ℤ
moved g log = pos (g.bytes_to_big log.bytes)

-- The value if the test holds, and else zero.
abbrev pub counted : Bool → ℤ → ℤ
counted b v = if b then v else pos 0

-- How the supply of the token changes by an event of these topics: deposits add to it and withdrawals take
-- from it; a transfer from the zero address mints, and one to it burns. No other event changes it.
abbrev pub supply_change : ℤ → List Hash → ℤ
supply_change v (event ∷ address ∷ []) =
    counted (event.hex =ₛ deposit_topic) v +ℤ neg (counted (event.hex =ₛ withdrawal_topic) v)
supply_change v (event ∷ from ∷ to ∷ []) =
    counted (event.hex =ₛ transfer_topic && from.hex =ₛ zero_address) v
    +ℤ neg (counted (event.hex =ₛ transfer_topic && to.hex =ₛ zero_address) v)
supply_change v _ = pos 0

-- Of three topics, either the event is a transfer that does not go from the zero address to itself, or none
-- of the two addresses is zero.
abbrev pub IsOrdinary : List Hash → Type 0
IsOrdinary (event ∷ from ∷ to ∷ []) =
    (((event.hex =ₛ transfer_topic) ≡ true)
      × ((from.hex =ₛ zero_address && to.hex =ₛ zero_address) ≡ false))
    ⊎ (((from.hex =ₛ zero_address) ≡ false) × ((to.hex =ₛ zero_address) ≡ false))
IsOrdinary _ = Unit

-- What the code counts a log with these topics as.
abbrev coded_change : ℤ → List Hash → ℤ
coded_change v (event ∷ address ∷ []) =
    if event.hex =ₛ deposit_topic then v else if event.hex =ₛ withdrawal_topic then neg v else pos 0
coded_change v (event ∷ from ∷ to ∷ []) =
    if from.hex =ₛ zero_address then v else if to.hex =ₛ zero_address then neg v else pos 0
coded_change v _ = pos 0

stated-erc20_op :
    (g : Geth) (log : Log) (c : ContractCurrency) (n : ℕ) (r : List ℕ) (type : String) (b : Bool)
    (a : Hash)
    → stated (erc20_op g log c n r type b a).amount ≡ (if b then neg (moved g log) else moved g log)
unfolding erc20_op
stated-erc20_op g log c n r type b a = rw parse-show_ℤ refl

index-erc20_op :
    (g : Geth) (log : Log) (c : ContractCurrency) (n : ℕ) (r : List ℕ) (type : String) (b : Bool)
    (a : Hash)
    → (erc20_op g log c n r type b a).index ≡ n
unfolding erc20_op
index-erc20_op g log c n r type b a = refl

-- A text that is one literal is not another.
other_topic : (event s t : String) → (event =ₛ s) ≡ true → (s =ₛ t) ≡ false → (event =ₛ t) ≡ false
other_topic event s t e apart = rw ((eq_iff event s).0 e) apart

coded-supply_change :
    (v : ℤ) (event : Hash) (rest : List Hash)
    → IsOrdinary (event ∷ rest)
    → coded_change v (event ∷ rest) ≡ supply_change v (event ∷ rest)
coded-supply_change v event [] h = refl
coded-supply_change v event (a ∷ []) h = elim (Bool-cases (event.hex =ₛ deposit_topic)) [
  | inl e ↦ rw (e, other_topic event.hex deposit_topic withdrawal_topic e refl) (omega int_laws)
  | inr e ↦ elim (Bool-cases (event.hex =ₛ withdrawal_topic)) [
    | inl f ↦ rw (e, f) (omega int_laws)
    | inr f ↦ rw (e, f) (omega int_laws)
  ]
]
coded-supply_change v event (from ∷ to ∷ []) (inl (transfer, apart)) =
    elim (Bool-cases (from.hex =ₛ zero_address)) [
      | inl e ↦ rw (transfer, e, (rw e at apart)) (omega int_laws)
      | inr e ↦ elim (Bool-cases (to.hex =ₛ zero_address)) [
        | inl f ↦ rw (transfer, e, f) (omega int_laws)
        | inr f ↦ rw (transfer, e, f) (omega int_laws)
      ]
    ]
coded-supply_change v event (from ∷ to ∷ []) (inr (e, f)) =
    elim (Bool-cases (event.hex =ₛ transfer_topic)) [
      | inl t ↦ rw (t, e, f) (omega int_laws)
      | inr t ↦ rw (t, e, f) (omega int_laws)
    ]
coded-supply_change v event (a ∷ b ∷ c ∷ rest) h = refl

-- The operations count up from `n`, and their amounts add up to `v`.
abbrev pub Supplies : ℕ → ℤ → List Operation → Type 0
Supplies n v ops = IsIndexed n ops × (total ops ≡ v)

module _ (g : Geth) (log : Log) (c : ContractCurrency) (n : ℕ) where
  none-Supplies : Supplies n (pos 0) []
  none-Supplies = (tt, refl)

  one-Supplies :
      (type : String) (b : Bool) (a : Hash)
      → Supplies n
          (if b then neg (moved g log) else moved g log)
          (erc20_op g log c n [] type b a ∷ [])
  one-Supplies type b a = (
    (index-erc20_op g log c n [] type b a, tt),
    rw (stated-erc20_op g log c n [] type b a) (omega int_laws),
  )

  two-Supplies :
      (type : String) (from to : Hash)
      → Supplies n (pos 0) (
          erc20_op g log c n [] type true from
          ∷ erc20_op g log c (n + 1) (n ∷ []) type false to
          ∷ [])
  two-Supplies type from to = (
    (
      index-erc20_op g log c n [] type true from,
      (index-erc20_op g log c (n + 1) (n ∷ []) type false to ∙ omega arith, tt),
    ),
    rw
        (
          stated-erc20_op g log c n [] type true from,
          stated-erc20_op g log c (n + 1) (n ∷ []) type false to,
        )
        (omega int_laws),
  )

  two_topics :
      (event address : Hash)
      → Supplies n
          (coded_change (moved g log) (event ∷ address ∷ []))
          (deposit_or_withdrawal_ops g log c n event address)
  unfolding deposit_or_withdrawal_ops
  two_topics event address = elim (Bool-cases (event.hex =ₛ deposit_topic)) [
    | inl e ↦ rw e (one-Supplies op_erc20_mint false address)
    | inr e ↦ elim (Bool-cases (event.hex =ₛ withdrawal_topic)) [
      | inl f ↦ rw (e, f) (one-Supplies op_erc20_burn true address)
      | inr f ↦ rw (e, f) none-Supplies
    ]
  ]

  three_topics :
      (event from to : Hash)
      → Supplies n
          (coded_change (moved g log) (event ∷ from ∷ to ∷ []))
          (transfer_log_ops g log c n event from to)
  unfolding transfer_log_ops
  three_topics event from to = elim (Bool-cases (from.hex =ₛ zero_address)) [
    | inl e ↦ rw e (one-Supplies op_erc20_mint false to)
    | inr e ↦ elim (Bool-cases (to.hex =ₛ zero_address)) [
      | inl f ↦ rw (e, f) (one-Supplies op_erc20_burn true from)
      | inr f ↦ elim (Bool-cases (event.hex =ₛ transfer_topic)) [
        | inl h ↦ rw (e, f, h) (two-Supplies op_erc20_transfer from to)
        | inr h ↦ rw (e, f, h) none-Supplies
      ]
    ]
  ]

  erc20_ops_of-Supplies :
      (event : Hash) (rest : List Hash)
      → (ops : List Operation) × (erc20_ops_of g log c n (event ∷ rest) ≡ ok ops)
        × Supplies n (coded_change (moved g log) (event ∷ rest)) ops
  unfolding erc20_ops_of
  erc20_ops_of-Supplies event [] = ([], refl, none-Supplies)
  erc20_ops_of-Supplies event (a ∷ []) =
      (deposit_or_withdrawal_ops g log c n event a, refl, two_topics event a)
  erc20_ops_of-Supplies event (a ∷ b ∷ []) =
      (transfer_log_ops g log c n event a b, refl, three_topics event a b)
  erc20_ops_of-Supplies event (a ∷ b ∷ d ∷ rest) = ([], refl, none-Supplies)

  erc20_ops_of-IsIndexed :
      (topics : List Hash) {ops : List Operation}
      → erc20_ops_of g log c n topics ≡ ok ops
      → IsIndexed n ops
  erc20_ops_of-IsIndexed [] e = unfold erc20_ops_of in cc
  erc20_ops_of-IsIndexed (event ∷ rest) e =
      let (ops', made, s) = erc20_ops_of-Supplies event rest in
      rw (← ok-injective (sym made ∙ e)) (s.0)

  pub erc20_ops-IsIndexed : {ops : List Operation} → erc20_ops g log c n ≡ ok ops → IsIndexed n ops
  unfolding erc20_ops
  erc20_ops-IsIndexed e = erc20_ops_of-IsIndexed log.topics e

  -- An ordinary log with at least one topic gives operations whose indices count up from `n`, and whose sum
  -- is the change of the supply by its event: the number in the log for a deposit or a transfer from the
  -- zero address, minus that number for a withdrawal or a transfer to the zero address, and zero for every
  -- other event. A log with three topics is ordinary if its event is a transfer not from the zero address to
  -- itself, or if neither address is zero.
  pub erc20_ops-Supplies :
      (event : Hash) (rest : List Hash)
      → log.topics ≡ event ∷ rest
      → IsOrdinary (event ∷ rest)
      → (ops : List Operation) × (erc20_ops g log c n ≡ ok ops)
        × Supplies n (supply_change (moved g log) (event ∷ rest)) ops
  unfolding erc20_ops
  erc20_ops-Supplies event rest e ordinary =
      let (ops, made, (indexed, sum)) = erc20_ops_of-Supplies event rest in
      (
        ops,
        ap (erc20_ops_of g log c n) e ∙ made,
        (indexed, sum ∙ coded-supply_change (moved g log) event rest ordinary),
      )

  -- Of a log with three topics of which the second or the third is the zero address, the operations
  -- are the same whatever the event is.
  pub transfer_log_ops_ignores_event :
      (event event' from to : Hash)
      → ((from.hex =ₛ zero_address) ≡ true) ⊎ ((to.hex =ₛ zero_address) ≡ true)
      → transfer_log_ops g log c n event from to ≡ transfer_log_ops g log c n event' from to
  unfolding transfer_log_ops
  transfer_log_ops_ignores_event event event' from to (inl h) = rw h refl
  transfer_log_ops_ignores_event event event' from to (inr h) =
      elim (Bool-cases (from.hex =ₛ zero_address)) [ inl e ↦ rw e refl | inr e ↦ rw (e, h) refl ]
