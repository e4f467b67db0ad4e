-- ===== src/Client/Balance/Answer.antt =====
-- client/client.go: the balances that `Balance` answers with, and at which block.
use Prim.Native.String.{◌++◌}
use mesh_geth_sdk.Base.{
  ℕ, ℤ, pos, signed64, String, ◌≡◌, refl, sym, ◌⊎◌, inl, inr, Bool, true, Bool-cases, Option,
  Option-cases, none, some, List, [], ◌∷◌, Result, ok, >>=-eq-ok, ok-injective, map_err,
  map_err-eq-ok, or_crash, or_crash-eq-ok, get_elem?, some-injective, ap,
}
use mesh_geth_sdk.Base.Dict.{lookup}
use mesh_geth_sdk.Rosetta.{Currency, Amount, Value, PartialBlockIdentifier}
use mesh_geth_sdk.Types.Errors.{GoError, wrapped}
use mesh_geth_sdk.Configuration.{RosettaConfig}
use mesh_geth_sdk.Client.Utils.{balance_of_method_prefix, erc20_currency}
use mesh_geth_sdk.Services.Client.{Header, AccountBalance}
use mesh_geth_sdk.Construction.Describe.{text_of}
use mesh_geth_sdk.Client.Node.{Rpc, Request, Arg, block_header, decode_hex_data}
use mesh_geth_sdk.Client.Balance.{
  amount_of, both_answers, identifier_address, token_balance, balance_in, balances_loop,
  balances_of, balance,
}

text_of-eq-some : (v : Value) {s : String} → text_of (some v) ≡ some s → v ≡ Value.text s
unfolding text_of
text_of-eq-some (Value.text t) e = ap Value.text (some-injective e)
text_of-eq-some v e = cc

both_answers-eq-ok :
    (answers : List (Result GoError ℕ)) {both : ℕ × ℕ}
    → both_answers answers ≡ ok both
    → (get_elem? answers 0 ≡ some (ok both.0)) × (get_elem? answers 1 ≡ some (ok both.1))
unfolding both_answers
both_answers-eq-ok answers e =
    let (first, h1, e1) = >>=-eq-ok (or_crash (get_elem? answers 0)) _ e in
    let (second, h2, e2) = >>=-eq-ok (or_crash (get_elem? answers 1)) _ e1 in
    let (b, h3, e3) = >>=-eq-ok first _ e2 in
    let (n, h4, e4) = >>=-eq-ok second _ e3 in
    rw (← ok-injective e4) (
      rw (← h3) (or_crash-eq-ok (get_elem? answers 0) h1),
      rw (← h4) (or_crash-eq-ok (get_elem? answers 1) h2),
    )

module _ (rpc : Rpc) (config : RosettaConfig) (same : Currency → Currency → Bool) (account : String)
    (block_num : String) (native_balance : ℕ) where
  -- The call of `balanceOf` of a contract.
  abbrev pub balance_call : String → String → Request
  balance_call contract_address address = (
    "eth_call",
    Arg.call_params contract_address (balance_of_method_prefix ++ address)
        ∷ Arg.text block_num
        ∷ [],
  )

  -- An amount that answers for a currency: the native balance, or what the contract says at the block.
  abbrev pub IsBalance : Currency → Amount → Type 0
  IsBalance currency a =
      ((lookup "contractAddress" currency.metadata ≡ none)
        × (same currency config.currency ≡ true)
        × (a ≡ amount_of (pos native_balance) config.currency))
      ⊎ ((contract_address : String) × (address : String) × (resp : String) × (n : ℤ) × (lookup
              "contractAddress" currency.metadata
            ≡ some (Value.text contract_address))
          × (identifier_address account ≡ ok address)
          × (rpc.call_text (balance_call contract_address address) ≡ ok resp)
          × (decode_hex_data resp ≡ ok n)
          × (a ≡ amount_of n (erc20_currency currency.symbol currency.decimals contract_address)))

  -- One amount for each currency, in their order.
  abbrev pub Each : List Currency → List Amount → Type 0
  Each [] [] = Unit
  Each [] (a ∷ rest) = ⊥
  Each (c ∷ cs) [] = ⊥
  Each (c ∷ cs) (a ∷ rest) = IsBalance c a × Each cs rest

  -- The native balance where no currency is asked for.
  abbrev pub Balances : List Currency → List Amount → Type 0
  Balances [] amounts = amounts ≡ amount_of (pos native_balance) config.currency ∷ []
  Balances (c ∷ cs) amounts = Each (c ∷ cs) amounts

  token_balance-IsBalance :
      (currency : Currency) (contract_address : String) {a : Amount}
      → lookup "contractAddress" currency.metadata ≡ some (Value.text contract_address)
      → token_balance rpc config same account block_num native_balance currency contract_address
        ≡ ok a
      → IsBalance currency a
  unfolding token_balance
  token_balance-IsBalance currency contract_address known e =
      let (address, h1, e1) = >>=-eq-ok (identifier_address account) _ e in
      let (resp, h2, e2) = >>=-eq-ok (rpc.call_text (balance_call contract_address address)) _ e1 in
      let (n, h3, e3) =
        >>=-eq-ok
          (map_err (decode_hex_data resp) (wrapped "failed to decode balanceOf call response: ")) _
          e2 in
      inr (
        contract_address,
        address,
        resp,
        n,
        known,
        h1,
        h2,
        map_err-eq-ok (decode_hex_data resp) _ h3,
        sym (ok-injective e3),
      )

  balance_in-IsBalance :
      (currency : Currency) {a : Amount}
      → balance_in rpc config same account block_num native_balance currency ≡ ok a
      → IsBalance currency a
  unfolding balance_in
  balance_in-IsBalance currency e =
      elim (Option-cases (lookup "contractAddress" currency.metadata)) [
        | inl missing ↦ elim (Bool-cases (same currency config.currency)) [
          | inl native ↦
              inl (missing, native, sym (ok-injective (rw (missing, balance_in, native) at e)))
          | inr other ↦ cc (rw (missing, balance_in, other) at e)
        ]
        | inr (v, there) ↦
            (let (contract_address, h, e1) =
                >>=-eq-ok (or_crash (text_of (some v))) _ (rw (there, balance_in) at e) in
              let is_text = text_of-eq-some v (or_crash-eq-ok (text_of (some v)) h) in
              token_balance-IsBalance currency contract_address (rw is_text at there) e1)
      ]

  balances_loop-Each :
      (currencies : List Currency) {amounts : List Amount}
      → balances_loop rpc config same account block_num native_balance currencies ≡ ok amounts
      → Each currencies amounts
  unfolding balances_loop
  balances_loop-Each [] e = rw (← ok-injective e) tt
  balances_loop-Each (currency ∷ rest) e =
      let (first, h1, e1) =
        >>=-eq-ok (balance_in rpc config same account block_num native_balance currency) _ e in
      let (others, h2, e2) =
        >>=-eq-ok (balances_loop rpc config same account block_num native_balance rest) _ e1 in
      rw (← ok-injective e2) (balance_in-IsBalance currency h1, balances_loop-Each rest h2)

  balances_of-Balances :
      (currencies : List Currency) {amounts : List Amount}
      → balances_of rpc config same account block_num native_balance currencies ≡ ok amounts
      → Balances currencies amounts
  unfolding balances_of
  balances_of-Balances [] e = sym (ok-injective e)
  balances_of-Balances (currency ∷ rest) e = balances_loop-Each (currency ∷ rest) e

-- The header that is asked for, the answers to the two requests at its block, and the amounts.
abbrev pub Answers :
    Rpc
    → RosettaConfig
    → (Currency → Currency → Bool)
    → String
    → Option PartialBlockIdentifier
    → List Currency
    → AccountBalance
    → Type 0
Answers rpc config same account block currencies b =
    (header : Header) × (answers : List (Result GoError ℕ)) × (native : ℕ) × (nonce : ℕ)
    × (block_header rpc config block ≡ ok header)
    × (b.block_identifier ≡ record { index = header.number; hash = (rpc.header_hash header).hex })
    × (rpc.batch_numbers (
          ("eth_getBalance", Arg.text account ∷ Arg.text (rpc.encode_uint64 header.number) ∷ [])
          ∷ (
            "eth_getTransactionCount",
            Arg.text account ∷ Arg.text (rpc.encode_uint64 header.number) ∷ [],
          )
          ∷ [])
        ≡ ok answers)
    × (get_elem? answers 0 ≡ some (ok native))
    × (get_elem? answers 1 ≡ some (ok nonce))
    × (b.nonce ≡ signed64 nonce)
    × Balances rpc config same account (rpc.encode_uint64 header.number) native currencies
        b.balances

-- `Balance` answers with the block of the header that it asked for, with the nonce that the node counts
-- at that block, and with one amount for each currency in their order, or with the native one alone
-- where no currency is asked for: an amount is the native balance of the node at that block, or what
-- the contract of the currency answers there.
pub balance-Balances :
    (rpc : Rpc) (config : RosettaConfig) (same : Currency → Currency → Bool) (account : String)
    (block : Option PartialBlockIdentifier) (currencies : List Currency) {b : AccountBalance}
    → balance rpc config same account block currencies ≡ ok b
    → Answers rpc config same account block currencies b
unfolding balance
balance-Balances rpc config same account block currencies e =
    let (header, h1, e1) =
      >>=-eq-ok (map_err (block_header rpc config block) (wrapped "failed to get block header: ")) _
        e in
    let (answers, h2, e2) = >>=-eq-ok (rpc.batch_numbers _) _ e1 in
    let (both, h3, e3) = >>=-eq-ok (both_answers answers) _ e2 in
    let (amounts, h4, e4) =
      >>=-eq-ok
        (balances_of rpc config same account (rpc.encode_uint64 header.number) both.0 currencies) _
        e3 in
    let (first, second) = both_answers-eq-ok answers h3 in
    rw (← ok-injective e4) (
      header,
      answers,
      both.0,
      both.1,
      map_err-eq-ok (block_header rpc config block) _ h1,
      refl,
      h2,
      first,
      second,
      refl,
      balances_of-Balances rpc config same account (rpc.encode_uint64 header.number) both.0
          currencies h4,
    )
