-- ===== src/Client/Balance.antt =====
-- client/client.go: `Balance` asks the node for the balances of an account.
pub mod Answer
use mesh_geth_sdk.Base.{
  ℕ, ◌-◌, ◌<◌, ltb, ℤ, pos, signed64, String, Bool, true, false, Option, none, some, List, [], ◌∷◌,
  get_elem?, Result, ok, err, crash, ◌>>=◌, map_err, or_crash, if◌then◌else◌,
}
use mesh_geth_sdk.Base.Decimal.{show_ℤ}
use mesh_geth_sdk.Base.Dict.{lookup}
use Prim.Native.String.{◌++◌}
use mesh_geth_sdk.Base.Text.{slice}
use mesh_geth_sdk.Rosetta.{Currency, Amount, Value, PartialBlockIdentifier}
use mesh_geth_sdk.Types.Errors.{GoError, message, wrapped}
use mesh_geth_sdk.Configuration.{RosettaConfig}
use mesh_geth_sdk.Client.Utils.{balance_of_method_prefix, has_0x_prefix, erc20_currency}
use mesh_geth_sdk.Services.Client.{Header, AccountBalance}
use mesh_geth_sdk.Construction.Describe.{text_of}
use mesh_geth_sdk.Client.Node.{Rpc, Request, Arg, block_header, decode_hex_data}

abbrev pub amount_of : ℤ → Currency → Amount
amount_of n currency = record { value = show_ℤ n; currency = currency }

-- The answers to the requests for the balance and the nonce, of which the first error counts.
unfoldable pub both_answers : List (Result GoError ℕ) → Result GoError (ℕ × ℕ)
both_answers answers = do
  first ← or_crash (get_elem? answers 0)
  second ← or_crash (get_elem? answers 1)
  balance ← first
  nonce ← second
  ok (balance, nonce)

-- `if has0xPrefix(address) { address = address[2:42] }`
unfoldable pub identifier_address : String → Result GoError String
identifier_address address =
    if has_0x_prefix address then or_crash (slice 2 42 address) else ok address

-- `same` is `Equal` of rosetta-sdk-go's utils.
module _ (rpc : Rpc) (config : RosettaConfig) (same : Currency → Currency → Bool) (account : String)
    (block_num : String) (native_balance : ℕ) where
  -- The balance of a token: a call of `balanceOf` at the block.
  unfoldable pub token_balance : Currency → String → Result GoError Amount
  token_balance currency contract_address = do
    address ← identifier_address account
    resp ← rpc.call_text (
      "eth_call",
      Arg.call_params contract_address (balance_of_method_prefix ++ address)
          ∷ Arg.text block_num
          ∷ [],
    )
    balance ← map_err (decode_hex_data resp) (wrapped "failed to decode balanceOf call response: ")
    ok (amount_of balance (erc20_currency currency.symbol currency.decimals contract_address))

  -- One round of the loop over the currencies
  unfoldable pub balance_in : Currency → Result GoError Amount
  unfolding token_balance
  balance_in currency = elim (lookup "contractAddress" currency.metadata) [
    | some address ↦ (do
      contract_address ← or_crash (text_of (some address))
      token_balance currency contract_address)
    | none ↦
        if same currency config.currency
        then ok (amount_of (pos native_balance) config.currency)
        else err (message "non-native currencies must specify contractAddress in metadata")
  ]

  unfoldable pub balances_loop : List Currency → Result GoError (List Amount)
  balances_loop [] = ok []
  balances_loop (currency ∷ rest) = do
    first ← balance_in currency
    others ← balances_loop rest
    ok (first ∷ others)

  -- Without currencies, the native balance alone
  unfoldable pub balances_of : List Currency → Result GoError (List Amount)
  balances_of [] = ok (amount_of (pos native_balance) config.currency ∷ [])
  balances_of (currency ∷ rest) = balances_loop (currency ∷ rest)

-- `Balance`
unfoldable pub balance :
    Rpc
    → RosettaConfig
    → (Currency → Currency → Bool)
    → String
    → Option PartialBlockIdentifier
    → List Currency
    → Result GoError AccountBalance
balance rpc config same account block currencies = do
  header ← map_err (block_header rpc config block) (wrapped "failed to get block header: ")
  let block_num = rpc.encode_uint64 header.number
  answers ← rpc.batch_numbers (
      ("eth_getBalance", Arg.text account ∷ Arg.text block_num ∷ [])
      ∷ ("eth_getTransactionCount", Arg.text account ∷ Arg.text block_num ∷ [])
      ∷ [])
  both ← both_answers answers
  balances ← balances_of rpc config same account block_num both.0 currencies
  ok (record {
    balances = balances;
    block_identifier = record { index = header.number; hash = (rpc.header_hash header).hex };
    nonce = signed64 both.1;
  })
