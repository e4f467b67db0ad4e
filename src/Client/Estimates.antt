-- ===== src/Client/Estimates.antt =====
-- client/client.go: what the metadata of a transaction is asked with (`GetNonce`, `GetGasPrice`, the
-- limits of gas), and `GetContractCurrency`; `GetNativeTransferGasLimit` of examples/ethereum/client.
use mesh_geth_sdk.Base.{
  ℕ, ◌==◌, ℤ, pos, uint64, String, Bool, ◌||◌, Option, none, some, List, [], Result, ok, err, crash,
  ◌>>=◌, or_err, or_crash, if◌then◌else◌,
}
use mesh_geth_sdk.Base.Text.{is_empty}
use mesh_geth_sdk.Base.Dict.{lookup}
use mesh_geth_sdk.Rosetta.{Currency}
use mesh_geth_sdk.Geth.{Geth, Address}
use mesh_geth_sdk.Types.Errors.{GoError, message}
use mesh_geth_sdk.Client.Data.{ContractCurrency}
use mesh_geth_sdk.Construction.Data.{Options}
use mesh_geth_sdk.Construction.Describe.{text_of}
use mesh_geth_sdk.Construction.TransferData.{generate_erc20_transfer_data}

-- go-ethereum's `CallMsg`, as far as it is filled in
pub record CallMsg : Type 0 where
  pub from : Address
  pub to : Option Address
  pub value : Option ℤ
  pub call_data : List ℕ

-- `NonceAt`, `SuggestGasPrice` and `EstimateGas` of go-ethereum's client; `scale` is the product of a
-- float, known by its text, with a number, cut to an integer.
pub record Estimator : Type 0 where
  pub nonce_at : Address → Result GoError ℕ
  pub suggest_gas_price : Result GoError ℤ
  pub estimate_gas : CallMsg → Result GoError ℕ
  pub scale : String → ℤ → ℤ

-- The contract of a token, as the generated bindings read it.
pub record Token : Type 0 where
  pub symbol : Result GoError String
  pub decimals : Result GoError ℕ

module _ (g : Geth) (node : Estimator) where
  -- `GetNonce`
  unfoldable pub get_nonce : Options → Result GoError ℕ
  get_nonce input = elim input.nonce [
    | none ↦ node.nonce_at (g.hex_to_address input.from)
    | some nonce ↦ ok (uint64 nonce)
  ]

  -- The suggested price, with the multiplier of the options
  unfoldable pub suggested_gas_price : Option String → Result GoError ℤ
  suggested_gas_price multiplier = do
    gas_price ← node.suggest_gas_price
    ok (elim multiplier [ none ↦ gas_price | some m ↦ node.scale m gas_price ])

  -- `GetGasPrice`
  unfoldable pub get_gas_price : Options → Result GoError ℤ
  unfolding suggested_gas_price
  get_gas_price input = elim input.gas_price [
    | none ↦ suggested_gas_price input.suggested_fee_multiplier
    | some gas_price ↦
        if uint64 gas_price == 0
        then suggested_gas_price input.suggested_fee_multiplier
        else ok gas_price
  ]

  -- `GetErc20TransferGasLimit`
  unfoldable pub get_erc20_transfer_gas_limit :
      (String → List ℕ) → String → String → ℤ → Currency → Result GoError ℕ
  get_erc20_transfer_gas_limit keccak to_address from_address value currency = do
    contract ←
        or_err (lookup "contractAddress" currency.metadata)
          (message "unable to find contract info for currency %s")
    contract_address ← or_crash (text_of (some contract))
    node.estimate_gas (record {
      from = g.hex_to_address from_address;
      to = some (g.hex_to_address contract_address);
      value = none;
      call_data = generate_erc20_transfer_data g keccak to_address value;
    })

  -- `GetContractCallGasLimit`
  unfoldable pub get_contract_call_gas_limit : String → String → ℤ → List ℕ → Result GoError ℕ
  get_contract_call_gas_limit to_address from_address value call_data = node.estimate_gas (record {
    from = g.hex_to_address from_address;
    to = some (g.hex_to_address to_address);
    value = some value;
    call_data = call_data;
  })

  -- `GetNativeTransferGasLimit` of the Ethereum client; the value is not used but for being nil.
  unfoldable pub get_native_transfer_gas_limit : String → String → Option ℤ → Result GoError ℕ
  get_native_transfer_gas_limit to_address from_address none = ok 21000
  get_native_transfer_gas_limit to_address from_address (some value) =
      if is_empty to_address
      then ok 21000
      else node.estimate_gas (record {
        from = g.hex_to_address from_address;
        to = some (g.hex_to_address to_address);
        value = some (pos 0);
        call_data = [];
      })

abbrev pub unknown_erc721_symbol : String
unknown_erc721_symbol = "ERC721_UNKNOWN"

abbrev pub unknown_currency : Bool → ContractCurrency
unknown_currency erc20 = record {
  symbol = if erc20 then "ERC20_UNKNOWN" else unknown_erc721_symbol;
  decimals = 0;
}

-- The currency of a contract that answers; any failure and any empty answer makes it unknown.
unfoldable pub currency_of :
    Bool → Result GoError String → Result GoError ℕ → Result GoError ContractCurrency
currency_of erc20 (ok symbol) (ok decimals) =
    if is_empty symbol || decimals == 0
    then ok (unknown_currency erc20)
    else ok (record { symbol = symbol; decimals = decimals })
currency_of erc20 (ok symbol) (err e) = ok (unknown_currency erc20)
currency_of erc20 (err e) (ok decimals) = ok (unknown_currency erc20)
currency_of erc20 (err e) (err e') = ok (unknown_currency erc20)
currency_of erc20 crash decimals = crash
currency_of erc20 (ok symbol) crash = crash
currency_of erc20 (err e) crash = crash

-- `GetContractCurrency`; `new_token` is `NewContractInfoToken`.
unfoldable pub get_contract_currency :
    (Address → Result GoError Token) → Address → Bool → Result GoError ContractCurrency
get_contract_currency new_token addr erc20 = do
  token ← new_token addr
  currency_of erc20 token.symbol token.decimals
