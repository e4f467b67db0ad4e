-- ===== src/Construction/Metadata.antt =====
-- services/construction/metadata.go: `ConstructionMetadata` asks the node for the nonce, the limit of
-- gas and the fees of a transaction.
pub mod Fee
use mesh_geth_sdk.Base.{
  ℕ, ◌==◌, ℤ, pos, ◌*ℤ◌, int64, signed64, to_int64, uint64, String, ◌=ₛ◌, Bool, true, false, not,
  ◌||◌, ◌&&◌, Option, none, some, List, [], Result, ok, err, crash, ◌>>=◌, map_err, or_err,
  if◌then◌else◌,
}
use mesh_geth_sdk.Base.Text.{is_empty}
use mesh_geth_sdk.Base.Decimal.{parse_ℤ}
use mesh_geth_sdk.Base.Dict.{Dict}
use mesh_geth_sdk.Rosetta.{Currency, Amount, Value, Error}
use mesh_geth_sdk.Geth.{Geth}
use mesh_geth_sdk.Types.{online}
use mesh_geth_sdk.Types.Errors.{
  GoError, message, wrapped, wrap_err, err_unavailable_offline, err_invalid_address,
  err_nonce_error, err_gas_price_error, err_native_gas_limit_error, err_erc20_gas_limit_error,
  err_gas_tip_cap_error, err_gas_fee_cap_error, err_l1_data_fee_error,
}
use mesh_geth_sdk.Configuration.{Configuration}
use mesh_geth_sdk.Client.Utils.{checksum_address, amount}
use mesh_geth_sdk.Services.Client.{Client}
use mesh_geth_sdk.Construction.Data.{Options, TxMetadata, TxData, receiver, priced}
use mesh_geth_sdk.Construction.TransferData.{generate_erc20_transfer_data}
use mesh_geth_sdk.Construction.CallData.{construct_contract_call_data_generic}
use mesh_geth_sdk.Construction.CallData.Args.{Abi}
use mesh_geth_sdk.Construction.Library.{Json, Signing, Parser, unmarshal_json_map, marshal_json_map}
use mesh_geth_sdk.Construction.Payloads.{invalid_input, internal_error, not_an_address}

-- The suggested fee is one amount.
pub record MetadataResponse : Type 0 where
  pub metadata : Dict Value
  pub suggested_fee : Option Amount

-- `return nil, WrapErr(e, err)`
abbrev pub with_error : {A : Type 0} → Result GoError A → Error → Result Error A
with_error r e = map_err r (λ x. wrap_err e (some x))

-- `!cond` as a check that returns an error
abbrev pub check : Bool → Error → Result Error Unit
check true e = ok tt
check false e = err e

-- The gas limit of the options, if it is there and not zero
unfoldable pub given_gas_limit : Option ℤ → Option ℕ
given_gas_limit none = none
given_gas_limit (some n) = if uint64 n == 0 then none else some (uint64 n)

-- `suggestedFee`, with the wrap-around of int64
unfoldable pub suggested_fee : ℤ → Option ℤ → ℕ → ℤ
suggested_fee gas_price none gas_limit = to_int64 (int64 gas_price *ℤ signed64 gas_limit)
suggested_fee gas_price (some gas_fee_cap) gas_limit =
    to_int64 (int64 gas_fee_cap *ℤ signed64 gas_limit)

module _ (g : Geth) (keccak : String → List ℕ) (abi : Abi) (parser : Parser)
    (config : Configuration) (c : Client) where
  abbrev pub invalid_address : GoError → Error
  invalid_address e = wrap_err err_invalid_address (some (not_an_address e))

  -- Address validation
  unfoldable pub validate : Options → Result Error Unit
  validate input = do
    has_from ←
        check (not (is_empty input.from)) (invalid_input (message "from address is not provided"))
    has_to ← check (not (is_empty input.to)) (invalid_input (message "to address is not provided"))
    from ← map_err (checksum_address g input.from) invalid_address
    to ← map_err (checksum_address g input.to) invalid_address
    ok tt

  -- The options with the data of a contract call, where they have none
  unfoldable pub with_contract_data : Options → Result Error Options
  with_contract_data input =
      if not (is_empty input.contract_address) && is_empty input.contract_data
      then (do
        bs ←
            map_err
              (construct_contract_call_data_generic g abi keccak input.method_signature
                input.method_args)
              invalid_input
        ok (record input { contract_data = abi.encode bs }))
      else ok input

  -- `input.Currency == nil || types.Hash(input.Currency) == types.Hash(native)`
  unfoldable pub in_native : Option Currency → Bool
  in_native none = true
  in_native (some currency) = parser.hash currency =ₛ parser.hash config.rosetta_cfg.currency

  unfoldable pub token_gas_limit : Options → Option Currency → Result Error ℕ
  token_gas_limit input none = crash
  token_gas_limit input (some currency) =
      with_error
        (c.get_erc20_transfer_gas_limit input.to input.from (abi.set_string input.value) currency)
        err_erc20_gas_limit_error

  -- The estimate of the node for the kind of transaction
  unfoldable pub estimated_gas_limit : Options → Result Error ℕ
  unfolding in_native token_gas_limit
  estimated_gas_limit input =
      if not (is_empty input.contract_address)
      then (do
        contract_address ← map_err (checksum_address g input.contract_address) invalid_address
        contract_data ← map_err (abi.decode input.contract_data) invalid_input
        with_error
            (c.get_contract_call_gas_limit contract_address input.from (abi.set_string input.value)
              contract_data)
            err_erc20_gas_limit_error)
      else if in_native input.currency
      then with_error
          (c.get_native_transfer_gas_limit input.to input.from (abi.set_string input.value))
          err_native_gas_limit_error
      else token_gas_limit input input.currency

  unfoldable pub gas_limit_of : Options → Result Error ℕ
  gas_limit_of input = elim (given_gas_limit input.gas_limit) [
    | some gas_limit ↦ ok gas_limit
    | none ↦ estimated_gas_limit input
  ]

  -- `gasTipCap` and `gasFeeCap`
  unfoldable pub fee_caps : Options → Result Error (Option ℤ × Option ℤ)
  fee_caps input =
      if c.rosetta_config.supports_eip1559
      then (do
        tip ← with_error (c.get_gas_tip_cap input) err_gas_tip_cap_error
        cap ← with_error (c.get_gas_fee_cap input tip) err_gas_fee_cap_error
        ok (some tip, cap))
      else ok (none, none)

  -- The data and the value of the transaction whose L1 fee is asked for
  unfoldable pub l1_data : Options → ℤ → Result Error (List ℕ × ℤ)
  l1_data input value =
      if not (is_empty input.contract_address)
      then (do
        contract_data ←
            map_err (abi.decode input.contract_data)
              (λ e. invalid_input (wrapped "transaction data %s is invalid: " e))
        ok (contract_data, value))
      else if in_native input.currency
      then ok ([], value)
      else ok (generate_erc20_transfer_data g keccak input.to value, pos 0)

  -- `EthTransaction` of the transaction with these fields, which goes to the receiver of the options
  abbrev pub l1_transaction : Options → ℕ → ℤ → ℕ → Option ℤ × Option ℤ → List ℕ × ℤ → TxData
  l1_transaction input nonce gas_price gas_limit (tip, cap) (call_data, value) =
      priced tip cap (some gas_price) (record {
        nonce = nonce;
        gas = gas_limit;
        to = receiver g input.to;
        value = some value;
        call_data = call_data;
      })

  module _ {Blob Signed : Type 0} (json : Json Blob) (signing : Signing Blob Signed) where
    unfoldable pub l1_data_fee : Options → ℕ → ℤ → ℕ → Option ℤ × Option ℤ → Result Error (Option ℤ)
    l1_data_fee input nonce gas_price gas_limit caps =
        if c.rosetta_config.supports_op_stack
        then (do
          value ←
              or_err (parse_ℤ input.value)
                (invalid_input (message "transaction value %s is invalid"))
          sent ← l1_data input value
          bytes ←
              with_error
                (signing.marshal_binary (l1_transaction input nonce gas_price gas_limit caps sent))
                err_l1_data_fee_error
          with_error (c.get_l1_data_fee bytes) err_l1_data_fee_error)
        else ok none

    -- What is asked of the node, in this order
    unfoldable pub metadata_of : Options → Result Error TxMetadata
    metadata_of options = do
      valid ← validate options
      nonce ← with_error (c.get_nonce options) err_nonce_error
      gas_price ← with_error (c.get_gas_price options) err_gas_price_error
      input ← with_contract_data options
      gas_limit ← gas_limit_of input
      caps ← fee_caps input
      l1_fee ← l1_data_fee input nonce gas_price gas_limit caps
      ok (record {
        nonce = nonce;
        gas_price = some gas_price;
        gas_limit = gas_limit;
        gas_tip_cap = caps.0;
        gas_fee_cap = caps.1;
        contract_data = input.contract_data;
        method_signature = input.method_signature;
        method_args = input.method_args;
        l1_data_fee = l1_fee;
      })

    -- The amount of the suggested fee, of metadata with a gas price
    abbrev pub fee_amount : TxMetadata → Option Amount
    fee_amount m = elim m.gas_price [
      | none ↦ none
      | some gas_price ↦
          amount (some (suggested_fee gas_price m.gas_fee_cap m.gas_limit))
            config.rosetta_cfg.currency
    ]

    -- `ConstructionMetadata`
    unfoldable pub construction_metadata : Dict Value → Result Error MetadataResponse
    construction_metadata options =
        if config.mode =ₛ online
        then (do
          input ← map_err (unmarshal_json_map json json.unmarshal_options options) invalid_input
          metadata ← metadata_of input
          m ← map_err (marshal_json_map json json.marshal_metadata metadata) internal_error
          ok (record { metadata = m; suggested_fee = fee_amount metadata }))
        else err err_unavailable_offline
