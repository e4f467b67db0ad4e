-- ===== src/Construction/Describe.antt =====
-- `CreateOperationDescription` and its three helpers of services/construction/construction_service.go.
pub mod Pairs
use mesh_geth_sdk.Base.{
  ℤ, is_zero_ℤ, String, ◌=ₛ◌, Bool, true, false, not, Option, none, some, List, [], ◌∷◌, Result, ok,
  err, crash, ◌>>=◌, or_crash, or_err, if◌then◌else◌,
}
use mesh_geth_sdk.Base.Dict.{lookup}
use mesh_geth_sdk.Rosetta.{Currency, Value, text}
use mesh_geth_sdk.Types.{call_op_type, op_erc20_transfer}
use mesh_geth_sdk.Types.Errors.{GoError, message}
use mesh_geth_sdk.Client.Utils.{erc20_currency}

abbrev pub contract_address_metadata : String
contract_address_metadata = "contractAddress"

-- The amount of an operation of a request; its currency may be nil.
pub record RequestedAmount : Type 0 where
  pub value : String
  pub currency : Option Currency

-- `AmountSign` of rosetta-sdk-go
pub data AmountSign : Type 0 where
  any_amount : AmountSign
  negative_amount : AmountSign
  positive_amount : AmountSign

-- A description whose account and amount exist.
pub record OperationDescription : Type 0 where
  pub type : String
  pub sign : AmountSign
  pub currency : Option Currency

unfoldable pub description_pair :
    String → AmountSign → AmountSign → Option Currency → List OperationDescription
description_pair type send receive currency =
    record { type = type; sign = send; currency = currency }
    ∷ record { type = type; sign = receive; currency = currency }
    ∷ []

-- `CreateOperationDescriptionContractCall`
unfoldable pub describe_contract_call : List OperationDescription
describe_contract_call = description_pair call_op_type any_amount any_amount none

-- `CreateOperationDescriptionNative`
unfoldable pub describe_native : Currency → List OperationDescription
describe_native native = description_pair call_op_type negative_amount positive_amount (some native)

-- `CreateOperationDescriptionERC20`
unfoldable pub describe_erc20 : String → Currency → List OperationDescription
describe_erc20 contract_address info =
    description_pair op_erc20_transfer negative_amount positive_amount
      (some (erc20_currency info.symbol info.decimals contract_address))

-- `currency.Metadata[client.ContractAddressMetadata].(string)`
unfoldable pub text_of : Option Value → Option String
text_of (some (text s)) = some s
text_of _ = none

unfoldable pub contract_address_of : Currency → Option String
contract_address_of currency = text_of (lookup contract_address_metadata currency.metadata)

-- `hash` is `types.Hash` of rosetta-sdk-go; `set_string` what a fresh `big.Int` holds after `SetString`
-- in base 10, which math/big leaves open for a text that is no number.
module _ (hash : Currency → String) (set_string : String → ℤ) (native : Currency) where
  unfoldable pub describe_call : String → String → Result GoError (List OperationDescription)
  describe_call first second =
      if is_zero_ℤ (set_string first)
      then (if is_zero_ℤ (set_string second)
          then ok describe_contract_call
          else err (message "for generic call both values should be zero"))
      else ok describe_contract_call

  unfoldable pub describe_token :
      Currency → Option String → Option String → Result GoError (List OperationDescription)
  describe_token info (some first) (some second) = ok (describe_erc20 first info)
  describe_token info _ _ =
      err (message "non-native currency must have contractAddress in Metadata")

  unfoldable pub describe_transfer :
      Currency → Currency → Result GoError (List OperationDescription)
  describe_transfer first second =
      if hash first =ₛ hash native
      then ok (describe_native native)
      else describe_token first (contract_address_of first) (contract_address_of second)

  unfoldable pub describe_amounts :
      Bool → RequestedAmount → RequestedAmount → Result GoError (List OperationDescription)
  describe_amounts is_contract_call a b = do
    first ← or_err a.currency (message "invalid currency on operation")
    second ← or_err b.currency (message "invalid currency on operation")
    if hash first =ₛ hash second
        then (if is_contract_call
            then describe_call a.value b.value
            else describe_transfer first second)
        else err (message "currency info doesn't match between the operations")

  -- `CreateOperationDescription`, of the amounts of the operations; a nil amount is dereferenced.
  unfoldable pub create_operation_description :
      List (Option RequestedAmount) → Bool → Result GoError (List OperationDescription)
  create_operation_description (first ∷ second ∷ []) is_contract_call = do
    a ← or_crash first
    b ← or_crash second
    describe_amounts is_contract_call a b
  create_operation_description _ is_contract_call = err (message "invalid number of operations")
