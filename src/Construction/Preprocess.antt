-- ===== src/Construction/Preprocess.antt =====
-- services/construction/preprocess.go: `ConstructionPreprocess` makes the options that
-- `ConstructionMetadata` is asked with.
pub mod Calls
use mesh_geth_sdk.Base.{
  ℕ, ℤ, String, ◌=ₛ◌, Bool, Option, none, some, List, Result, ok, err, crash, ◌>>=◌, map_err,
  or_crash, or_err, if◌then◌else◌, get_elem?,
}
use mesh_geth_sdk.Base.Decimal.{show_ℤ, parse_ℤ}
use mesh_geth_sdk.Base.Dict.{Dict, lookup}
use mesh_geth_sdk.Rosetta.{Currency, Value, null, text, Error}
use mesh_geth_sdk.Geth.{Geth}
use mesh_geth_sdk.Types.Errors.{GoError, message, wrap_err, err_invalid_input, err_invalid_address}
use mesh_geth_sdk.Client.Utils.{checksum_address}
use mesh_geth_sdk.Construction.Data.{Options}
use mesh_geth_sdk.Construction.Describe.{text_of}
use mesh_geth_sdk.Construction.CallData.{construct_contract_call_data_generic}
use mesh_geth_sdk.Construction.CallData.Args.{Abi}
use mesh_geth_sdk.Construction.Library.{RequestedOperation, Match, Json, Parser, marshal_json_map}
use mesh_geth_sdk.Construction.Payloads.{
  invalid_input, not_an_address, is_contract_call, descriptions_of,
}

-- The multiplier of the fee is known by its text.
pub record PreprocessRequest : Type 0 where
  pub operations : List RequestedOperation
  pub metadata : Dict Value
  pub suggested_fee_multiplier : Option String

-- The switch on the key
unfoldable pub store : String → ℤ → Options → Options
store key n options =
    if key =ₛ "gas_price"
    then record options { gas_price = some n }
    else if key =ₛ "gas_limit"
    then record options { gas_limit = some n }
    else if key =ₛ "nonce"
    then record options { nonce = some n }
    else if key =ₛ "gas_tip_cap"
    then record options { gas_tip_cap = some n }
    else if key =ₛ "gas_fee_cap"
    then record options { gas_fee_cap = some n }
    else options

-- The value of a key, read as a number
unfoldable pub numeric : Value → Result GoError ℤ
numeric v = do
  s ← or_err (text_of (some v)) (message "%s is not a valid %s string")
  or_err (parse_ℤ s) (message "%s is not a valid %s")

-- `loadNumericMetadata`
unfoldable pub load_numeric_metadata : Dict Value → String → Options → Result GoError Options
unfolding store numeric
load_numeric_metadata metadata key options = elim (lookup key metadata) [
  | none ↦ ok options
  | some v ↦ (do n ← numeric v; ok (store key n options))
]

-- `req.Metadata[key]`, nil where there is none
abbrev pub value_of : Option Value → Value
value_of none = null
value_of (some v) = v

module _ (g : Geth) (keccak : String → List ℕ) (abi : Abi) where
  -- What `loadMetadata` does where the request has a signature of a method
  unfoldable pub load_method : Dict Value → Value → Options → Result GoError Options
  load_method metadata v options = do
    method_signature ←
        or_err (text_of (some v)) (message "%s is not a valid method signature string")
    call_data ←
        construct_contract_call_data_generic g abi keccak method_signature
          (value_of (lookup "method_args" metadata))
    ok (record options {
      contract_address = options.to;
      contract_data = abi.encode call_data;
      method_signature = method_signature;
      method_args = value_of (lookup "method_args" metadata);
    })

  unfoldable pub load_call : Dict Value → Options → Result GoError Options
  load_call metadata options = elim (lookup "method_signature" metadata) [
    | none ↦ ok options
    | some v ↦ load_method metadata v options
  ]

  -- `loadMetadata`
  unfoldable pub load_metadata : Dict Value → Options → Result GoError Options
  load_metadata metadata options = do
    o1 ← load_numeric_metadata metadata "gas_price" options
    o2 ← load_numeric_metadata metadata "gas_limit" o1
    o3 ← load_numeric_metadata metadata "nonce" o2
    o4 ← load_numeric_metadata metadata "gas_tip_cap" o3
    o5 ← load_numeric_metadata metadata "gas_fee_cap" o4
    load_call metadata o5

  abbrev pub first_options : String → String → Match → Match → Option String → Options
  first_options from to from_op to_op multiplier = record {
    from = from;
    to = to;
    token_address = "";
    contract_address = "";
    value = show_ℤ to_op.amount;
    suggested_fee_multiplier = multiplier;
    gas_price = none;
    gas_limit = none;
    gas_tip_cap = none;
    gas_fee_cap = none;
    nonce = none;
    currency = some from_op.currency;
    method_signature = "";
    method_args = null;
    contract_data = "";
  }

  abbrev pub invalid_address : GoError → Error
  invalid_address e = wrap_err err_invalid_address (some (not_an_address e))

  -- From the matches on
  unfoldable pub options_of : Dict Value → Option String → Match → Match → Result Error Options
  options_of metadata multiplier from_op to_op = do
    from ← map_err (checksum_address g from_op.address) invalid_address
    to ← map_err (checksum_address g to_op.address) invalid_address
    map_err (load_metadata metadata (first_options from to from_op to_op multiplier)) invalid_input

  -- `ConstructionPreprocess`
  unfoldable pub construction_preprocess :
      {Blob : Type 0}
      → Json Blob
      → Parser
      → Currency
      → PreprocessRequest
      → Result Error (Dict Value)
  construction_preprocess json parser native request = do
    let is_call = is_contract_call request.metadata
    descriptions ←
        map_err (descriptions_of g keccak abi parser native request.operations is_call)
          invalid_input
    matches ← map_err (parser.match_operations descriptions request.operations) invalid_input
    from_op ← or_crash (get_elem? matches 0)
    to_op ← or_crash (get_elem? matches 1)
    options ← options_of request.metadata request.suggested_fee_multiplier from_op to_op
    map_err (marshal_json_map json json.marshal_options options) (λ e. err_invalid_input)
