-- ===== src/Construction/CallData.antt =====
-- services/construction/contract_call_data.go: the data field of a contract call, from the signature of
-- a method and its arguments.
pub mod Args
pub mod Transfer
use mesh_geth_sdk.Base.{
  ℕ, ◌==◌, String, ◌=ₛ◌, Bool, true, false, ◌||◌, List, [], ◌∷◌, ◌++◌, take, Result, ok, err, crash,
  ◌>>=◌, map_err, if◌then◌else◌, length,
}
use mesh_geth_sdk.Base.Text.{is_empty, split, trim_prefix}
use mesh_geth_sdk.Rosetta.{Value, null, text, strings, list, Values, nil, cons}
use mesh_geth_sdk.Types.Errors.{GoError, message, wrapped}
use mesh_geth_sdk.Geth.{Geth}
use mesh_geth_sdk.Construction.CallData.Args.{Abi, encode_all}

abbrev pub no_method_sig : String
no_method_sig = "NO-METHOD-SIG"

-- A contract that is written with the fallback pattern has no signature.
unfoldable pub is_fallback : String → Bool
is_fallback method_sig = is_empty method_sig || method_sig =ₛ no_method_sig

-- The single argument of a list that holds one.
unfoldable pub single_arg : Value → Result GoError Value
single_arg (list (cons (text arg) nil)) = ok (text arg)
single_arg (list (cons other nil)) = err (message "failed to convert method arg \"%T\" to string")
single_arg (strings (arg ∷ [])) = ok (text arg)
single_arg args = ok args

-- `preprocessArgs`
unfoldable pub preprocess_args : String → Value → Result GoError Value
unfolding is_fallback single_arg
preprocess_args method_sig args = if is_fallback method_sig then single_arg args else ok args

-- The loop that turns a list of any values into one of texts.
unfoldable pub texts_of : Values → Result GoError (List String)
texts_of nil = ok []
texts_of (cons (text s) rest) = do others ← texts_of rest; ok (s ∷ others)
texts_of (cons other rest) =
    err (message "invalid method_args type at index %d: %T (must be a string)")

abbrev pub head_or_empty : List String → String
head_or_empty [] = ""
head_or_empty (s ∷ rest) = s

-- `contractCallMethodID`
unfoldable pub contract_call_method_id : (String → List ℕ) → String → List ℕ
unfolding is_fallback
contract_call_method_id keccak method_sig =
    if is_fallback method_sig then [] else take 4 (keccak method_sig)

module _ (g : Geth) (abi : Abi) where
  -- The arguments, packed after the selector, for the names of their types.
  unfoldable pub pack_args : List ℕ → List String → List String → Result GoError (List ℕ)
  pack_args method_id types args =
      if length types == length args
      then (do
        values ← encode_all g abi types args
        packed ← map_err (abi.pack_values types values) (wrapped "failed to encode arguments: ")
        ok (method_id ++ packed))
      else err (message "invalid method arguments")

  -- `encodeMethodArgsStrings`, with the signature split by its opening parentheses.
  unfoldable pub encode_split : List ℕ → List String → List String → Result GoError (List ℕ)
  unfolding pack_args
  encode_split method_id (name ∷ arguments ∷ rest) args =
      pack_args method_id (split b',' (head_or_empty (split b')' arguments))) args
  encode_split method_id other args = ok method_id

  unfoldable pub encode_method_args_strings :
      List ℕ → String → List String → Result GoError (List ℕ)
  unfolding encode_split
  encode_method_args_strings method_id method_sig args =
      encode_split method_id (split b'(' method_sig) args

  -- The switch on the arguments, after `preprocessArgs`.
  unfoldable pub append_args : List ℕ → String → Value → Result GoError (List ℕ)
  append_args method_id method_sig null = ok method_id
  append_args method_id method_sig (text args) = do
    bs ←
        map_err (abi.decode_string (trim_prefix "0x" args))
          (wrapped "error decoding method args hex data: ")
    ok (method_id ++ bs)
  append_args method_id method_sig (list values) = do
    args ← texts_of values
    encode_method_args_strings method_id method_sig args
  append_args method_id method_sig (strings args) =
      encode_method_args_strings method_id method_sig args
  append_args method_id method_sig other =
      err (message "invalid method_args type, accepted values are []string and hex-encoded string.")

  -- `ConstructContractCallDataGeneric`
  unfoldable pub construct_contract_call_data_generic :
      (String → List ℕ) → String → Value → Result GoError (List ℕ)
  construct_contract_call_data_generic keccak method_sig method_args = do
    args ← preprocess_args method_sig method_args
    append_args (contract_call_method_id keccak method_sig) method_sig args
