-- ===== src/Construction/CallData/Args.antt =====
-- services/construction/contract_call_data.go: how `encodeMethodArgsStrings` reads each argument as a
-- value of the type that the signature names.
use mesh_geth_sdk.Base.{
  ℕ, ℤ, String, ◌=ₛ◌, Bool, ◌||◌, Option, none, some, List, [], ◌∷◌, ◌++◌, take, replicate, Result,
  ok, err, crash, ◌>>=◌, if◌then◌else◌,
}
use mesh_geth_sdk.Base.Text.{has_prefix, parse_bool}
use mesh_geth_sdk.Base.Decimal.{parse_uint}
use mesh_geth_sdk.Geth.{Geth, Address}
use mesh_geth_sdk.Types.Errors.{GoError}

-- The dynamic types of the values that are packed; a type that no case reads gives nil.
pub data AbiValue : Type 0 where
  address : Address → AbiValue
  uint32 : ℕ → AbiValue
  big_int : ℤ → AbiValue
  bytes32 : List ℕ → AbiValue
  byte_slices : List (List ℕ) → AbiValue
  byte_slice : List ℕ → AbiValue
  text : String → AbiValue
  bool : Bool → AbiValue
  no_value : AbiValue

-- What is taken from other packages: what a fresh `big.Int` holds after `SetString` in base 10, which is
-- left open for a text that is no number; `DecodeString` of encoding/hex; `Decode` and `Encode` of
-- hexutil; the decoding of a JSON list of texts; `PackValues` of the types that `abi.NewType` makes of
-- the names (an error of `NewType` is ignored, so that the packing has to refuse the type).
pub record Abi : Type 0 where
  pub set_string : String → ℤ
  pub decode_string : String → Result GoError (List ℕ)
  pub decode : String → Result GoError (List ℕ)
  pub encode : List ℕ → String
  pub unmarshal_strings : String → Result GoError (List String)
  pub pack_values : List String → List AbiValue → Result GoError (List ℕ)

-- `log.Fatal(err)`
abbrev pub or_fatal : {A : Type 0} → Result GoError A → Result GoError A
or_fatal (ok a) = ok a
or_fatal (err e) = crash
or_fatal crash = crash

abbrev pub or_exit : {A : Type 0} → Option A → Result GoError A
or_exit (some a) = ok a
or_exit none = crash

module _ (g : Geth) (abi : Abi) where
  unfoldable pub decode_all : List String → Result GoError (List (List ℕ))
  decode_all [] = ok []
  decode_all (arg ∷ rest) = do
    first ← or_fatal (abi.decode arg)
    others ← decode_all rest
    ok (first ∷ others)

  -- The switch on the name of the type, in the order of its cases.
  unfoldable pub encode_arg : String → String → Result GoError AbiValue
  unfolding decode_all
  encode_arg v arg =
      if v =ₛ "address"
      then ok (address (g.hex_to_address arg))
      else if v =ₛ "uint32"
      then (do n ← or_exit (parse_uint 32 arg); ok (uint32 n))
      else if has_prefix "uint" v || has_prefix "int" v
      then ok (big_int (abi.set_string arg))
      else if v =ₛ "bytes32"
      then (do bs ← or_fatal (abi.decode arg); ok (bytes32 (take 32 (bs ++ replicate 32 0))))
      else if v =ₛ "bytes[]"
      then (do
        args ← or_fatal (abi.unmarshal_strings arg)
        slices ← decode_all args
        ok (byte_slices slices))
      else if has_prefix "bytes" v
      then (do bs ← or_fatal (abi.decode arg); ok (byte_slice bs))
      else if has_prefix "string" v
      then ok (text arg)
      else if has_prefix "bool" v
      then (do b ← or_exit (parse_bool arg); ok (bool b))
      else ok no_value

  -- The loop over the names of the types, which are as many as the arguments.
  unfoldable pub encode_all : List String → List String → Result GoError (List AbiValue)
  encode_all [] args = ok []
  encode_all (v ∷ vs) [] = crash
  encode_all (v ∷ vs) (arg ∷ args) = do
    value ← encode_arg v arg
    rest ← encode_all vs args
    ok (value ∷ rest)
