-- ===== src/Client/Node.antt =====
-- client/client.go: what the SDK client asks of the node, and the helpers that its methods share:
-- `blockHeader` and `decodeHexData`.
use Prim.Native.Char.{code}
use mesh_geth_sdk.Base.{
  ℕ, ◌+◌, ◌-◌, ◌*◌, ◌==◌, leb, ℤ, pos, neg, String, Bool, false, ◌&&◌, Option, none, some, List, [],
  ◌∷◌, Result, ok, crash, ◌>>=◌, or_err, if◌then◌else◌,
}
use mesh_geth_sdk.Base.Text.{is_empty}
use mesh_geth_sdk.Rosetta.{PartialBlockIdentifier}
use mesh_geth_sdk.Geth.{Hash}
use mesh_geth_sdk.Types.Errors.{GoError, message, not_found}
use mesh_geth_sdk.Configuration.{RosettaConfig}
use mesh_geth_sdk.Client.Utils.{to_block_num_arg}
use mesh_geth_sdk.Services.Client.{Header}

-- The arguments of a request; `params` is the map of `eth_call`.
pub data Arg : Type 0 where
  text : String → Arg
  flag : Bool → Arg
  hash : Hash → Arg
  call_params : String → String → Arg

-- A request: its method and its arguments.
abbrev pub Request : Type 0
Request = String × List Arg

-- `CallContext` for the type of each result, and `BatchCallContext`, which fails as a whole or answers
-- each request with a result or an error; the encoders of hexutil; `HexToHash`, and the hash of a header.
pub record Rpc : Type 0 where
  pub call_header : Request → Result GoError (Option Header)
  pub call_text : Request → Result GoError String
  pub batch_numbers : List Request → Result GoError (List (Result GoError ℕ))
  pub batch_headers : List Request → Result GoError (List (Result GoError (Option Header)))
  pub encode_big : ℤ → String
  pub encode_uint64 : ℕ → String
  pub hex_to_hash : String → Hash
  pub header_hash : Header → Hash

-- The value of a hexadecimal digit.
unfoldable pub hex_digit : ℕ → Option ℕ
hex_digit c =
    if leb b'0' c && leb c b'9'
    then some (c - b'0')
    else if leb b'a' c && leb c b'f'
    then some (c - b'a' + 10)
    else if leb b'A' c && leb c b'F'
    then some (c - b'A' + 10)
    else none

unfoldable pub hex_value : ℕ → String → Option ℕ
hex_value n String.[] = some n
hex_value n (String.◌∷◌ c s) = elim (hex_digit (code c)) [
  | none ↦ none
  | some d ↦ hex_value (n * 16 + d) s
]

-- Digits, of which there is at least one
unfoldable pub hex_natural : String → Option ℕ
hex_natural String.[] = none
hex_natural (String.◌∷◌ c s) = hex_value 0 (String.◌∷◌ c s)

abbrev pub signed_by : (ℕ → ℤ) → Option ℕ → Option ℤ
signed_by sign none = none
signed_by sign (some n) = some (sign n)

-- `SetString(s, 16)`: an optional sign and digits
unfoldable pub parse_hex : String → Option ℤ
unfolding neg
parse_hex String.[] = none
parse_hex (String.◌∷◌ c s) =
    if code c == b'-'
    then signed_by (λ n. neg (pos n)) (hex_natural s)
    else if code c == b'+'
    then signed_by pos (hex_natural s)
    else signed_by pos (hex_natural (String.◌∷◌ c s))

-- `decodeHexData`: the first two characters are skipped, whatever they are; a shorter text panics.
unfoldable pub decode_hex_data : String → Result GoError ℤ
decode_hex_data String.[] = crash
decode_hex_data (String.◌∷◌ c String.[]) = crash
decode_hex_data (String.◌∷◌ c (String.◌∷◌ d raw)) =
    if is_empty raw
    then ok (pos 0)
    else or_err (parse_hex raw) (message "could not extract data from %s")

module _ (rpc : Rpc) (config : RosettaConfig) where
  -- The latest header, or the one of the default block of the chain
  unfoldable pub default_header_request : Request
  default_header_request =
      if is_empty config.default_block_number
      then ("eth_getBlockByNumber", text (to_block_num_arg rpc.encode_big none) ∷ flag false ∷ [])
      else ("eth_getBlockByNumber", text config.default_block_number ∷ flag false ∷ [])

  -- The index goes before the hash.
  unfoldable pub header_request : Option PartialBlockIdentifier → Request
  unfolding default_header_request
  header_request none = default_header_request
  header_request (some b) = elim b.index [
    | some index ↦ (
      "eth_getBlockByNumber",
      text (to_block_num_arg rpc.encode_big (some (pos index))) ∷ flag false ∷ [],
    )
    | none ↦ elim b.hash [
      | some h ↦ ("eth_getBlockByHash", hash (rpc.hex_to_hash h) ∷ flag false ∷ [])
      | none ↦ default_header_request
    ]
  ]

  -- `blockHeader`
  unfoldable pub block_header : Option PartialBlockIdentifier → Result GoError Header
  block_header b = do header ← rpc.call_header (header_request b); or_err header not_found
