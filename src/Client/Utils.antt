-- ===== src/Client/Utils.antt =====
-- client/utils.go and client/address.go.
use Prim.Native.Char.{code}
use mesh_geth_sdk.Base.{
  ℕ, ◌*◌, ◌==◌, ℤ, pos, negsuc, neg, String, Bool, true, false, ◌&&◌, ◌||◌, Option, none, some,
  List, [], ◌∷◌, if◌then◌else◌, ◌≡◌, take, drop, Result, ok, err, crash, signed64,
}
use mesh_geth_sdk.Base.Decimal.{show_ℤ}
use mesh_geth_sdk.Base.Text.{equal_fold}
use mesh_geth_sdk.Rosetta.{Currency, Amount, text}
use mesh_geth_sdk.Geth.{Address, Hash, Geth, ReadsHex}
use mesh_geth_sdk.Types.Errors.{GoError, message}
use mesh_geth_sdk.Client.Data.{Token, RpcTransaction, LoadedTransaction}

abbrev pub balance_of_method_prefix : String
balance_of_method_prefix = "0x70a08231000000000000000000000000"

abbrev pub generic_transfer_bytes_length : ℕ
generic_transfer_bytes_length = 68

abbrev pub required_padding_bytes : ℕ
required_padding_bytes = 32

abbrev pub transfer_fn_signature : String
transfer_fn_signature = "transfer(address,uint256)"

unfoldable pub has_0x_prefix : String → Bool
has_0x_prefix String.[] = false
has_0x_prefix (String.◌∷◌ c String.[]) = false
has_0x_prefix (String.◌∷◌ c (String.◌∷◌ d s)) = code c == b'0' && (code d == b'x' || code d == b'X')

-- `Amount`
unfoldable pub amount : Option ℤ → Currency → Option Amount
amount none currency = none
amount (some value) currency = some (record { value = show_ℤ value; currency = currency })

-- `ToBlockNumArg`; `encode_big` is `hexutil.EncodeBig`.
unfoldable pub to_block_num_arg : (ℤ → String) → Option ℤ → String
to_block_num_arg encode_big none = "latest"
to_block_num_arg encode_big (some (negsuc n)) = if n == 0 then "pending" else encode_big (negsuc n)
to_block_num_arg encode_big (some (pos n)) = encode_big (pos n)

-- `Erc20Currency`
unfoldable pub erc20_currency : String → ℕ → String → Currency
erc20_currency symbol decimals contract_address = record {
  symbol = symbol;
  decimals = decimals;
  metadata = ("contractAddress", text contract_address) ∷ [];
}

-- `Erc20Amount`
unfoldable pub erc20_amount : Geth → List ℕ → Address → String → ℕ → Bool → Amount
unfolding erc20_currency
erc20_amount g bytes addr symbol decimals sender =
    let value = pos (g.bytes_to_big bytes) in
    record {
      value = show_ℤ (if sender then neg value else value);
      currency = erc20_currency symbol decimals addr.hex;
    }

-- `convertTime`, with the wrap-around of int64
unfoldable pub convert_time : ℕ → ℤ
convert_time time = signed64 (time * 1000)

-- `Account`: the address of the identifier
unfoldable pub account : Option Address → Option String
account none = none
account (some address) = some address.hex

-- `ConvertEVMTopicHashToAddress`
unfoldable pub convert_evm_topic_hash_to_address : Geth → Option Hash → Option Address
convert_evm_topic_hash_to_address g none = none
convert_evm_topic_hash_to_address g (some hash) =
    some (g.bytes_to_address (drop 12 (take 32 (g.hash_bytes hash))))

-- `IsValidERC20Token`
unfoldable pub is_valid_erc20_token : List Token → String → Bool
is_valid_erc20_token [] address = false
is_valid_erc20_token (token ∷ rest) address =
    let later = is_valid_erc20_token rest address in
    if equal_fold token.address address then true else later

-- `GetValidERC20Token`
unfoldable pub get_valid_erc20_token : List Token → String → Option Token
get_valid_erc20_token [] address = none
get_valid_erc20_token (token ∷ rest) address =
    let later = get_valid_erc20_token rest address in
    if equal_fold token.address address then some token else later

-- `ChecksumAddress`
unfoldable pub checksum_address : Geth → String → Result GoError String
checksum_address g address = elim (g.mixedcase_address address) [
  | none ↦ err (message "invalid address")
  | some addr ↦ ok addr.hex
]

pub checksum_address-valid :
    (g : Geth) (s : String) {a : Address}
    → g.mixedcase_address s ≡ some a
    → checksum_address g s ≡ ok a.hex
unfolding checksum_address
checksum_address-valid g s h = rw (h, checksum_address)

-- `MustChecksum`: an invalid address ends the process (`log.Fatalf`).
unfoldable pub must_checksum : Geth → String → Result GoError String
unfolding checksum_address
must_checksum g address = elim (checksum_address g address) [
  | ok addr ↦ ok addr
  | err e ↦ crash
  | crash ↦ crash
]

-- The text of an address is its own checksummed form.
pub must_checksum-hex : (g : Geth) → ReadsHex g → (a : Address) → must_checksum g a.hex ≡ ok a.hex
unfolding must_checksum
must_checksum-hex g reads a = rw (reads a, must_checksum)

pub checksum_address-hex :
    (g : Geth) → ReadsHex g → (a : Address) → checksum_address g a.hex ≡ ok a.hex
unfolding checksum_address
checksum_address-hex g reads a = rw (reads a, checksum_address)

-- `LoadedTransaction` of client/client.go
unfoldable pub loaded_transaction : RpcTransaction → LoadedTransaction
loaded_transaction t = record {
  transaction = t.tx;
  from = t.info.from;
  block_number = t.info.block_number;
  block_hash = t.info.block_hash;
  tx_hash = t.info.tx_hash;
  fee_amount = none;
  fee_burned = none;
  miner = "";
  author = "";
  status = false;
  trace = [];
  raw_trace = none;
  receipt = none;
  base_fee = none;
  is_bridged_txn = false;
  mint = t.info.mint;
}
