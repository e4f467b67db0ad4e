-- ===== src/Mapper/Erc20.antt =====
-- `Erc20Ops` of services/mapper.go.
pub mod Supply
use mesh_geth_sdk.Base.{
  ℕ, ◌+◌, ◌==◌, String, Bool, true, false, ◌=ₛ◌, Option, none, some, List, [], ◌∷◌, if◌then◌else◌,
  Result, ok, crash,
}
use mesh_geth_sdk.Rosetta.{Operation}
use mesh_geth_sdk.Geth.{Geth, Address, Hash}
use mesh_geth_sdk.Types.{op_erc20_transfer, op_erc20_mint, op_erc20_burn, success_status}
use mesh_geth_sdk.Types.Errors.{GoError}
use mesh_geth_sdk.Client.Data.{Log, ContractCurrency}
use mesh_geth_sdk.Client.Utils.{erc20_amount, account, convert_evm_topic_hash_to_address}

abbrev pub topics_in_erc20_deposit_or_withdrawal : ℕ
topics_in_erc20_deposit_or_withdrawal = 2

abbrev pub topics_in_erc20_transfer : ℕ
topics_in_erc20_transfer = 3

abbrev pub zero_address : String
zero_address = "0x0000000000000000000000000000000000000000000000000000000000000000"

-- `Erc20LogTopicMap` of client/types.go
abbrev pub transfer_topic : String
transfer_topic = "0xddf252ad1be2c89b69c2b068fc378daa952ba7f163c4a11628f55a4df523b3ef"

abbrev pub deposit_topic : String
deposit_topic = "0xe1fffcc4923d04b559f4d29a8bfc6cda04eb5b0d3c460751c2402c5c5cc9109c"

abbrev pub withdrawal_topic : String
withdrawal_topic = "0x7fcf532c15f0a6db0bd6d0e038bea71d30d808c7d98cb3bf7268a95bf5081b65"

-- One operation of the log: `sender` negates the amount.
unfoldable pub erc20_op :
    Geth → Log → ContractCurrency → ℕ → List ℕ → String → Bool → Hash → Operation
unfolding erc20_amount account convert_evm_topic_hash_to_address
erc20_op g log currency index related type sender address = record {
  index = index;
  related = related;
  type = type;
  status = some success_status;
  account = account (convert_evm_topic_hash_to_address g (some address));
  amount = some (erc20_amount g log.bytes log.address currency.symbol currency.decimals sender);
  metadata = [];
}

-- The operations of a log with two topics.
unfoldable pub deposit_or_withdrawal_ops :
    Geth → Log → ContractCurrency → ℕ → Hash → Hash → List Operation
unfolding erc20_op
deposit_or_withdrawal_ops g log currency n event address =
    if event.hex =ₛ deposit_topic
    then erc20_op g log currency n [] op_erc20_mint false address ∷ []
    else if event.hex =ₛ withdrawal_topic
    then erc20_op g log currency n [] op_erc20_burn true address ∷ []
    else []

-- The operations of a log with three topics.
unfoldable pub transfer_log_ops :
    Geth → Log → ContractCurrency → ℕ → Hash → Hash → Hash → List Operation
unfolding erc20_op
transfer_log_ops g log currency n event from to =
    if from.hex =ₛ zero_address
    then erc20_op g log currency n [] op_erc20_mint false to ∷ []
    else if to.hex =ₛ zero_address
    then erc20_op g log currency n [] op_erc20_burn true from ∷ []
    else if event.hex =ₛ transfer_topic
    then erc20_op g log currency n [] op_erc20_transfer true from
      ∷ erc20_op g log currency (n + 1) (n ∷ []) op_erc20_transfer false to
      ∷ []
    else []

-- `Topics[0]` of a log with no topics is out of range. The tests on the number of topics are the
-- patterns.
unfoldable pub erc20_ops_of :
    Geth → Log → ContractCurrency → ℕ → List Hash → Result GoError (List Operation)
unfolding deposit_or_withdrawal_ops transfer_log_ops
erc20_ops_of g log currency n [] = crash
erc20_ops_of g log currency n (event ∷ address ∷ []) =
    ok (deposit_or_withdrawal_ops g log currency n event address)
erc20_ops_of g log currency n (event ∷ from ∷ to ∷ []) =
    ok (transfer_log_ops g log currency n event from to)
erc20_ops_of g log currency n (event ∷ rest) = ok []

unfoldable pub erc20_ops : Geth → Log → ContractCurrency → ℕ → Result GoError (List Operation)
unfolding erc20_ops_of
erc20_ops g log currency n = erc20_ops_of g log currency n log.topics
