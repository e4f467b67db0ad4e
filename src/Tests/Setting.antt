-- ===== src/Tests/Setting.antt =====
-- The toy instances: addresses that are valid texts as they stand, a chain with few answers, and a
-- cache that keeps everything.
use mesh_geth_sdk.Base.{
  pos, String, ◌≡◌, refl, ◌=ₛ◌, eq_iff, Bool, true, false, ◌⊎◌, inl, inr, Option, none, some, [],
  ◌∷◌, Result, ok, err, if◌then◌else◌, ◌∙◌, sym,
}
use mesh_geth_sdk.Base.Dict.{Dict, lookup, insert, lookup-insert}
use mesh_geth_sdk.Rosetta.{Operation}
use mesh_geth_sdk.Geth.{Geth, Address, Hash, ReadsHex}
use mesh_geth_sdk.Types.{native_currency}
use mesh_geth_sdk.Types.Errors.{GoError, message, client_block_orphaned, wrapped}
use mesh_geth_sdk.Configuration.{Configuration, RosettaConfig}
use mesh_geth_sdk.Construction.Bytes.{set_bytes}
use mesh_geth_sdk.Client.Data.{
  FlatCall, Log, ContractCurrency, RosettaTxReceipt, EthTransaction, LoadedTransaction,
}
use mesh_geth_sdk.Ethereum.{parse_ops}
use mesh_geth_sdk.Services.Client.{Client, Header}
use mesh_geth_sdk.Services.Block.Cache.{Cache, CacheLaws}
use mesh_geth_sdk.Services.Block.Populate.{Codec}
use mesh_geth_sdk.Services.Block.Fetch.{Decoder}

abbrev pub toy_geth : Geth
toy_geth = record {
  mixedcase_address = λ s. some (record { hex = s });
  hex_to_address = λ s. record { hex = s };
  bytes_to_address = λ bs. record { hex = "0xb" };
  address_bytes = λ a. [];
  hash_bytes = λ h. [];
  bytes_to_big = λ bs. set_bytes bs;
}

pub toy_geth-ReadsHex : ReadsHex toy_geth
toy_geth-ReadsHex a = refl

abbrev pub alice : Address
alice = record { hex = "0xa" }

abbrev pub bob : Address
bob = record { hex = "0xb" }

abbrev pub plain_call : FlatCall
plain_call = record {
  before_evm_transfers = [];
  after_evm_transfers = [];
  type = "CALL";
  from = alice;
  to = bob;
  value = pos 7;
  gas_used = pos 21000;
  revert = false;
  error_message = "";
}

abbrev pub eth_transaction : EthTransaction
eth_transaction = record { type = 0; gas = 21000; gas_price = pos 3 }

abbrev pub transfer_log : Log
transfer_log = record {
  address = record { hex = "0xtoken" };
  topics =
      record { hex = "0xddf252ad1be2c89b69c2b068fc378daa952ba7f163c4a11628f55a4df523b3ef" }
      ∷ record { hex = "0x0a" }
      ∷ record { hex = "0x0b" }
      ∷ [];
  bytes = 1 ∷ 2 ∷ [];
}

abbrev pub receipt : RosettaTxReceipt
receipt = record {
  type = 0;
  gas_price = some (pos 3);
  gas_used = some (pos 10);
  transaction_fee = some (pos 30);
  logs = transfer_log ∷ [];
  raw_message = none;
  status = 1;
}

abbrev pub loaded : LoadedTransaction
loaded = record {
  transaction = eth_transaction;
  from = some alice;
  block_number = some "1";
  block_hash = some (record { hex = "0xblock" });
  tx_hash = some (record { hex = "0xtx" });
  fee_amount = some (pos 30);
  fee_burned = some (pos 10);
  miner = "0xm";
  author = "";
  status = true;
  trace = plain_call ∷ [];
  raw_trace = none;
  receipt = some receipt;
  base_fee = some (pos 1);
  is_bridged_txn = false;
  mint = "";
}

abbrev pub rosetta_config : RosettaConfig
rosetta_config = record {
  support_reward_tx = false;
  trace_type = 0;
  supports_syncing = false;
  supports_peering = false;
  supports_block_author = false;
  supports_eip1559 = true;
  supports_op_stack = false;
  currency = native_currency;
  trace_prefix = "";
  ingestion_mode = "standard";
  index_unknown_tokens = false;
  filter_tokens = false;
  token_white_list = [];
  use_token_white_list_metadata = false;
  default_block_number = "latest";
  base_fee_floor = none;
  base_fee_multiplier = none;
  priority_fee_divisor = none;
  support_customized_trace_config = false;
  support_customized_block_body = false;
  support_header_forwarding = false;
  forward_headers = [];
}

abbrev pub configuration : Configuration
configuration = record {
  mode = "ONLINE";
  network = record { blockchain = "Ethereum"; network = "Mainnet" };
  genesis_block_identifier = record { index = 0; hash = "0x0" };
  geth_url = "http://localhost:8545";
  remote_geth = false;
  port = 8080;
  skip_geth_admin = true;
  geth_arguments = "";
  rosetta_cfg = rosetta_config;
}

abbrev pub unanswered : {A : Type 0} → Result GoError A
unanswered = err (message "no answer")

-- A chain that knows the currency of every contract, and no block.
abbrev pub toy_chain : Client
toy_chain = record {
  status = unanswered;
  balance = λ a b c. unanswered;
  rosetta_config = rosetta_config;
  get_block_hash = λ b. ok b.hash;
  skip_tx_receipt_parsing = λ a. false;
  get_customized_block_body = λ r. unanswered;
  trace_block_by_hash = λ h ts. unanswered;
  trace_transaction = λ h. unanswered;
  block_reward_transaction =
      λ b m us. ok (record { hash = b.hash; operations = []; metadata = [] });
  get_loaded_transaction = λ b t. ok none;
  block_author = λ n. unanswered;
  get_uncles = λ h b. unanswered;
  trace_replay_block_transactions = λ h. unanswered;
  trace_replay_transaction = λ h. unanswered;
  populate_cross_chain_transactions = λ b txs. ok ([], txs);
  get_contract_currency = λ a erc20. ok (record { symbol = a.hex; decimals = 6 });
  call_context = λ method arg. err (wrapped "call: " client_block_orphaned);
  get_block_receipts = λ h ts f. unanswered;
  get_transaction_receipt = λ tx. unanswered;
  get_nonce = λ o. ok 7;
  get_gas_price = λ o. ok (pos 3);
  get_gas_tip_cap = λ o. ok (pos 1);
  get_gas_fee_cap = λ o tip. ok (some (pos 100));
  get_l1_data_fee = λ bs. ok none;
  get_native_transfer_gas_limit = λ to from v. ok 21000;
  get_erc20_transfer_gas_limit = λ to from v currency. ok 60000;
  get_contract_call_gas_limit = λ to from v bs. ok 90000;
  parse_ops = λ tx. parse_ops toy_geth (λ m. m) tx;
}

abbrev pub toy_codec : Codec
toy_codec = record {
  receipt_map = λ r. ok mesh_geth_sdk.Rosetta.null;
  trace_map = λ t. ok mesh_geth_sdk.Rosetta.null;
  trace_list = λ vs. mesh_geth_sdk.Rosetta.null;
  encode_uint64 = λ n. "0x1";
  encode_big = λ n. "0x1";
}

abbrev pub toy_header : Header
toy_header = record {
  number = 5;
  base_fee = some (pos 1);
  coinbase = bob;
  parent_hash = record { hex = "0xparent" };
  uncle_hash = record { hex = "0xuncles" };
  tx_hash = record { hex = "0xroot" };
  time = 1;
}

abbrev pub toy_decoder : Decoder
toy_decoder = record {
  header = λ s. ok toy_header;
  body =
      λ s. ok (record { hash = record { hex = "0xblock" }; transactions = []; uncle_hashes = [] });
  encode_big = λ n. "0x5";
}

abbrev pub toy_hash : Header → Hash
toy_hash h = record { hex = "0xhash" }

-- A chain that answers every request for a block with an empty one.
abbrev pub answering_chain : Client
answering_chain = record toy_chain {
  call_context = λ method arg. ok "{}";
  trace_block_by_hash = λ h ts. ok [];
  get_block_receipts = λ h ts f. ok none;
}

abbrev pub toy_cache : Cache (Dict ContractCurrency)
toy_cache = record { get = λ k s. (lookup k s, s); add = λ k d s. insert k d s }

some-if-cases :
    (b : Bool) (j k : String) (d c : ContractCurrency) (o : Option ContractCurrency)
    → (b ≡ true → j ≡ k)
    → (if b then some d else o) ≡ some c
    → ((j ≡ k) × (d ≡ c)) ⊎ (o ≡ some c)
some-if-cases true j k d c o same h = inl (same refl, cc)
some-if-cases false j k d c o same h = inr h

pub toy_cache-CacheLaws : CacheLaws toy_cache
toy_cache-CacheLaws = record {
  get_keeps = λ j k s c h. h;
  add_keeps = λ j k d s c h.
      some-if-cases (j =ₛ k) j k d c (lookup k s) ((eq_iff j k).0)
        (sym (lookup-insert j k d s) ∙ h);
}
