-- ===== src/Tests/Json.antt =====
-- Toy JSON, whose texts are the values that were written, and a toy signer, whose signed transactions
-- are their contents.
use mesh_geth_sdk.Base.{
  ℕ, zero, suc, ◌+◌, ◌≡◌, refl, ap, ◌∙◌, ℤ, pos, String, false, none, some, List, [], ◌∷◌, ◌++◌,
  abs, Result, ok, err, replicate, arith, ◌==◌, if◌then◌else◌, ok-injective,
}
use Prim.Native.Char.{code}
use mesh_geth_sdk.Base.Text.{ascii}
use mesh_geth_sdk.Base.Decimal.{parse_ℤ, parse-show_ℤ}
use mesh_geth_sdk.Base.Dict.{Dict}
use mesh_geth_sdk.Rosetta.{Value, Currency}
use mesh_geth_sdk.Geth.{Geth, ReadsHex}
use mesh_geth_sdk.Types.Errors.{GoError, message}
use mesh_geth_sdk.Construction.Bytes.{bytes, left_pad_bytes}
use mesh_geth_sdk.Construction.Data.{
  Options, TxMetadata, Transaction, TxData, legacy_tx, dynamic_fee_tx, TxFields, fields_of,
  SignedTransactionWrapper,
}
use mesh_geth_sdk.Construction.TransferData.RoundTrip.{KeepsAddress}
use mesh_geth_sdk.Construction.CallData.Args.{Abi, AbiValue, address, big_int}
use mesh_geth_sdk.Construction.CallData.Transfer.{ReadsNumbers, PacksTransfers}
use mesh_geth_sdk.Construction.Library.{Json, Signing, Match}
use mesh_geth_sdk.Construction.Preprocess.Calls.{Decodes}
use mesh_geth_sdk.Construction.Flow.{KeepsTransactions}
use mesh_geth_sdk.Construction.Flow.Signed.{KeepsSigned, or_zero}
use mesh_geth_sdk.Tests.Setting.{toy_geth, alice, bob}

-- Addresses of 20 bytes, and a hash of 32.
abbrev pub long_geth : Geth
long_geth = record toy_geth {
  hex_to_address = λ s. bob;
  bytes_to_address = λ bs. bob;
  address_bytes = λ a. replicate 20 11;
}

pub long_geth-KeepsAddress : KeepsAddress long_geth
long_geth-KeepsAddress to = (refl, λ before. refl)

pub long_geth-ReadsHex : ReadsHex long_geth
long_geth-ReadsHex a = refl

abbrev pub keccak : String → List ℕ
keccak s = replicate 32 7

pub data Blob : Type 0 where
  map_blob : Dict Value → Blob
  options_blob : Options → Blob
  metadata_blob : TxMetadata → Blob
  transaction_blob : Transaction → Blob
  signed_blob : TxData → Blob
  wrapper_blob : Blob → Currency → Blob

abbrev unreadable : {A : Type 0} → Result GoError A
unreadable = err (message "unexpected text")

abbrev read_map : Blob → Result GoError (Dict Value)
read_map (map_blob m) = ok m
read_map _ = ok []

abbrev read_transaction : Blob → Result GoError Transaction
read_transaction (transaction_blob tx) = ok tx
read_transaction _ = unreadable

abbrev read_signed : Blob → Result GoError TxData
read_signed (signed_blob s) = ok s
read_signed _ = unreadable

abbrev read_wrapper : Blob → Result GoError (SignedTransactionWrapper Blob)
read_wrapper (wrapper_blob b currency) = ok (record { signed_transaction = b; currency = currency })
read_wrapper _ = unreadable

abbrev pub plain_options : Options
plain_options = record {
  from = "0xa";
  to = "0xb";
  token_address = "";
  contract_address = "";
  value = "5";
  suggested_fee_multiplier = none;
  gas_price = none;
  gas_limit = none;
  gas_tip_cap = none;
  gas_fee_cap = none;
  nonce = none;
  currency = none;
  method_signature = "";
  method_args = mesh_geth_sdk.Rosetta.null;
  contract_data = "";
}

abbrev pub plain_metadata : TxMetadata
plain_metadata = record {
  nonce = 7;
  gas_price = some (pos 3);
  gas_limit = 21000;
  gas_tip_cap = some (pos 1);
  gas_fee_cap = some (pos 100);
  contract_data = "";
  method_signature = "";
  method_args = mesh_geth_sdk.Rosetta.null;
  l1_data_fee = none;
}

-- Any map is read as the plain options or metadata.
abbrev pub toy_json : Json Blob
toy_json = record {
  is_blank = λ b. false;
  marshal_map = λ m. ok (map_blob m);
  unmarshal_map = read_map;
  marshal_options = λ o. ok (options_blob o);
  unmarshal_options = λ b. ok plain_options;
  marshal_metadata = λ m. ok (metadata_blob m);
  unmarshal_metadata = λ b. ok plain_metadata;
  marshal_parse_metadata = λ m. ok (map_blob []);
  marshal_transaction = λ tx. ok (transaction_blob tx);
  unmarshal_transaction = read_transaction;
  marshal_wrapper = λ w. ok (wrapper_blob w.signed_transaction w.currency);
  unmarshal_wrapper = read_wrapper;
}

pub toy_json-KeepsTransactions : KeepsTransactions toy_json
toy_json-KeepsTransactions tx b e = rw (← ok-injective e) refl

-- `NewTx`
abbrev pub copied_fields : TxFields → TxFields
copied_fields f = record f { value = some (or_zero f.value) }

abbrev pub copied : TxData → TxData
copied (legacy_tx gas_price fields) = legacy_tx gas_price (copied_fields fields)
copied (dynamic_fee_tx gas_tip_cap gas_fee_cap fields) =
    dynamic_fee_tx gas_tip_cap gas_fee_cap (copied_fields fields)

copied-fields :
    (d : TxData)
    → ((fields_of (copied d)).to ≡ (fields_of d).to)
      × ((fields_of (copied d)).call_data ≡ (fields_of d).call_data)
      × ((fields_of (copied d)).value ≡ some (or_zero (fields_of d).value))
copied-fields (legacy_tx gas_price fields) = (refl, refl, refl)
copied-fields (dynamic_fee_tx gas_tip_cap gas_fee_cap fields) = (refl, refl, refl)

abbrev pub toy_signing : Signing Blob TxData
toy_signing = record {
  signing_hash = λ chain d. replicate 32 1;
  with_signature = λ chain d signature. ok (copied d);
  marshal_signed = λ s. ok (signed_blob s);
  unmarshal_signed = read_signed;
  marshal_binary = λ d. ok [];
  contents = λ s. s;
  gas_price = λ s. pos 3;
  gas_tip_cap = λ s. pos 3;
  gas_fee_cap = λ s. pos 3;
  chain_id = λ s. pos 1;
  sender = λ s. ok alice;
  tx_hash = λ s. record { hex = "0xtx" };
  public_key_address = λ key. ok alice;
}

copied_contents :
    (d s : TxData)
    → copied d ≡ s
    → ((fields_of s).to ≡ (fields_of d).to)
      × ((fields_of s).call_data ≡ (fields_of d).call_data)
      × ((fields_of s).value ≡ some (or_zero (fields_of d).value))
copied_contents d s e = rw (← e) (copied-fields d)

pub toy_signing-KeepsSigned : KeepsSigned toy_json toy_signing
toy_signing-KeepsSigned = record {
  wrapper = λ w b e. rw (← ok-injective e) refl;
  bare = λ s b e. rw (← ok-injective e) refl;
  contents = λ chain d signature s e. copied_contents d s (ok-injective e);
}

-- Bytes as texts: as many letters as the byte says, and a stop.
pub letters : ℕ → String → String
unfolding ascii
letters zero s = String.◌∷◌ (ascii b'.') s
letters (suc n) s = String.◌∷◌ (ascii b'a') (letters n s)

unfoldable pub spell : List ℕ → String
unfolding letters
spell [] = String.[]
spell (b ∷ bs) = letters b (spell bs)

unfoldable pub read_letters : ℕ → String → List ℕ
read_letters n String.[] = []
read_letters n (String.◌∷◌ c s) =
    let stop = n ∷ read_letters 0 s in
    let go = read_letters (n + 1) s in if code c == b'.' then stop else go

read_letters-letters :
    (n k : ℕ) (s : String) → read_letters k (letters n s) ≡ (k + n) ∷ read_letters 0 s
unfolding read_letters letters
read_letters-letters zero k s = ap (λ m. m ∷ read_letters 0 s) (omega arith)
read_letters-letters (suc n) k s =
    read_letters-letters n (k + 1) s ∙ ap (λ m. m ∷ read_letters 0 s) (omega arith)

read-spell : (bs : List ℕ) → read_letters 0 (spell bs) ≡ bs
unfolding spell read_letters
read-spell [] = refl
read-spell (b ∷ bs) =
    read_letters-letters b 0 (spell bs)
    ∙ ap (λ xs. (0 + b) ∷ xs) (read-spell bs)
    ∙ ap (λ m. m ∷ bs) (omega arith)

abbrev toy_pack : Geth → List AbiValue → Result GoError (List ℕ)
toy_pack g (address a ∷ big_int n ∷ []) =
    ok (left_pad_bytes (g.address_bytes a) 32 ++ left_pad_bytes (bytes (abs n)) 32)
toy_pack g _ = ok []

abbrev pub toy_abi : Abi
toy_abi = record {
  set_string = λ s. or_zero (parse_ℤ s);
  decode_string = λ s. ok (read_letters 0 s);
  decode = λ s. ok (read_letters 0 s);
  encode = spell;
  unmarshal_strings = λ s. ok [];
  pack_values = λ types values. toy_pack long_geth values;
}

pub toy_abi-Decodes : Decodes toy_abi
toy_abi-Decodes bs = ap ok (read-spell bs)

pub toy_abi-ReadsNumbers : ReadsNumbers toy_abi
toy_abi-ReadsNumbers n = rw (parse-show_ℤ (pos n)) refl

pub toy_abi-PacksTransfers : PacksTransfers long_geth toy_abi
toy_abi-PacksTransfers a n small =
    ap (λ k. ok (left_pad_bytes (long_geth.address_bytes a) 32 ++ left_pad_bytes (bytes k) 32))
      (omega arith)

-- A parser that matches every request with a transfer of five from "0xa" to "0xb".
abbrev pub toy_match : Currency → String → ℤ → Match
toy_match currency a n = record { address = a; currency = currency; amount = n }
