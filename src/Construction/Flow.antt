-- ===== src/Construction/Flow.antt =====
-- services/construction/: what becomes of the intent of a request on its way from `ConstructionPayloads`
-- over `ConstructionCombine` to `ConstructionParse`.
pub mod Unsigned
pub mod Signed
use mesh_geth_sdk.Base.{
  ℕ, ◌^◌, ◌%◌, ◌<◌, ℤ, pos, String, ◌=ₛ◌, ◌≡◌, refl, sym, ap, ◌∙◌, Bool, true, false, Bool-cases,
  inl, inr, Option, none, some, List, [], ◌∷◌, ok, err, crash, ◌>>=◌, >>=-eq-ok, ok-injective,
  map_err, map_err-eq-ok, or_crash, or_err, if◌then◌else◌, length, get_elem?,
}
use mesh_geth_sdk.Rosetta.{Currency, Operation}
use mesh_geth_sdk.Geth.{Geth, Address, ReadsHex}
use mesh_geth_sdk.Types.{call_op_type, op_erc20_transfer}
use mesh_geth_sdk.Types.Errors.{GoError, message, wrapped}
use mesh_geth_sdk.Client.Utils.{
  transfer_fn_signature, checksum_address, checksum_address-hex, checksum_address-valid,
}
use mesh_geth_sdk.Construction.Describe.{OperationDescription, contract_address_of}
use mesh_geth_sdk.Construction.TransferData.{generate_erc20_transfer_data}
use mesh_geth_sdk.Construction.TransferData.RoundTrip.{KeepsAddress}
use mesh_geth_sdk.Construction.CallData.Args.{Abi}
use mesh_geth_sdk.Construction.Data.{Transaction, TxMetadata}
use mesh_geth_sdk.Construction.Parse.{parse_operations, is_transfer, choose_intent}
use mesh_geth_sdk.Construction.Parse.Balanced.{both, parse_operations-generate_erc20_transfer_data}
use mesh_geth_sdk.Construction.Library.{Match, Json, Signing, Parser, unmarshal_json_map}
use mesh_geth_sdk.Construction.Payloads.{
  PayloadsRequest, PayloadsResponse, Sending, invalid_input, internal_error, not_an_address,
  is_contract_call, native_sending, token_sending, sending_of, descriptions_of, unsigned,
  unsigned_transaction, payloads_response, construction_payloads,
}
use mesh_geth_sdk.Construction.Endpoints.{parsed_transaction}

-- A text of an address: valid, and read alike by `NewMixedcaseAddressFromString` and `HexToAddress`.
abbrev pub IsReadAs : Geth → String → Address → Type 0
IsReadAs g s a = (g.mixedcase_address s ≡ some a) × (g.hex_to_address s ≡ a)

-- Documented behaviour of encoding/json: an unsigned transaction is read back from its text.
abbrev pub KeepsTransactions : {Blob : Type 0} → Json Blob → Type 0
KeepsTransactions {Blob} json =
    (tx : Transaction) (b : Blob)
    → json.marshal_transaction tx ≡ ok b
    → json.unmarshal_transaction b ≡ ok tx

-- The type of the operations that a transfer is parsed as, and its amount.
abbrev pub transfer_type : Bool → String
transfer_type is_native = if is_native then call_op_type else op_erc20_transfer

abbrev pub transfer_amount : Bool → ℕ → ℤ
transfer_amount is_native n = pos (if is_native then n else n % 2 ^ 248)

module _ (g : Geth) (keccak : String → List ℕ) (parser : Parser) (native : Currency) where
  -- Whether a match is in the native currency.
  abbrev pub is_native : Match → Bool
  is_native m = parser.hash m.currency =ₛ parser.hash native

  -- An unsigned transaction that is parsed as the transfer of `n`.
  abbrev pub ParsedAs : Match → Address → Address → ℕ → Transaction → Type 0
  ParsedAs m from to n tx =
      (tx.currency ≡ m.currency)
      × (parse_operations g keccak tx
          ≡ ok (
              both tx (transfer_type (is_native m)) from.hex to.hex
                (transfer_amount (is_native m) n)))

module _ (g : Geth) (keccak : String → List ℕ) (abi : Abi) (parser : Parser) (native : Currency)
    (reads : ReadsHex g) (keeps : KeepsAddress g)
    (hashes : length (keccak transfer_fn_signature) ≡ 32) where
  native-ParsedAs :
      (chain_id : Option ℤ) (metadata : TxMetadata) (m : Match) (from to : Address) (n : ℕ)
      → g.hex_to_address to.hex ≡ to
      → is_native g keccak parser native m ≡ true
      → ParsedAs g keccak parser native m from to n (
          unsigned g keccak abi parser native chain_id metadata from.hex m.currency
            (native_sending g keccak abi parser native to.hex (pos n)))
  unfolding parse_operations native_sending is_transfer choose_intent
  native-ParsedAs chain_id metadata m from to n its_hex yes_native = (
    refl,
    rw (yes_native, its_hex, checksum_address-hex g reads from, checksum_address-hex g reads to)
        refl,
  )

  token-ParsedAs :
      (chain_id : Option ℤ) (metadata : TxMetadata) (m to_op : Match) (from to : Address) (n : ℕ)
      → is_native g keccak parser native m ≡ false
      → n < 2 ^ 256
      → g.hex_to_address to_op.address ≡ to
      → (sending : Sending)
      → token_sending g keccak abi parser native m.currency to_op.address (pos n) ≡ ok sending
      → ParsedAs g keccak parser native m from to n
          (unsigned g keccak abi parser native chain_id metadata from.hex m.currency sending)
  unfolding token_sending
  token-ParsedAs chain_id metadata m to_op from to n not_native small read_to sending e =
      let (contract, known, e1) = >>=-eq-ok (or_err (contract_address_of m.currency) _) _ e in
      rw (← ok-injective e1) (
        refl,
        rw (not_native, ← read_to)
            (parse_operations-generate_erc20_transfer_data g keccak _ to_op.address n reads keeps
              hashes small refl (reads from)),
      )

  sending_of-ParsedAs :
      (chain_id : Option ℤ) (metadata : TxMetadata) (m to_op : Match) (from to : Address) (n : ℕ)
      → n < 2 ^ 256
      → g.hex_to_address to_op.address ≡ to
      → g.hex_to_address to.hex ≡ to
      → (sending : Sending)
      → sending_of g keccak abi parser native false m.currency metadata to_op.address to.hex (pos n)
        ≡ ok sending
      → ParsedAs g keccak parser native m from to n
          (unsigned g keccak abi parser native chain_id metadata from.hex m.currency sending)
  unfolding sending_of
  sending_of-ParsedAs chain_id metadata m to_op from to n small read_to its_hex sending e =
      elim (Bool-cases (is_native g keccak parser native m)) [
        | inl yes_native ↦
            rw (← ok-injective (rw yes_native at e))
              (native-ParsedAs chain_id metadata m from to n its_hex yes_native)
        | inr not_native ↦
            token-ParsedAs chain_id metadata m to_op from to n not_native small read_to sending
              (rw not_native at e)
      ]

  pub unsigned_transaction-ParsedAs :
      (chain_id : Option ℤ) (metadata : TxMetadata) (from_op to_op : Match) (from to : Address)
      (n : ℕ) (tx : Transaction)
      → g.mixedcase_address from_op.address ≡ some from
      → IsReadAs g to_op.address to
      → IsReadAs g to.hex to
      → to_op.amount ≡ pos n
      → n < 2 ^ 256
      → unsigned_transaction g keccak abi parser native false chain_id metadata from_op to_op
        ≡ ok tx
      → ParsedAs g keccak parser native from_op from to n tx
  unfolding unsigned_transaction
  unsigned_transaction-ParsedAs chain_id metadata from_op to_op from to n tx sender receiver its_hex
        amount small e =
      let (sending, h, e1) =
        >>=-eq-ok
          (sending_of g keccak abi parser native false from_op.currency metadata to_op.address
            to.hex to_op.amount)
          _
          (rw
            (
              checksum_address-valid g from_op.address sender,
              checksum_address-valid g to_op.address receiver.0,
            )
            at e) in
      rw (← ok-injective e1) (
        sending_of-ParsedAs chain_id metadata from_op to_op from to n small receiver.1 its_hex.1
          sending (rw amount at h))
