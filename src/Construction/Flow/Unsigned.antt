-- ===== src/Construction/Flow/Unsigned.antt =====
-- services/construction/: the unsigned transaction of `ConstructionPayloads` in `ConstructionParse`.
use mesh_geth_sdk.Base.{
  ℕ, ◌^◌, ◌<◌, ℤ, pos, String, ◌≡◌, refl, false, Option, some, List, ◌∷◌, ok, >>=-eq-ok,
  ok-injective, map_err, map_err-eq-ok, length,
}
use mesh_geth_sdk.Rosetta.{Currency}
use mesh_geth_sdk.Geth.{Geth, Address, ReadsHex}
use mesh_geth_sdk.Client.Utils.{transfer_fn_signature}
use mesh_geth_sdk.Construction.Data.{Transaction}
use mesh_geth_sdk.Construction.Describe.{OperationDescription}
use mesh_geth_sdk.Construction.TransferData.RoundTrip.{KeepsAddress}
use mesh_geth_sdk.Construction.CallData.Args.{Abi}
use mesh_geth_sdk.Construction.Library.{Match, Json, Signing, Parser, unmarshal_json_map}
use mesh_geth_sdk.Construction.Payloads.{
  PayloadsRequest, PayloadsResponse, invalid_input, internal_error, is_contract_call,
  descriptions_of, unsigned_transaction, payloads_response, construction_payloads,
}
use mesh_geth_sdk.Construction.Endpoints.{parsed_transaction}
use mesh_geth_sdk.Construction.Flow.{
  IsReadAs, KeepsTransactions, ParsedAs, unsigned_transaction-ParsedAs,
}

module _ {Blob Signed : Type 0} (json : Json Blob) (signing : Signing Blob Signed)
    (kept : KeepsTransactions json) where
  payloads_response-parsed :
      (g : Geth) (keccak : String → List ℕ) (abi : Abi) (parser : Parser) (native : Currency)
      (tx : Transaction) {response : PayloadsResponse Blob}
      → payloads_response g keccak abi parser native json signing tx ≡ ok response
      → parsed_transaction json signing
          (record { signed = false; transaction = response.unsigned_transaction })
        ≡ ok tx
  unfolding payloads_response parsed_transaction
  payloads_response-parsed g keccak abi parser native tx e =
      let (blob, h, e1) = >>=-eq-ok (map_err (json.marshal_transaction tx) invalid_input) _ e in
      rw (← ok-injective e1)
        (rw (kept tx blob (map_err-eq-ok (json.marshal_transaction tx) _ h)) refl)

  module _ (g : Geth) (keccak : String → List ℕ) (abi : Abi) (parser : Parser) (native : Currency)
      (reads : ReadsHex g) (keeps : KeepsAddress g)
      (hashes : length (keccak transfer_fn_signature) ≡ 32) where
    -- The unsigned transaction that `ConstructionPayloads` makes for a transfer (a request without a
    -- method signature) is parsed by `ConstructionParse` into the transfer of the amount of the
    -- receiving operation, between the addresses and in the currency of the request's operations: with
    -- calls of the native currency, or with transfers of a token of the low 248 bits of the amount.
    -- The amount is a number of 256 bits.
    pub construction_payloads-ParsedAs :
        (chain_id : Option ℤ) (request : PayloadsRequest) (from_op to_op : Match)
        (rest : List Match) (from to : Address) (n : ℕ) {ds : List OperationDescription}
        {response : PayloadsResponse Blob}
        → is_contract_call request.metadata ≡ false
        → descriptions_of g keccak abi parser native request.operations false ≡ ok ds
        → parser.match_operations ds request.operations ≡ ok (from_op ∷ to_op ∷ rest)
        → g.mixedcase_address from_op.address ≡ some from
        → IsReadAs g to_op.address to
        → IsReadAs g to.hex to
        → to_op.amount ≡ pos n
        → n < 2 ^ 256
        → construction_payloads g keccak abi parser native json signing chain_id request
          ≡ ok response
        → (tx : Transaction) × (parsed_transaction json signing
              (record { signed = false; transaction = response.unsigned_transaction })
            ≡ ok tx)
          × ParsedAs g keccak parser native from_op from to n tx
    unfolding construction_payloads
    construction_payloads-ParsedAs chain_id request from_op to_op rest from to n transfer described
          matched sender receiver its_hex amount small e =
        let (metadata, h1, e1) =
          >>=-eq-ok
            (map_err (unmarshal_json_map json json.unmarshal_metadata request.metadata)
              internal_error)
            _ (rw (transfer, described, matched) at e) in
        let (tx, h2, e2) =
          >>=-eq-ok
            (unsigned_transaction g keccak abi parser native false chain_id metadata from_op to_op)
            _ e1 in
        (
          tx,
          payloads_response-parsed g keccak abi parser native tx e2,
          unsigned_transaction-ParsedAs g keccak abi parser native reads keeps hashes chain_id
              metadata from_op to_op from to n tx sender receiver its_hex amount small h2,
        )
