-- ===== src/Construction/Preprocess/Calls.antt =====
-- services/construction/: the call data that `ConstructionPreprocess` writes for a contract call and
-- `ConstructionPayloads` checks.
use mesh_geth_sdk.Base.{
  ℕ, ℤ, String, ◌≡◌, refl, sym, ap, ◌∙◌, some, List, ok, >>=-eq-ok, ok-injective, map_err,
  map_err-eq-ok, or_err, ◌↔◌, Bool-cases, inl, inr,
}
use mesh_geth_sdk.Base.Dict.{Dict, lookup}
use mesh_geth_sdk.Rosetta.{Currency, Value}
use mesh_geth_sdk.Geth.{Geth}
use mesh_geth_sdk.Types.Errors.{message}
use mesh_geth_sdk.Construction.Data.{Options, TxMetadata}
use mesh_geth_sdk.Construction.Describe.{text_of}
use mesh_geth_sdk.Construction.TransferData.{bytes_equal, bytes_equal_sound, bytes_equal_refl}
use mesh_geth_sdk.Construction.CallData.{construct_contract_call_data_generic}
use mesh_geth_sdk.Construction.CallData.Args.{Abi}
use mesh_geth_sdk.Construction.Library.{Parser}
use mesh_geth_sdk.Construction.Payloads.{Sending, invalid_input, call_sending}
use mesh_geth_sdk.Construction.Preprocess.{
  load_metadata, load_call, load_method, load_numeric_metadata, value_of,
}

-- Documented behaviour of hexutil: bytes are read back from their text.
abbrev pub Decodes : Abi → Type 0
Decodes abi = (bs : List ℕ) → abi.decode (abi.encode bs) ≡ ok bs

module _ (g : Geth) (keccak : String → List ℕ) (abi : Abi) where
  load_method-construct :
      (metadata : Dict Value) (v : Value) (o : Options) {made : Options}
      → load_method g keccak abi metadata v o ≡ ok made
      → (bs : List ℕ) × (construct_contract_call_data_generic g abi keccak made.method_signature
            made.method_args
          ≡ ok bs)
        × (made.contract_data ≡ abi.encode bs)
        × (made.contract_address ≡ o.to)
  unfolding load_method
  load_method-construct metadata v o e =
      let (signature, h1, e1) =
        >>=-eq-ok (or_err (text_of (some v)) (message "%s is not a valid method signature string"))
          _ e in
      let (bs, h2, e2) =
        >>=-eq-ok
          (construct_contract_call_data_generic g abi keccak signature
            (value_of (lookup "method_args" metadata)))
          _ e1 in
      rw (← ok-injective e2) (bs, h2, refl, refl)

  load_metadata-load_method :
      (metadata : Dict Value) (v : Value) (o : Options) {made : Options}
      → lookup "method_signature" metadata ≡ some v
      → load_metadata g keccak abi metadata o ≡ ok made
      → (o5 : Options) × (load_method g keccak abi metadata v o5 ≡ ok made)
  unfolding load_metadata load_call
  load_metadata-load_method metadata v o known e =
      let (o1, h1, e1) = >>=-eq-ok (load_numeric_metadata metadata "gas_price" o) _ e in
      let (o2, h2, e2) = >>=-eq-ok (load_numeric_metadata metadata "gas_limit" o1) _ e1 in
      let (o3, h3, e3) = >>=-eq-ok (load_numeric_metadata metadata "nonce" o2) _ e2 in
      let (o4, h4, e4) = >>=-eq-ok (load_numeric_metadata metadata "gas_tip_cap" o3) _ e3 in
      let (o5, h5, e5) = >>=-eq-ok (load_numeric_metadata metadata "gas_fee_cap" o4) _ e4 in
      (o5, rw (known, load_call) at e5)

  module _ (parser : Parser) (native : Currency) where
    abbrev pub calling : List ℕ → String → ℤ → Sending
    calling bs to amount = record {
      transfer_data = bs;
      send_to_address = g.hex_to_address to;
      amount = amount;
    }

    call_sending-forward :
        (metadata : TxMetadata) (to : String) (amount : ℤ) (bs : List ℕ) (s : Sending)
        → construct_contract_call_data_generic g abi keccak metadata.method_signature
            metadata.method_args
          ≡ ok bs
        → call_sending g keccak abi parser native metadata to amount ≡ ok s
        → (abi.decode metadata.contract_data ≡ ok bs) × (s ≡ calling bs to amount)
    unfolding call_sending
    call_sending-forward metadata to amount bs s made e =
        let (given, h, e1) =
          >>=-eq-ok (map_err (abi.decode metadata.contract_data) invalid_input) _ (rw made at e) in
        elim (Bool-cases (bytes_equal bs given)) [
          | inl same ↦
              (let eq = bytes_equal_sound bs given same in
                (
                  rw eq (map_err-eq-ok (abi.decode metadata.contract_data) _ h),
                  rw eq (sym (ok-injective (rw same at e1))),
                ))
          | inr other ↦ cc (rw other at e1)
        ]

    call_sending-back :
        (metadata : TxMetadata) (to : String) (amount : ℤ) (bs : List ℕ)
        → construct_contract_call_data_generic g abi keccak metadata.method_signature
            metadata.method_args
          ≡ ok bs
        → abi.decode metadata.contract_data ≡ ok bs
        → call_sending g keccak abi parser native metadata to amount ≡ ok (calling bs to amount)
    unfolding call_sending
    call_sending-back metadata to amount bs made given = rw (given, made, bytes_equal_refl bs) refl

    -- For a contract call `ConstructionPreprocess` fills in call data, as a text that is read back as
    -- some bytes. Of metadata with the same signature and arguments, `ConstructionPayloads` accepts
    -- exactly the call data that is read as those bytes, and sends these, and the amount, to the
    -- receiver.
    pub load_metadata-call_sending :
        (request : Dict Value) (v : Value) (o : Options) (metadata : TxMetadata) (to : String)
        (amount : ℤ) {made : Options}
        → Decodes abi
        → lookup "method_signature" request ≡ some v
        → load_metadata g keccak abi request o ≡ ok made
        → metadata.method_signature ≡ made.method_signature
        → metadata.method_args ≡ made.method_args
        → (bs : List ℕ) × (abi.decode made.contract_data ≡ ok bs)
          × ((s : Sending)
              → (call_sending g keccak abi parser native metadata to amount ≡ ok s)
                ↔ ((abi.decode metadata.contract_data ≡ ok bs) × (s ≡ calling bs to amount)))
    load_metadata-call_sending request v o metadata to amount decodes known e same_sig same_args =
        let (o5, loaded) = load_metadata-load_method request v o known e in
        let (bs, construct, contract_data, address) = load_method-construct request v o5 loaded in
        let agreed : construct_contract_call_data_generic g abi keccak metadata.method_signature
              metadata.method_args
            ≡ ok bs =
          rw (same_sig, same_args) construct in
        (
          bs,
          rw contract_data (decodes bs),
          λ s. (
            call_sending-forward metadata to amount bs s agreed,
            λ (given, is). call_sending-back metadata to amount bs agreed given ∙ ap ok (sym is),
          ),
        )
