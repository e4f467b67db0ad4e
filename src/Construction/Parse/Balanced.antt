-- ===== src/Construction/Parse/Balanced.antt =====
-- services/construction/parse.go: the operations that `ConstructionParse` answers with.
use mesh_geth_sdk.Base.{
  crash, arith, lt→ltb, ℕ, ◌^◌, ◌%◌, ◌<◌, ℤ, pos, neg, int_laws, String, ◌≡◌, refl, ap, true, some,
  List, [], ◌∷◌, ok, ◌>>=◌, >>=-eq-ok, ok-injective, map_err, or_crash, length,
}
use mesh_geth_sdk.Base.Decimal.{parse-show_ℤ}
use mesh_geth_sdk.Rosetta.{Operation}
use mesh_geth_sdk.Geth.{Geth, Address, ReadsHex}
use mesh_geth_sdk.Types.{op_erc20_transfer}
use mesh_geth_sdk.Types.Errors.{wrap_err, err_invalid_input}
use mesh_geth_sdk.Client.Utils.{
  transfer_fn_signature, checksum_address, checksum_address-hex, checksum_address-valid,
}
use mesh_geth_sdk.Mapper.Operations.{IsIndexed, total}
use mesh_geth_sdk.Construction.TransferData.{
  first_bytes, generate_erc20_transfer_data, has_erc20_transfer_data, parse_erc20_transfer_data,
}
use mesh_geth_sdk.Construction.TransferData.RoundTrip.{
  KeepsAddress, parse-generate_erc20_transfer_data,
}
use mesh_geth_sdk.Construction.Data.{Transaction}
use mesh_geth_sdk.Construction.Parse.{
  parse_op, invalid_address, transfer_intent, choose_intent, is_transfer, parse_operations,
}

-- The two operations of a transaction.
abbrev pub both : Transaction → String → String → String → ℤ → List Operation
both tx op_method from to value =
    parse_op tx 0 op_method from (neg value) ∷ parse_op tx 1 op_method to value ∷ []

abbrev pub IsBalanced : List Operation → Type 0
IsBalanced ops = IsIndexed 0 ops × (length ops ≡ 2) × (total ops ≡ pos 0)

both-IsBalanced :
    (tx : Transaction) (op_method from to : String) (value : ℤ)
    → IsBalanced (both tx op_method from to value)
unfolding parse_op
both-IsBalanced tx op_method from to value =
    ((refl, (refl, tt)), refl, simp parse-show_ℤ (omega int_laws))

module _ (g : Geth) (keccak : String → List ℕ) where
  -- The operations that `ConstructionParse` answers with are two, numbered from zero on, and their
  -- amounts add up to zero, for native transfers and for transfers of tokens.
  pub parse_operations-IsBalanced :
      (tx : Transaction) {ops : List Operation}
      → parse_operations g keccak tx ≡ ok ops
      → IsBalanced ops
  unfolding parse_operations
  parse_operations-IsBalanced tx e =
      let (transfer, h1, e1) = >>=-eq-ok (is_transfer g keccak tx.call_data) _ e in
      let (intent, h2, e2) = >>=-eq-ok (choose_intent g keccak tx transfer) _ e1 in
      let (from, h3, e3) = >>=-eq-ok (map_err (checksum_address g tx.from) invalid_address) _ e2 in
      let (to, h4, e4) =
        >>=-eq-ok (map_err (checksum_address g intent.to_address) invalid_address) _ e3 in
      let (value, h5, e5) = >>=-eq-ok (or_crash intent.value) _ e4 in
      rw (← ok-injective e5) (both-IsBalanced tx intent.op_method from to value)

  is_transfer-true :
      (call_data : List ℕ)
      → has_erc20_transfer_data g keccak call_data ≡ ok true
      → is_transfer g keccak call_data ≡ ok true
  unfolding is_transfer
  is_transfer-true [] h = unfold has_erc20_transfer_data first_bytes in cc
  is_transfer-true (b ∷ bs) h = ap (λ r. map_err r (λ e. wrap_err err_invalid_input (some e))) h

  transfer_intent-ok :
      (call_data : List ℕ) (to : Address) (value : ℤ)
      → parse_erc20_transfer_data g keccak call_data ≡ ok (to, value)
      → transfer_intent g keccak call_data
        ≡ ok (record { op_method = op_erc20_transfer; to_address = to.hex; value = some value })
  unfolding transfer_intent
  transfer_intent-ok call_data to value h =
      ap
        (λ r. map_err r (λ e. wrap_err err_invalid_input (some e)) >>= λ sent.
          ok (record {
            op_method = op_erc20_transfer;
            to_address = sent.0.hex;
            value = some sent.1;
          }))
        h

  -- A transaction whose data was generated for a transfer of a token is answered with the transfer of the
  -- low 248 bits of the value, from the sender to the address that the data was generated for.
  pub parse_operations-generate_erc20_transfer_data :
      (tx : Transaction) (to : String) (value : ℕ) {from : Address}
      → ReadsHex g
      → KeepsAddress g
      → length (keccak transfer_fn_signature) ≡ 32
      → value < 2 ^ 256
      → tx.call_data ≡ generate_erc20_transfer_data g keccak to (pos value)
      → g.mixedcase_address tx.from ≡ some from
      → parse_operations g keccak tx
        ≡ ok (both tx op_erc20_transfer from.hex (g.hex_to_address to).hex (pos (value % 2 ^ 248)))
  unfolding parse_operations choose_intent
  parse_operations-generate_erc20_transfer_data tx to value {from} reads keeps hashes small written
        sender =
      let (told, read) = parse-generate_erc20_transfer_data g keccak keeps hashes to value small in
      let transfer = is_transfer-true tx.call_data (rw written told) in
      let intended =
        transfer_intent-ok tx.call_data (g.hex_to_address to) (pos (value % 2 ^ 248))
          (rw written read) in
      rw
        (
          transfer,
          intended,
          checksum_address-valid g tx.from sender,
          checksum_address-hex g reads (g.hex_to_address to),
        )
        refl

  is_transfer-short :
      (call_data : List ℕ)
      → 0 < length call_data
      → length call_data < 4
      → is_transfer g keccak call_data ≡ crash
  unfolding is_transfer has_erc20_transfer_data first_bytes
  is_transfer-short [] some_data short = ground arith
  is_transfer-short (b ∷ bs) some_data short = rw (lt→ltb (length (b ∷ bs)) 4 short) refl

  -- Data of one, two or three bytes makes it panic: its first four bytes are read without a test on
  -- the length.
  pub parse_operations_short :
      (tx : Transaction)
      → 0 < length tx.call_data
      → length tx.call_data < 4
      → parse_operations g keccak tx ≡ crash
  unfolding parse_operations
  parse_operations_short tx some_data short =
      rw (is_transfer-short tx.call_data some_data short) refl
