-- ===== src/Construction/CallData/Transfer.antt =====
-- services/construction/contract_call_data.go and `GenerateErc20TransferData` of client/utils.go: two ways
-- to the data of a token transfer.
use mesh_geth_sdk.Base.{
  ℕ, ◌^◌, ◌<◌, pos, append_assoc, String, ◌≡◌, refl, List, [], ◌∷◌, ◌++◌, ok, take, ◌+◌, arith, ap,
}
use mesh_geth_sdk.Base.Text.{has_prefix, split}
use mesh_geth_sdk.Base.Decimal.{show_ℤ}
use mesh_geth_sdk.Rosetta.{strings, list, cons, nil, text}
use mesh_geth_sdk.Geth.{Geth, Address}
use mesh_geth_sdk.Client.Utils.{transfer_fn_signature}
use mesh_geth_sdk.Construction.Bytes.{bytes, left_pad_bytes}
use mesh_geth_sdk.Construction.TransferData.{generate_erc20_transfer_data, get_transfer_method_id}
use mesh_geth_sdk.Construction.CallData.Args.{Abi, address, big_int, encode_all, encode_arg}
use mesh_geth_sdk.Construction.CallData.{
  construct_contract_call_data_generic, append_args, texts_of, encode_method_args_strings,
  preprocess_args, contract_call_method_id,
}

-- Documented behaviour of math/big: a decimal text is read as its number.
abbrev pub ReadsNumbers : Abi → Type 0
ReadsNumbers abi = (n : ℕ) → abi.set_string (show_ℤ (pos n)) ≡ pos n

-- The ABI encoding of an address and a number of 256 bits: both padded to 32 bytes.
abbrev pub PacksTransfers : Geth → Abi → Type 0
PacksTransfers g abi =
    (a : Address) (n : ℕ)
    → n < 2 ^ 256
    → abi.pack_values ("address" ∷ "uint256" ∷ []) (address a ∷ big_int (pos n) ∷ [])
      ≡ ok (left_pad_bytes (g.address_bytes a) 32 ++ left_pad_bytes (bytes n) 32)

module _ (g : Geth) (abi : Abi) (keccak : String → List ℕ) (reads : ReadsNumbers abi)
    (packs : PacksTransfers g abi) where
  transfer_args :
      (to : String) (n : ℕ)
      → encode_all g abi ("address" ∷ "uint256" ∷ []) (to ∷ show_ℤ (pos n) ∷ [])
        ≡ ok (address (g.hex_to_address to) ∷ big_int (pos n) ∷ [])
  unfolding encode_all encode_arg has_prefix
  transfer_args to n = rw (reads n) refl

  transfer_strings :
      (method_id : List ℕ) (to : String) (n : ℕ)
      → n < 2 ^ 256
      → encode_method_args_strings g abi method_id transfer_fn_signature (to ∷ show_ℤ (pos n) ∷ [])
        ≡ ok (
            method_id
            ++ (left_pad_bytes (g.address_bytes (g.hex_to_address to)) 32
                ++ left_pad_bytes (bytes n) 32))
  unfolding encode_method_args_strings split
  transfer_strings method_id to n small =
      rw (transfer_args to n, packs (g.hex_to_address to) n small) refl

  generated :
      (to : String) (n : ℕ)
      → generate_erc20_transfer_data g keccak to (pos n)
        ≡ take 4 (keccak transfer_fn_signature)
          ++ (left_pad_bytes (g.address_bytes (g.hex_to_address to)) 32
              ++ left_pad_bytes (bytes n) 32)
  unfolding generate_erc20_transfer_data get_transfer_method_id
  generated to n =
      let whole : n + 0 ≡ n = omega arith in
      rw append_assoc (
        ap
          (λ k.
            take 4 (keccak transfer_fn_signature)
            ++ (left_pad_bytes (g.address_bytes (g.hex_to_address to)) 32
                ++ left_pad_bytes (bytes k) 32))
          whole)

  -- A call of the method of a transfer, made as any contract call from its signature and its arguments as
  -- texts, has the data that is generated for the transfer; the arguments may come as a list of texts or
  -- as a list of any values.
  pub construct-generate_erc20_transfer_data :
      (to : String) (n : ℕ)
      → n < 2 ^ 256
      → (construct_contract_call_data_generic g abi keccak transfer_fn_signature
            (strings (to ∷ show_ℤ (pos n) ∷ []))
          ≡ ok (generate_erc20_transfer_data g keccak to (pos n)))
        × (construct_contract_call_data_generic g abi keccak transfer_fn_signature
              (list (cons (text to) (cons (text (show_ℤ (pos n))) nil)))
            ≡ ok (generate_erc20_transfer_data g keccak to (pos n)))
  unfolding construct_contract_call_data_generic preprocess_args contract_call_method_id append_args
      texts_of
  construct-generate_erc20_transfer_data to n small =
      let same = transfer_strings (take 4 (keccak transfer_fn_signature)) to n small in
      rw (generated to n) (same, same)
