-- ===== src/Construction/TransferData.antt =====
-- The call data of an ERC20 transfer: `GenerateErc20TransferData` of client/utils.go,
-- `parseErc20TransferData` and `hasERC20TransferData` of services/construction/parse.go.
pub mod RoundTrip
use mesh_geth_sdk.Base.{
  ℕ, ◌-◌, ◌==◌, ltb, ℤ, pos, abs, String, Bool, true, false, ◌&&◌, Option, none, some, List, [],
  ◌∷◌, ◌++◌, if◌then◌else◌, Result, ok, err, crash, ◌>>=◌, length, take, drop, ◌≡◌, refl, ==_iff,
  arith,
}
use mesh_geth_sdk.Geth.{Geth, Address}
use mesh_geth_sdk.Types.Errors.{GoError, message}
use mesh_geth_sdk.Client.Utils.{
  generic_transfer_bytes_length, required_padding_bytes, transfer_fn_signature,
}
use mesh_geth_sdk.Construction.Bytes.{bytes, set_bytes, left_pad_bytes}

-- `bytes.Equal`
unfoldable pub bytes_equal : List ℕ → List ℕ → Bool
bytes_equal [] [] = true
bytes_equal [] (y ∷ ys) = false
bytes_equal (x ∷ xs) [] = false
bytes_equal (x ∷ xs) (y ∷ ys) = (x == y) && bytes_equal xs ys

-- Equal bytes, as a path.
pub bytes_equal_sound : (xs ys : List ℕ) → bytes_equal xs ys ≡ true → xs ≡ ys
unfolding bytes_equal
bytes_equal_sound [] [] h = refl
bytes_equal_sound [] (y ∷ ys) h = cc
bytes_equal_sound (x ∷ xs) [] h = cc
bytes_equal_sound (x ∷ xs) (y ∷ ys) h = ground (arith, bytes_equal_sound xs ys)

pub bytes_equal_refl : (xs : List ℕ) → bytes_equal xs xs ≡ true
unfolding bytes_equal
bytes_equal_refl [] = refl
bytes_equal_refl (x ∷ xs) = rw ((==_iff x x).1 refl) (bytes_equal_refl xs)

-- `data[:n]` of a slice whose capacity is its length
unfoldable pub first_bytes : ℕ → List ℕ → Result GoError (List ℕ)
first_bytes n payload = if ltb (length payload) n then crash else ok (take n payload)

-- `keccak` is the hash `NewLegacyKeccak256` of a text.
module _ (g : Geth) (keccak : String → List ℕ) where
  -- `getTransferMethodID` and `erc20TransferMethodID`
  unfoldable pub get_transfer_method_id : List ℕ
  get_transfer_method_id = take 4 (keccak transfer_fn_signature)

  -- `GenerateErc20TransferData`
  unfoldable pub generate_erc20_transfer_data : String → ℤ → List ℕ
  generate_erc20_transfer_data to_address value =
      get_transfer_method_id
      ++ left_pad_bytes (g.address_bytes (g.hex_to_address to_address)) required_padding_bytes
      ++ left_pad_bytes (bytes (abs value)) required_padding_bytes

  -- `parseErc20TransferData`, with `data[5:36]` and `data[37:]`; the comparison of the texts of the
  -- bytes is one of the bytes.
  unfoldable pub parse_erc20_transfer_data : List ℕ → Result GoError (Address × ℤ)
  parse_erc20_transfer_data payload =
      if length payload == generic_transfer_bytes_length
      then (if bytes_equal (take 4 payload) get_transfer_method_id
          then ok (g.bytes_to_address (take 31 (drop 5 payload)), pos (set_bytes (drop 37 payload)))
          else err (message "incorrect methodID signature"))
      else err (message "incorrect length for data array")

  -- `hasERC20TransferData`
  unfoldable pub has_erc20_transfer_data : List ℕ → Result GoError Bool
  has_erc20_transfer_data payload = do
    method_id ← first_bytes 4 payload
    ok (bytes_equal method_id get_transfer_method_id)
