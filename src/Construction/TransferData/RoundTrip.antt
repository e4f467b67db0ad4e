-- ===== src/Construction/TransferData/RoundTrip.antt =====
-- The data of a transfer, generated and parsed: client/utils.go, services/construction/parse.go.
use mesh_geth_sdk.Base.{
  ℕ, zero, suc, ◌+◌, ◌-◌, ◌^◌, ◌%◌, ◌<◌, ◌==◌, ==_iff, ltb, pos, String, ◌≡◌, refl, sym, ap, ap₂,
  ◌∙◌, true, false, List, [], ◌∷◌, ◌++◌, ok, arith, length, length-append, length-take, take, drop,
  replicate, append_assoc,
}
use mathlib.Core.Path.{subst}
use mesh_geth_sdk.Geth.{Geth}
use mesh_geth_sdk.Client.Utils.{transfer_fn_signature}
use mesh_geth_sdk.Construction.Bytes.{
  bytes, set_bytes, left_pad_bytes, set_bytes-left_pad_bytes, length-bytes, length-left_pad_bytes,
  IsBytes, IsBytes-left_pad_bytes, set_bytes-tail,
}
use mesh_geth_sdk.Construction.TransferData.{
  bytes_equal_refl, first_bytes, get_transfer_method_id, generate_erc20_transfer_data,
  parse_erc20_transfer_data, has_erc20_transfer_data,
}

take-append : {A : Type 0} (xs ys : List A) → take (length xs) (xs ++ ys) ≡ xs
take-append [] ys = refl
take-append (x ∷ xs) ys = ap (λ zs. x ∷ zs) (take-append xs ys)

drop-append : {A : Type 0} (xs ys : List A) → drop (length xs) (xs ++ ys) ≡ ys
drop-append [] ys = refl
drop-append (x ∷ xs) ys = drop-append xs ys

take_at : {A : Type 0} (n : ℕ) (xs ys : List A) → length xs ≡ n → take n (xs ++ ys) ≡ xs
take_at n xs ys h = subst (λ k. take k (xs ++ ys) ≡ xs) h (take-append xs ys)

drop_at : {A : Type 0} (n : ℕ) (xs ys : List A) → length xs ≡ n → drop n (xs ++ ys) ≡ ys
drop_at n xs ys h = subst (λ k. drop k (xs ++ ys) ≡ ys) h (drop-append xs ys)

drop-nil : {A : Type 0} (n : ℕ) → drop {A = A} n [] ≡ []
drop-nil zero = refl
drop-nil (suc n) = refl

drop-drop : {A : Type 0} (m n : ℕ) (xs : List A) → drop (m + n) xs ≡ drop n (drop m xs)
drop-drop zero n xs = ap (λ k. drop k xs) (omega arith)
drop-drop (suc m) n [] = drop-nil (suc m + n) ∙ sym (drop-nil n)
drop-drop (suc m) n (x ∷ xs) =
    let e : suc m + n ≡ suc (m + n) = omega arith in ap (λ k. drop k (x ∷ xs)) e ∙ drop-drop m n xs

set_bytes-drop_one :
    (v : List ℕ) → IsBytes v → length v ≡ 32 → set_bytes (drop 1 v) ≡ set_bytes v % 2 ^ 248
set_bytes-drop_one [] h l = unfold set_bytes in omega arith
set_bytes-drop_one (b ∷ bs) h l = set_bytes-tail b bs (h.1) (omega (arith, l))

-- An address of 20 bytes, padded to 32, starts with a zero.
padded : (a : List ℕ) → length a ≡ 20 → left_pad_bytes a 32 ≡ 0 ∷ (replicate 11 0 ++ a)
unfolding left_pad_bytes
padded a h = ap (λ k. replicate (32 - k) 0 ++ a) h

module _ (id a v : List ℕ) (id4 : length id ≡ 4) (a20 : length a ≡ 20) (v32 : length v ≡ 32) where
  abbrev whole : List ℕ
  whole = id ++ (left_pad_bytes a 32 ++ v)

  length-whole : length whole ≡ 68
  length-whole = omega (
    arith,
    length-append id (left_pad_bytes a 32 ++ v),
    length-append (left_pad_bytes a 32) v,
    length-left_pad_bytes a 32 (omega (arith, a20)),
    id4,
    v32,
  )

  take-id : take 4 whole ≡ id
  take-id = take_at 4 id (left_pad_bytes a 32 ++ v) id4

  take-address : take 31 (drop 5 whole) ≡ replicate 11 0 ++ a
  take-address =
      ap (take 31) (
        drop-drop 4 1 whole
        ∙ ap (drop 1) (drop_at 4 id (left_pad_bytes a 32 ++ v) id4)
        ∙ ap (λ x. drop 1 (x ++ v)) (padded a a20))
      ∙ take_at 31 (replicate 11 0 ++ a) v (omega (arith, length-append (replicate 11 0) a, a20))

  drop-value : drop 37 whole ≡ drop 1 v
  drop-value =
      drop-drop 36 1 whole
      ∙ ap (drop 1) (
          drop-drop 4 32 whole
          ∙ ap (drop 32) (drop_at 4 id (left_pad_bytes a 32 ++ v) id4)
          ∙ drop_at 32 (left_pad_bytes a 32) v (length-left_pad_bytes a 32 (omega (arith, a20))))

-- Documented behaviour: the address of a text has 20 bytes, and is read back from the bytes that hold
-- it after others, of which only the last 20 are read.
abbrev pub KeepsAddress : Geth → Type 0
KeepsAddress g =
    (to : String)
    → (length (g.address_bytes (g.hex_to_address to)) ≡ 20)
      × ((before : List ℕ)
          → g.bytes_to_address (before ++ g.address_bytes (g.hex_to_address to))
            ≡ g.hex_to_address to)

ltb-long : (n : ℕ) → n ≡ 68 → ltb n 4 ≡ false
ltb-long n h = ground arith

module _ (g : Geth) (keccak : String → List ℕ) (keeps : KeepsAddress g)
    (hashes : length (keccak transfer_fn_signature) ≡ 32) where
  length-method_id : length (get_transfer_method_id g keccak) ≡ 4
  unfolding get_transfer_method_id
  length-method_id = omega (arith, length-take 4 (keccak transfer_fn_signature), hashes)

  module _ (a v : List ℕ) (a20 : length a ≡ 20) (v32 : length v ≡ 32) where
    abbrev message_data : List ℕ
    message_data = whole (get_transfer_method_id g keccak) a v length-method_id a20 v32

    length-message_data : length message_data ≡ 68
    length-message_data = length-whole _ a v length-method_id a20 v32

    has-whole : has_erc20_transfer_data g keccak message_data ≡ ok true
    unfolding has_erc20_transfer_data first_bytes
    has-whole =
        let long : ltb (length message_data) 4 ≡ false =
          ltb-long (length message_data) length-message_data in
        rw (long, take-id _ a v length-method_id a20 v32, bytes_equal_refl) refl

    parse-whole :
        parse_erc20_transfer_data g keccak message_data
        ≡ ok (g.bytes_to_address (replicate 11 0 ++ a), pos (set_bytes (drop 1 v)))
    unfolding parse_erc20_transfer_data
    parse-whole =
        let long : (length message_data == 68) ≡ true = (==_iff _ 68).1 length-message_data in
        rw
          (
            long,
            take-id _ a v length-method_id a20 v32,
            bytes_equal_refl,
            take-address _ a v length-method_id a20 v32,
            drop-value _ a v length-method_id a20 v32,
          )
          refl

  -- What is generated for a transfer is told to be one, and is read back as the same address and the
  -- low 248 bits of the value: the first of its 32 bytes is passed over.
  pub parse-generate_erc20_transfer_data :
      (to : String) (value : ℕ)
      → value < 2 ^ 256
      → (has_erc20_transfer_data g keccak (generate_erc20_transfer_data g keccak to (pos value))
          ≡ ok true)
        × (parse_erc20_transfer_data g keccak (generate_erc20_transfer_data g keccak to (pos value))
            ≡ ok (g.hex_to_address to, pos (value % 2 ^ 248)))
  unfolding generate_erc20_transfer_data
  parse-generate_erc20_transfer_data to value small =
      let id = get_transfer_method_id g keccak in
      let a = g.address_bytes (g.hex_to_address to) in
      let v = left_pad_bytes (bytes value) 32 in
      let a20 = (keeps to).0 in
      let v32 = length-left_pad_bytes (bytes value) 32 (length-bytes 32 value small) in
      let absolute : value + 0 ≡ value = omega arith in
      let same : generate_erc20_transfer_data g keccak to (pos value)
          ≡ whole id a v length-method_id a20 v32 =
        rw absolute (append_assoc id (left_pad_bytes a 32) v) in
      rw same (
        has-whole a v a20 v32,
        parse-whole a v a20 v32
            ∙ ap₂ (λ x n. ok (x, pos n)) ((keeps to).1 (replicate 11 0))
                (set_bytes-drop_one v (IsBytes-left_pad_bytes value 32) v32
                  ∙ ap (λ n. n % 2 ^ 248) (set_bytes-left_pad_bytes value 32)),
      )
