-- ===== src/Construction/Metadata/Fee.antt =====
-- services/construction/metadata.go: when the suggested fee is the price times the limit of gas.
use mesh_geth_sdk.Base.{
  ℕ, ◌+◌, ◌*◌, ◌^◌, ◌<◌, ℤ, pos, ◌*ℤ◌, sub_ℕ, int64, signed64, to_int64, ◌≡◌, ap, ap₂, ◌∙◌, ◌↔◌,
  none, some, arith,
}
use mesh_geth_sdk.Construction.Metadata.{suggested_fee}

signed64-small : (n : ℕ) → n < 2 ^ 63 → signed64 n ≡ pos n
signed64-small n h = ground arith

sub_ℕ-zero : (n : ℕ) → sub_ℕ n 0 ≡ pos n
sub_ℕ-zero n = ground arith

pos-mul-pos : (a b : ℕ) → pos a *ℤ pos b ≡ pos (a * b)
unfolding ◌*ℤ◌
pos-mul-pos a b =
    let p : a * b + 0 * 0 ≡ a * b = grind arith in
    let q : a * 0 + 0 * b ≡ 0 = grind arith in ap₂ sub_ℕ p q ∙ sub_ℕ-zero (a * b)

-- Only the numbers below 2^63 are what they were before they became an int64.
to_int64-exact : (n : ℕ) → (to_int64 (pos n) ≡ pos n) ↔ (n < 2 ^ 63)
to_int64-exact n = (λ h. ground arith, λ h. ground arith)

int64-product :
    (p l : ℕ)
    → p < 2 ^ 63
    → l < 2 ^ 63
    → to_int64 (int64 (pos p) *ℤ signed64 l) ≡ to_int64 (pos (p * l))
unfolding int64
int64-product p l hp hl =
    ap to_int64 (ap₂ ◌*ℤ◌ (signed64-small p hp) (signed64-small l hl) ∙ pos-mul-pos p l)

product-exact :
    (p l : ℕ)
    → p < 2 ^ 63
    → l < 2 ^ 63
    → (to_int64 (int64 (pos p) *ℤ signed64 l) ≡ pos (p * l)) ↔ (p * l < 2 ^ 63)
product-exact p l hp hl = rw (int64-product p l hp hl) (to_int64-exact (p * l))

-- With a price and a limit of gas below 2^63, the suggested fee is their product exactly if that is below
-- 2^63 too; the price is the fee cap where there is one, and else the gas price.
pub suggested_fee_exact :
    (gas_price : ℤ) (p l : ℕ)
    → p < 2 ^ 63
    → l < 2 ^ 63
    → ((suggested_fee (pos p) none l ≡ pos (p * l)) ↔ (p * l < 2 ^ 63))
      × ((suggested_fee gas_price (some (pos p)) l ≡ pos (p * l)) ↔ (p * l < 2 ^ 63))
unfolding suggested_fee
suggested_fee_exact gas_price p l hp hl = (product-exact p l hp hl, product-exact p l hp hl)
