-- ===== src/Client/Fees/Caps.antt =====
-- client/client.go: the values of the caps on fees.
use mesh_geth_sdk.Base.{
  ℕ, ◌+◌, ℤ, pos, ◌+ℤ◌, ◌*ℤ◌, ◌≤ℤ◌, ltb_ℤ, int_laws, ◌≡◌, refl, ap, Bool-cases, ◌⊎◌, inl, inr, none,
  some, Option, Result, ok, err, arith,
}
use mesh_geth_sdk.Types.Errors.{GoError, not_found}
use mesh_geth_sdk.Configuration.{RosettaConfig}
use mesh_geth_sdk.Client.Fees.{
  get_base_fee_floor, get_base_fee_multiplier, get_priority_fee_divisor, big_int_max, base_fee_of,
  get_base_fee, fee_cap_of, get_gas_fee_cap, div, get_gas_tip_cap,
}

-- `cap` is the greater one of `a` and `b`.
abbrev pub IsMax : ℤ → ℤ → ℤ → Type 0
IsMax a b cap = (a ≤ℤ cap) × (b ≤ℤ cap) × ((cap ≡ a) ⊎ (cap ≡ b))

-- The base fee of a head, zero where it has none.
abbrev pub fee_or_zero : Option ℤ → ℤ
fee_or_zero none = pos 0
fee_or_zero (some n) = n

base_fee_of-zero : (head : Option ℤ) → base_fee_of head ≡ fee_or_zero head
unfolding base_fee_of
base_fee_of-zero none = refl
base_fee_of-zero (some n) = refl

big_int_max-IsMax : (a b : ℤ) → IsMax a b (big_int_max a b)
unfolding big_int_max
big_int_max-IsMax a b = elim (Bool-cases (ltb_ℤ a b)) [
  | inl h ↦ rw h (ground arith, ground arith, inr refl)
  | inr h ↦ rw h (ground arith, ground arith, inl refl)
]

+ℤ-mono : (a b t : ℤ) → a ≤ℤ b → a +ℤ t ≤ℤ b +ℤ t
+ℤ-mono a b t h = omega int_laws

IsMax-shift : (t a b cap : ℤ) → IsMax a b cap → IsMax (a +ℤ t) (b +ℤ t) (cap +ℤ t)
IsMax-shift t a b cap (h, k, inl e) =
    (+ℤ-mono a cap t h, +ℤ-mono b cap t k, inl (ap (λ x. x +ℤ t) e))
IsMax-shift t a b cap (h, k, inr e) =
    (+ℤ-mono a cap t h, +ℤ-mono b cap t k, inr (ap (λ x. x +ℤ t) e))

-- Where the options have no cap and the node answers with a head, the cap is the tip plus the greater one of
-- the base fee times the multiplier and the floor, so it pays for both; a head without a base fee counts
-- as one of zero. A nil head is an error, and a cap of the options is taken as it is.
pub get_gas_fee_cap-IsMax :
    (config : RosettaConfig) (call : Result GoError (Option (Option ℤ))) (head : Option ℤ)
    (given tip : ℤ)
    → ((cap : ℤ) × (get_gas_fee_cap config (ok (some head)) none tip ≡ ok (some cap))
        × IsMax
            (fee_or_zero head *ℤ get_base_fee_multiplier config +ℤ tip)
            (get_base_fee_floor config +ℤ tip)
            cap)
      × (get_gas_fee_cap config (ok none) none tip ≡ err not_found)
      × (get_gas_fee_cap config call (some given) tip ≡ ok (some given))
unfolding get_gas_fee_cap get_base_fee fee_cap_of base_fee_of
get_gas_fee_cap-IsMax config call head given tip = (
  (
    big_int_max (base_fee_of head *ℤ get_base_fee_multiplier config) (get_base_fee_floor config)
        +ℤ tip,
    refl,
    rw (← base_fee_of-zero head) (IsMax-shift tip _ _ _ (big_int_max-IsMax _ _)),
  ),
  refl,
  refl,
)

pos-*ℤ-one : (n : ℕ) → pos n *ℤ pos 1 ≡ pos n
unfolding ◌*ℤ◌
pos-*ℤ-one n = ground arith

pos-+ℤ : (a b : ℕ) → pos a +ℤ pos b ≡ pos (a + b)
unfolding ◌+ℤ◌
pos-+ℤ a b = ground arith

big_int_max-zero : (n : ℕ) → big_int_max (pos n) (pos 0) ≡ pos n
unfolding big_int_max
big_int_max-zero n = ground arith

-- A chain that sets no floor and no multiplier, and no divisor of the tip, gets what EIP-1559 asks
-- for: the suggested tip itself, and the base fee plus the tip for the cap.
pub default_caps :
    (config : RosettaConfig) (base_fee suggested : ℕ)
    → config.base_fee_floor ≡ none
    → config.base_fee_multiplier ≡ none
    → config.priority_fee_divisor ≡ none
    → (get_gas_tip_cap config (ok suggested) none ≡ ok (pos suggested))
      × (get_gas_fee_cap config (ok (some (some (pos base_fee)))) none (pos suggested)
          ≡ ok (some (pos (base_fee + suggested))))
unfolding get_gas_tip_cap get_gas_fee_cap get_base_fee fee_cap_of get_base_fee_floor
    get_base_fee_multiplier get_priority_fee_divisor div base_fee_of
default_caps config base_fee suggested f m d =
    rw (f, m, d)
      (
        ap (λ n. ok (pos n)) (omega arith),
        ap (λ x. ok (some x)) (rw (pos-*ℤ-one, big_int_max-zero) (pos-+ℤ base_fee suggested)),
      )
