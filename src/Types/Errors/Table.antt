-- ===== src/Types/Errors/Table.antt =====
-- types/errors.go: the table of API errors and `WrapErr`.
use mesh_geth_sdk.Base.{
  ℕ, zero, suc, ◌+◌, ◌≡◌, refl, ap, sym, ◌∙◌, Option, none, some, List, [], ◌∷◌, arith, get_elem?,
}
use mesh_geth_sdk.Rosetta.{Error}
use mesh_geth_sdk.Types.Errors.{GoError, errors, wrap_err}

-- The codes count up from `n`.
abbrev IsCoded : ℕ → List Error → Type 0
IsCoded n [] = Unit
IsCoded n (e ∷ es) = (e.code ≡ n) × IsCoded (suc n) es

code_or_zero : Option Error → ℕ
code_or_zero none = 0
code_or_zero (some e) = e.code

code-at :
    (n : ℕ) (es : List Error) (i : ℕ) {e : Error}
    → IsCoded n es
    → get_elem? es i ≡ some e
    → e.code ≡ n + i
unfolding code_or_zero
code-at n [] i h k = cc
code-at n (x ∷ xs) zero h k = ap code_or_zero (sym k) ∙ h.0 ∙ omega arith
code-at n (x ∷ xs) (suc i) h k = code-at (suc n) xs i h.1 k ∙ omega arith

errors-IsCoded : IsCoded 0 errors
errors-IsCoded = (
  refl,
  (
    refl,
    (
      refl,
      (
        refl,
        (
          refl,
          (
            refl,
            (
              refl,
              (
                refl,
                (
                  refl,
                  (
                    refl,
                    (
                      refl,
                      (
                        refl,
                        (
                          refl,
                          (
                            refl,
                            (
                              refl,
                              (refl, (refl, (refl, (refl, (refl, (refl, (refl, (refl, tt)))))))),
                            ),
                          ),
                        ),
                      ),
                    ),
                  ),
                ),
              ),
            ),
          ),
        ),
      ),
    ),
  ),
)

-- Each entry of the table of errors has its position for its code, so no two share one; and
-- `WrapErr` keeps the code and whether the call may be retried, whatever error it is given.
pub wrap_err-code :
    (i : ℕ) {e : Error} (o : Option GoError)
    → get_elem? errors i ≡ some e
    → ((wrap_err e o).code ≡ i) × ((wrap_err e o).retriable ≡ e.retriable)
unfolding wrap_err
wrap_err-code i none h = (code-at 0 errors i errors-IsCoded h ∙ omega arith, refl)
wrap_err-code i (some x) h = (code-at 0 errors i errors-IsCoded h ∙ omega arith, refl)
