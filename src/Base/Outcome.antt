-- ===== src/Base/Outcome.antt =====
-- What a Go function that may fail gives back: a value, an error value, or none of both: `crash` is a panic
-- (a nil dereference, an index out of range), from which net/http recovers in a handler, so that the
-- request is not answered, or `log.Fatal`, which ends the process.
use mathlib.Core.Path.{◌≡◌, refl}
use mathlib.Core.Option.{Option, none, some}

pub data Result (E A : Type 0) : Type 0 where
  ok : A → Result E A
  err : E → Result E A
  crash : Result E A

module _ {E A B : Type 0} where
  infixl 5 ◌>>=◌
  abbrev pub ◌>>=◌ : Result E A → (A → Result E B) → Result E B
  crash >>= next = crash
  err e >>= next = err e
  ok a >>= next = next a

  pub >>=-eq-ok :
      (first : Result E A) (next : A → Result E B) {result : B}
      → (first >>= next) ≡ ok result
      → (a : A) × (first ≡ ok a) × (next a ≡ ok result)
  >>=-eq-ok crash next done = cc
  >>=-eq-ok (err e) next done = cc
  >>=-eq-ok (ok a) next done = (a, refl, done)

pub ok-injective : {E A : Type 0} {a b : A} → ◌≡◌ {A = Result E A} (ok a) (ok b) → a ≡ b
ok-injective h = cc

-- `if err != nil { return nil, wrap(err) }`
abbrev pub map_err : {E F A : Type 0} → Result E A → (E → F) → Result F A
map_err (ok a) f = ok a
map_err (err e) f = err (f e)
map_err crash f = crash

abbrev pub or_err : {E A : Type 0} → Option A → E → Result E A
or_err none e = err e
or_err (some a) e = ok a

-- A nil dereference or an index out of range.
abbrev pub or_crash : {E A : Type 0} → Option A → Result E A
or_crash none = crash
or_crash (some a) = ok a

pub or_crash-eq-ok : {E A : Type 0} (o : Option A) {a : A} → or_crash {E = E} o ≡ ok a → o ≡ some a
or_crash-eq-ok none h = cc
or_crash-eq-ok (some b) h = cc

pub some-injective : {A : Type 0} {a b : A} → some a ≡ some b → a ≡ b
some-injective h = cc

pub map_err-eq-ok :
    {E F A : Type 0} (r : Result E A) (f : E → F) {a : A} → map_err r f ≡ ok a → r ≡ ok a
map_err-eq-ok (ok b) f e = cc
map_err-eq-ok (err x) f e = cc
map_err-eq-ok crash f e = cc

pub or_err-eq-ok : {E A : Type 0} (o : Option A) (e : E) {a : A} → or_err o e ≡ ok a → o ≡ some a
or_err-eq-ok none e h = cc
or_err-eq-ok (some b) e h = cc
