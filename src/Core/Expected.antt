-- ===== src/Core/Expected.antt =====
-- framework/core/include/optronic/core/expected.hpp: `std::expected<T, Error>`, `status` and `fail`.
use Prim.Native.String.{String}
use optronic.Core.Error.{Code, Error}

pub data Expected {ℓ} (A : Type ℓ) : Type ℓ where
  ok : A → Expected A
  err : Error → Expected A

-- optronic::status
abbrev pub Status : Type 0
Status = Expected (Unit {0})

abbrev pub done : Status
done = ok tt

abbrev pub fail {ℓ} : {A : Type ℓ} → Code → String → Expected A
fail c location = err (record { code = c; location = location })

infixl 5 ◌>>=◌
abbrev pub ◌>>=◌ {ℓ κ} : {A : Type ℓ} {B : Type κ} → Expected A → (A → Expected B) → Expected B
ok a >>= f = f a
err e >>= f = err e
