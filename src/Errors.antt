-- ===== src/Errors.antt =====
-- Go's error values as the package builds and tests them: sentinels, operating-system errors,
-- `fmt.Errorf` with and without `%w`, and `errors.Is`. Messages keep the constant words of the
-- format strings; the formatted values are left out.
use local_tls.Base.{ℕ, String, Bool, true, false, Option, none, some, ◌==◌}

-- `ErrKeyNotFound`, `ErrTrustAnchorNotFound`, `windowscng.ErrKeyNotFound`, `os.ErrNotExist`.
pub data Sentinel : Type 0 where
  key_not_found trust_anchor_not_found cng_key_not_found not_exist : Sentinel

pub data Error : Type 0 where
  sentinel : Sentinel → Error
  errno : ℕ → Error
  text : String → Error
  wrap : String → Error → Error

abbrev pub tag : Sentinel → ℕ
tag key_not_found = 0
tag trust_anchor_not_found = 1
tag cng_key_not_found = 2
tag not_exist = 3

-- `errors.Is`: through the `%w` chain.
abbrev pub errors_is : Error → Sentinel → Bool
errors_is (sentinel s) t = tag s == tag t
errors_is (errno n) t = false
errors_is (text m) t = false
errors_is (wrap m e) t = errors_is e t

-- `os.IsNotExist` looks at the error itself and does not unwrap.
abbrev pub is_not_exist : Error → Bool
is_not_exist (sentinel s) = tag s == tag not_exist
is_not_exist _ = false

-- A Go pair `(value, error)` of which one half is used.
pub data Outcome {ℓ} (A : Type ℓ) : Type ℓ where
  ok : A → Outcome A
  err : Error → Outcome A

abbrev pub is_ok {ℓ} : {A : Type ℓ} → Outcome A → Bool
is_ok (ok a) = true
is_ok (err e) = false

-- The error half of the pair.
abbrev pub error_of {ℓ} : {A : Type ℓ} → Outcome A → Option Error
error_of (ok a) = none
error_of (err e) = some e

abbrev pub from_option {ℓ} : {A : Type ℓ} → Option A → Error → Outcome A
from_option none e = err e
from_option (some a) e = ok a

-- `fmt.Errorf("…: %w", err)` on the error half.
abbrev pub wrapped {ℓ} : {A : Type ℓ} → String → Outcome A → Outcome A
wrapped m (ok a) = ok a
wrapped m (err e) = err (wrap m e)
