-- ===== src/Exceptions.antt =====
-- src/exceptions.h: the exceptions of the program, beside those of pplib that it throws or catches,
-- and the results of code that may throw.

use dnsmeter.Base.{◌≡◌, refl, ◌⊎◌, inl, inr}

-- The exceptions of the program, and of pplib those that it throws.
pub data Exception : Type 0 where
  missing_commandline_parameter invalid_commandline_parameter : Exception
  invalid_dns_query unknown_rr_type buffer_overflow unknown_destination : Exception
  invalid_query_file unsupported_ip_family failed_to_initialize_packetfilter : Exception
  kernel_access_failed system_call_failed : Exception
  null_pointer invalid_arguments operation_interrupted out_of_memory : Exception

pub data Result {ℓ} (A : Type ℓ) : Type ℓ where
  ok : A → Result A
  throw : Exception → Result A

infixl 5 ◌>>=◌ ◌>>◌
abbrev pub ◌>>=◌ {ℓ κ} : {A : Type ℓ} {B : Type κ} → Result A → (A → Result B) → Result B
ok a >>= f = f a
throw e >>= f = throw e

abbrev pub ◌>>◌ {ℓ κ} : {A : Type ℓ} {B : Type κ} → Result A → Result B → Result B
m >> k = m >>= λ _. k

pub Result-cases {ℓ} :
    {A : Type ℓ} (r : Result A) → ((a : A) × (r ≡ ok a)) ⊎ ((e : Exception) × (r ≡ throw e))
Result-cases (ok a) = inl (a, refl)
Result-cases (throw e) = inr (e, refl)
