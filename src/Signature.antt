-- ===== src/Signature.antt =====
-- The signature schemes and their gas floors (crates/core/src/encoding.rs, `SignatureType`). The
-- floating-point numbers of the reported percentage are a parameter.
pub mod Savings
pub mod Tests
use gas_analyzer.Prelude.{ℕ, ◌-◌, List, [], ◌∷◌, ltb, if◌then◌else◌, ◌+64◌}

pub data SignatureType : Type 0 where
  bls schnorr : SignatureType

abbrev pub all_signature_types : List SignatureType
all_signature_types = bls ∷ schnorr ∷ []

abbrev pub turetzky_upper_gas_limit_bls : ℕ
turetzky_upper_gas_limit_bls = 250000

abbrev pub turetzky_upper_gas_limit_schnorr : ℕ
turetzky_upper_gas_limit_schnorr = 50000

abbrev pub turetzky_upper_gas_limit : SignatureType → ℕ
turetzky_upper_gas_limit bls = turetzky_upper_gas_limit_bls
turetzky_upper_gas_limit schnorr = turetzky_upper_gas_limit_schnorr

unfoldable pub total_gas_estimate : SignatureType → ℕ → ℕ
total_gas_estimate scheme base_estimate = base_estimate +64 turetzky_upper_gas_limit scheme

-- `f64`, with the conversion from `u64` and the operations that are used.
pub record Float (F : Type 0) : Type 0 where
  pub of_u64 : ℕ → F
  pub divide : F → F → F
  pub multiply : F → F → F

unfoldable pub savings : {F : Type 0} → Float F → SignatureType → ℕ → ℕ → ℕ × ℕ × F
savings float scheme base_estimate gas_used =
    let total_estimate = total_gas_estimate scheme base_estimate in
    let gas_savings = gas_used - total_estimate in
    let percent_savings =
      if ltb 0 gas_used
      then float.multiply (float.divide (float.of_u64 gas_savings) (float.of_u64 gas_used))
          (float.of_u64 100)
      else float.of_u64 0 in
    (total_estimate, gas_savings, percent_savings)
