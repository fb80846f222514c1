-- ===== src/Signature/Savings.antt =====
-- What the reported savings say.
use gas_analyzer.Signature.{
  Float, turetzky_upper_gas_limit_bls, turetzky_upper_gas_limit, total_gas_estimate, savings,
  SignatureType, bls, schnorr,
}
use gas_analyzer.Prelude.{ℕ, ◌+◌, ◌≤◌, ◌<◌, ◌≡◌, ◌⊎◌, arith, u64_mod}

-- Where the estimate with the dearest scheme's floor fits a `u64`: the reported total is the base
-- estimate and the scheme's floor; the total and the saving make up the gas used, unless the total
-- exceeds it and nothing is saved; and BLS never saves more than Schnorr.
pub savings_accounts :
    {F : Type 0} (float : Float F) (scheme : SignatureType) (base_estimate gas_used : ℕ)
    → base_estimate + turetzky_upper_gas_limit_bls < u64_mod
    → let (total, saved, _) = savings float scheme base_estimate gas_used in
      (total ≡ base_estimate + turetzky_upper_gas_limit scheme)
      × (((total ≤ gas_used) × (total + saved ≡ gas_used)) ⊎ ((gas_used < total) × (saved ≡ 0)))
      × ((savings float bls base_estimate gas_used).1
          ≤ (savings float schnorr base_estimate gas_used).1)
unfolding savings total_gas_estimate
savings_accounts float bls base_estimate gas_used h = grind arith
savings_accounts float schnorr base_estimate gas_used h = grind arith
