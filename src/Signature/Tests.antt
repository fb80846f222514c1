-- ===== src/Signature/Tests.antt =====
-- An example of the reported savings, with whole numbers for the percentage.
use gas_analyzer.Signature.{Float, turetzky_upper_gas_limit, savings, bls, schnorr}
use gas_analyzer.Signature.Savings.{savings_accounts}
use gas_analyzer.Prelude.{ℕ, ◌+◌, ◌*◌, ◌/◌, ◌≤◌, ◌<◌, ◌≡◌, ◌⊎◌, arith}

abbrev whole : Float ℕ
whole = record { of_u64 = λ n. n; divide = λ a b. a / b; multiply = λ a b. a * b }

savings_accounts_example :
    let (total, saved, _) = savings whole schnorr 100000 400000 in
    (total ≡ 100000 + turetzky_upper_gas_limit schnorr)
    × (((total ≤ 400000) × (total + saved ≡ 400000)) ⊎ ((400000 < total) × (saved ≡ 0)))
    × ((savings whole bls 100000 400000).1 ≤ (savings whole schnorr 100000 400000).1)
savings_accounts_example = savings_accounts whole schnorr 100000 400000 (omega arith)
