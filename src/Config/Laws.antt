-- ===== src/Config/Laws.antt =====
-- What parameters that pass the assertions of `ScryptParams::new` convert to.
use post_rs.Base.{ℕ, suc, ◌+◌, ◌-◌, ◌^◌, ◌≤◌, ◌<◌, zero, ◌≡◌, ap, ◌∙◌, arith, some}
use post_rs.Base.Words.{IsU64, u8, power_of_two_log}
use post_rs.Config.{
  ScryptParams, ScryptFactors, new_scrypt_params, to_scrypt_factors, n_factor_of, factor_of,
}

pow_n_factor : (a n : ℕ) → 2 ^ a ≡ n → 2 ≤ n → a < 64 → 2 ^ suc (u8 (u8 a + 2 ^ 8 - 1)) ≡ n
pow_n_factor zero n e h fits = absurd (omega arith)
pow_n_factor (suc a) n e h fits =
    let same : u8 (u8 (suc a) + 2 ^ 8 - 1) ≡ a = omega arith in ap (λ (t : ℕ). 2 ^ suc t) same ∙ e

-- Parameters that `ScryptParams::new` accepts convert with no panic, to the exponents of
-- n = 2 ^ (n_factor + 1), r = 2 ^ r_factor and p = 2 ^ p_factor.
pub to_scrypt_factors-new_scrypt_params :
    (n r p : ℕ) {params : ScryptParams}
    → IsU64 n
    → IsU64 r
    → IsU64 p
    → new_scrypt_params n r p ≡ some params
    → (f : ScryptFactors) × (to_scrypt_factors params ≡ some f)
      × (2 ^ suc f.n_factor ≡ n)
      × (2 ^ f.r_factor ≡ r)
      × (2 ^ f.p_factor ≡ p)
unfolding new_scrypt_params to_scrypt_factors n_factor_of factor_of
to_scrypt_factors-new_scrypt_params n r p hn hr hp e =
    let (a, la, ea, fa) = power_of_two_log n (ground arith) hn in
    let (b, lb, eb, fb) = power_of_two_log r (ground arith) hr in
    let (c, lc, ec, fc) = power_of_two_log p (ground arith) hp in
    (
      record { n_factor = u8 (u8 a + 2 ^ 8 - 1); r_factor = u8 b; p_factor = u8 c },
      ground arith,
      pow_n_factor a n ea (ground arith) fa,
      ground arith,
      ground arith,
    )
