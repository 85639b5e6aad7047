-- ===== src/Sm9/Fields.antt =====
-- src/sm9/fields: Fp, Fp2 = Fp[u]/(u² + 2), Fp6 = Fp2[v]/(v³ - u), Fp12 = Fp6[w]/(w² - v).
pub mod Fp
pub mod Fp2
pub mod Fp12
pub mod Products
pub mod Inverses
pub mod Frobenius
