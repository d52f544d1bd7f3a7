-- ===== src/Shared/Decimal/Rounding.antt =====
-- What `quantize` returns: the nearest amount of whole cents.
use finty.Base.{ℕ, zero, suc, ◌+◌, ◌*◌, ◌/◌, ◌^◌, ◌≤◌, ◌<◌, ◌≡◌, arith}
use native.Mathlib.Nat.{div-add-mod, pow-suc}
use finty.Base.Int.{ℤ, pos, negsuc, neg, magnitude}
use finty.Shared.Errors.{ok}
use finty.Shared.Decimal.{round_half_up, precision_bound, with_sign, to_cents, quantize}

pow-pos : (k : ℕ) → 0 < 10 ^ k
pow-pos zero = omega arith
pow-pos (suc k) = grind (arith, pow-suc, pow-pos k)

round_half_up_nearest :
    (n d : ℕ)
    → 0 < d
    → (2 * (round_half_up n d * d) ≤ 2 * n + d) × (2 * n < 2 * (round_half_up n d * d) + d)
unfolding round_half_up
round_half_up_nearest n d h = grind (arith, div-add-mod (2 * n + d) (2 * d))

magnitude-with_sign : (c : ℤ) (m : ℕ) → magnitude (with_sign c m) ≡ m
unfolding with_sign neg
magnitude-with_sign (pos x) m = omega arith
magnitude-with_sign (negsuc x) m = ground arith

with_sign_self : (c : ℤ) → with_sign c (magnitude c) ≡ c
unfolding with_sign neg
with_sign_self (pos n) = ground arith
with_sign_self (negsuc n) = ground arith

-- An amount with two decimal places is its own quantization.
pub to_cents_exact : (n : ℤ) → to_cents n (negsuc 1) ≡ n
unfolding to_cents round_half_up
to_cents_exact n =
    let e : (2 * magnitude n + 1) / (2 * 1) ≡ magnitude n = omega arith in rw e (with_sign_self n)

pub quantize_exact : (n : ℤ) → magnitude n < precision_bound → quantize n (negsuc 1) ≡ ok n
unfolding quantize
quantize_exact n h = rw (to_cents_exact n) (ground arith)

-- Where a decimal with at least two places is quantized, the result is the nearest amount of whole
-- cents, a half away from zero, with the sign of the decimal and 28 digits at most.
pub quantize_nearest :
    (c : ℤ) (k : ℕ) {q : ℤ}
    → quantize c (negsuc (suc k)) ≡ ok q
    → (2 * (magnitude q * 10 ^ k) ≤ 2 * magnitude c + 10 ^ k)
      × (2 * magnitude c < 2 * (magnitude q * 10 ^ k) + 10 ^ k)
      × (q ≡ with_sign c (magnitude q))
      × (magnitude q < precision_bound)
unfolding quantize to_cents
quantize_nearest c k e =
    let m = round_half_up (magnitude c) (10 ^ k) in
    grind (arith, round_half_up_nearest (magnitude c) (10 ^ k) (pow-pos k), magnitude-with_sign c m)

pub quantize-ok :
    (n : ℤ) {q : ℤ} → quantize n (negsuc 1) ≡ ok q → (q ≡ n) × (magnitude n < precision_bound)
unfolding quantize
quantize-ok n e = let same = to_cents_exact n in ground (arith, rw same at e)
