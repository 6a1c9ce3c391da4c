-- ===== src/Prelude/Powers.antt =====
-- Powers of two, and of any base.
use Prim.Native.Nat.{ℕ, zero, suc, ◌+◌, ◌-◌, ◌*◌, ◌^◌, ◌≤◌, ◌<◌}
use mathlib.Core.Path.{◌≡◌, sym, ap, ◌∙◌}
use native.Mathlib.Omega.{arith}
use native.Mathlib.Nat.{
  mul-suc, add_comm, one-le-pow, zero-add, suc-add, one-mul, pow-zero, pow-succ',
}

pub pow-add : (a m n : ℕ) → a ^ (m + n) ≡ a ^ m * a ^ n
pow-add a zero n = rw (zero-add n, pow-zero a) (sym (one-mul (a ^ n)))
pow-add a (suc m) n =
    rw (suc-add m n, pow-succ' a m, pow-succ' a (m + n))
      (omega (arith, ap (λ k. a * k) (pow-add a m n)))

pub pow-eight : (n : ℕ) → 2 ^ (8 + n) ≡ 256 * 2 ^ n
pow-eight n = pow-add 2 8 n

pub pow-byte : (n : ℕ) → 2 ^ (8 * suc n) ≡ 256 * 2 ^ (8 * n)
pow-byte n =
    omega (
      arith,
      pow-eight (8 * n),
      ap (λ k. 2 ^ k) (mul-suc 8 n),
      ap (λ k. 2 ^ k) (add_comm 8 (8 * n)),
    )

pub pow-pos : (n : ℕ) → 0 < 2 ^ n
pow-pos n = one-le-pow n 2 (omega arith)

pub pow-split : (d n : ℕ) → d ≤ n → 2 ^ n ≡ 2 ^ d * 2 ^ (n - d)
pow-split d n le = ap (λ k. 2 ^ k) (omega arith) ∙ pow-add 2 d (n - d)
