-- ===== src/Net/Bits.antt =====
-- Numbers without their low bits.
use native.Mathlib.Nat.{pow-suc, div-div-eq-div-mul}
use pari_ns.Prelude.{ℕ, zero, suc, ◌+◌, ◌-◌, ◌/◌, ◌^◌, ◌≤◌, ◌≡◌, sym, arith}

shr-suc : (x k : ℕ) → x / 2 ^ suc k ≡ x / 2 ^ k / 2
shr-suc x k = rw pow-suc (sym (div-div-eq-div-mul x (2 ^ k) 2))

shr-add : (x y i k : ℕ) → x / 2 ^ i ≡ y / 2 ^ i → x / 2 ^ (k + i) ≡ y / 2 ^ (k + i)
shr-add x y i zero h = let e : zero + i ≡ i = omega arith in rw e h
shr-add x y i (suc k) h =
    let e : suc k + i ≡ suc (k + i) = omega arith in rw (e, shr-suc x, shr-suc y, shr-add x y i k h)

pub shr_coarser : (x y i j : ℕ) → i ≤ j → x / 2 ^ i ≡ y / 2 ^ i → x / 2 ^ j ≡ y / 2 ^ j
shr_coarser x y i j h e = let k : j ≡ (j - i) + i = omega arith in rw k (shr-add x y i (j - i) e)
