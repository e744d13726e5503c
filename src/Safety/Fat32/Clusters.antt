-- ===== src/Safety/Fat32/Clusters.antt =====
-- core/safety.cpp, the loop of fat32DataClusterCount(): the bisection finds the largest count that fits.
use native.Mathlib.Nat.{two-pow-succ, le_refl}
use usb_restoration_tool.Safety.Fat32.{bisect}
use usb_restoration_tool.Prelude.{
  ℕ, zero, suc, ◌+◌, ◌-◌, ◌/◌, ◌^◌, ◌≤◌, ◌<◌, ◌≡◌, refl, ◌⊎◌, inl, inr, Bool, true, false, arith,
  dec_lt, ltb, ltb→lt, Bool-cases,
}

pub record Largest (test : ℕ → Bool) (low high r : ℕ) : Type 0 where
  pub below : r ≤ high
  pub above : low ≤ r
  pub passes : (r ≡ low) ⊎ (test r ≡ true)
  pub largest : (m : ℕ) → m ≤ high → low < m → test m ≡ true → m ≤ r

module _ (test : ℕ → Bool) where
  Largest-up :
      (low high c r : ℕ)
      → low < c
      → c ≤ high
      → test c ≡ true
      → Largest test c high r
      → Largest test low high r
  Largest-up low high c r lt le e l = record {
    below = l.below;
    above = omega arith;
    passes = elim l.passes [ inl p ↦ inr (rw p e) | inr p ↦ inr p ];
    largest = λ m h k t. elim (dec_lt c m) [ yes d ↦ l.largest m h d t | no d ↦ omega arith ];
  }

  Largest-down :
      (low high c r : ℕ)
      → ((m n : ℕ) → m ≤ n → n ≤ high → test n ≡ true → test m ≡ true)
      → low < c
      → c ≤ high
      → test c ≡ false
      → Largest test low (c - 1) r
      → Largest test low high r
  Largest-down low high c r down lt le e l = record {
    below = omega arith;
    above = omega arith;
    passes = l.passes;
    largest = λ m h k t. elim (dec_lt m c) [
      | yes d ↦ l.largest m (omega arith) k t
      | no d ↦ let up : test c ≡ true = down c m (omega arith) h t in cc
    ];
  }

  -- One round of the loop.
  module _ (fuel low high : ℕ) where
    abbrev middle : ℕ
    middle = low + (high - low + 1) / 2

    bisect_done : ltb low high ≡ false → bisect (suc fuel) test low high ≡ low
    unfolding bisect
    bisect_done e = ground arith

    bisect_up :
        ltb low high ≡ true
        → test middle ≡ true
        → bisect (suc fuel) test low high ≡ bisect fuel test middle high
    unfolding bisect
    bisect_up e p = ground arith

    bisect_down :
        ltb low high ≡ true
        → test middle ≡ false
        → bisect (suc fuel) test low high ≡ bisect fuel test low (middle - 1)
    unfolding bisect
    bisect_down e p = ground arith

  -- The value is the last one of the interval that passes, for a test that fails from some value on.
  pub bisect-Largest :
      (fuel low high : ℕ)
      → ((m n : ℕ) → m ≤ n → n ≤ high → test n ≡ true → test m ≡ true)
      → low ≤ high
      → high - low < 2 ^ fuel
      → Largest test low high (bisect fuel test low high)
  unfolding bisect
  bisect-Largest zero low high down le room = record {
    below = le;
    above = le_refl low;
    passes = inl refl;
    largest = λ m h k e. omega arith;
  }
  bisect-Largest (suc fuel) low high down le room = elim (Bool-cases (ltb low high)) [
    | inr done ↦ rw (bisect_done fuel low high done) (record {
      below = le;
      above = le_refl low;
      passes = inl refl;
      largest = λ m h k e. ground arith;
    })
    | inl more ↦
        let c = low + (high - low + 1) / 2 in
        let lt : low < high = ltb→lt low high more in
        elim (Bool-cases (test c)) [
          | inl pass ↦ rw (bisect_up fuel low high more pass) (
              Largest-up low high c _ (omega arith) (omega arith) pass
                (bisect-Largest fuel c high down (omega arith) (omega (arith, two-pow-succ fuel))))
          | inr fail ↦ rw (bisect_down fuel low high more fail) (
              Largest-down low high c _ down (omega arith) (omega arith) fail (
                bisect-Largest fuel low (c - 1) (λ m n h k. down m n h (omega arith)) (omega arith)
                  (omega (arith, two-pow-succ fuel))))
        ]
  ]
