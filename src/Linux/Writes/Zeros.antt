-- ===== src/Linux/Writes/Zeros.antt =====
-- linux/block_device.cpp, writeZeros(): what is on the disk behind it.
use usb_restoration_tool.Bytes.{zeros}
use usb_restoration_tool.Safety.Sectors.{
  sector_or_default, unaligned_zero_range_error, UnalignedZeroRange,
}
use usb_restoration_tool.Linux.Writes.{
  Answer, Outcome, done, waiting, refused, Run, write_at, zero_loop, zero_chunk, write_zeros,
  unaligned_zeros,
}
use usb_restoration_tool.Linux.Writes.Effect.{write_at_lem}
use usb_restoration_tool.Prelude.{
  ℕ, zero, suc, ◌+◌, ◌-◌, ◌≤◌, ◌<◌, ◌≡◌, refl, ap, ◌∙◌, ◌≢◌, ◌⊎◌, inl, inr, Bool, true, false,
  Option, none, some, List, arith, dec_lt, min, ◌==◌,
}

-- The range is cleared where the run is done, and nothing else is changed.
pub record Clears (offset bytes : ℕ) (disk : ℕ → ℕ) (run : Run) : Type 0 where
  pub outside : (i : ℕ) → (i < offset) ⊎ (offset + bytes ≤ i) → run.disk i ≡ disk i
  pub cleared : (i : ℕ) → run.outcome ≡ done → offset ≤ i → i < offset + bytes → run.disk i ≡ 0

unchanged :
    (offset bytes : ℕ) (disk : ℕ → ℕ) (answers : List Answer) (outcome : Outcome)
    → (outcome ≡ done → bytes ≡ 0)
    → Clears offset bytes disk (record { disk = disk; answers = answers; outcome = outcome })
unchanged offset bytes disk answers outcome h = record {
  outside = λ i o. refl;
  cleared = λ i d l m. let z = h d in absurd (omega arith);
}

one_chunk :
    (is_open : Bool) (offset count bytes : ℕ) (disk : ℕ → ℕ) (answers : List Answer)
    → count ≤ bytes
    → (write_at is_open offset (zeros count) disk answers).outcome ≢ done
    → Clears offset bytes disk (write_at is_open offset (zeros count) disk answers)
one_chunk is_open offset count bytes disk answers fits nd =
    let (out, _) = write_at_lem is_open offset (zeros count) disk answers in
    record {
      outside = λ i o. out i (elim o [ inl l ↦ inl l | inr l ↦ inr (omega arith) ]);
      cleared = λ i d l m. absurd (nd d);
    }

back : (offset i : ℕ) → offset ≤ i → i ≡ offset + (i - offset)
back offset i l = omega arith

-- One pass of the loop: its end, and the two ways behind the call of writeAt().
pub by_outcome :
    (P : Run → Type 0) (b : Bool) (o : Outcome) (x y next : Run)
    → (b ≡ true → P x)
    → (b ≡ false → o ≡ done → P next)
    → (b ≡ false → o ≢ done → o ≡ y.outcome → P y)
    → o ≡ y.outcome
    → P (elim b [ true ↦ x | false ↦ elim o [ done ↦ next | waiting ↦ y | refused e ↦ y ] ])
by_outcome P true o x y next f g h e = f refl
by_outcome P false done x y next f g h e = g refl refl
by_outcome P false waiting x y next f g h e = h refl (λ d. cc) e
by_outcome P false (refused r) x y next f g h e = h refl (λ d. cc) e

goes_on :
    (is_open : Bool) (offset count bytes : ℕ) (disk : ℕ → ℕ) (answers : List Answer) (run : Run)
    → count ≤ bytes
    → (write_at is_open offset (zeros count) disk answers).outcome ≡ done
    → Clears
        (offset + count)
        (bytes - count)
        ((write_at is_open offset (zeros count) disk answers).disk)
        run
    → Clears offset bytes disk run
goes_on is_open offset count bytes disk answers run fits d h =
    let (out, fill) = write_at_lem is_open offset (zeros count) disk answers in
    let (_, zero_at) = fill d in
    record {
      outside = λ i o. elim o [
        | inl l ↦ h.outside i (inl (omega arith)) ∙ out i (inl l)
        | inr l ↦ h.outside i (inr (omega arith)) ∙ out i (inr (omega arith))
      ];
      cleared = λ i e l m. elim (dec_lt i (offset + count)) [
        | yes k ↦
            h.outside i (inl k)
            ∙ (ap (write_at is_open offset (zeros count) disk answers).disk (back offset i l)
                ∙ zero_at (i - offset) (omega arith))
        | no k ↦ h.cleared i e (omega arith) (omega arith)
      ];
    }

zero_loop-Clears :
    (fuel : ℕ) (is_open : Bool) (chunk cursor remaining : ℕ) (disk : ℕ → ℕ) (answers : List Answer)
    → Clears cursor remaining disk (zero_loop fuel is_open chunk cursor remaining disk answers)
unfolding zero_loop
zero_loop-Clears zero is_open chunk cursor remaining disk answers =
    unchanged cursor remaining disk answers waiting (λ d. cc)
zero_loop-Clears (suc fuel) is_open chunk cursor remaining disk answers =
    let count = min remaining chunk in
    let one = write_at is_open cursor (zeros count) disk answers in
    let next =
      zero_loop fuel is_open chunk (cursor + count) (remaining - count) one.disk one.answers in
    by_outcome (Clears cursor remaining disk) (remaining == 0) one.outcome
      (record { disk = disk; answers = answers; outcome = done }) one next
      (λ z. unchanged cursor remaining disk answers done (λ d. ground arith))
      (λ z d. goes_on is_open cursor count remaining disk answers next (ground arith) d (
        zero_loop-Clears fuel is_open chunk (cursor + count) (remaining - count) one.disk
          one.answers))
      (λ z nd e. one_chunk is_open cursor count remaining disk answers (ground arith) nd) refl

pub clears_cases :
    (P : Run → Type 0) (b : Bool) (o : Option UnalignedZeroRange) (x z : Run)
    (y : UnalignedZeroRange → Run)
    → (b ≡ true → P x)
    → ((e : UnalignedZeroRange) → P (y e))
    → P z
    → P (elim b [ true ↦ x | false ↦ elim o [ some e ↦ y e | none ↦ z ] ])
clears_cases P true o x z y f g h = f refl
clears_cases P false (some e) x z y f g h = g e
clears_cases P false none x z y f g h = h

-- Whatever the kernel answers, clearing a range leaves every byte outside it alone, and where it
-- reports success every byte of the range is 0.
pub write_zeros-Clears :
    (is_open : Bool) (offset bytes sector_size : ℕ) (disk : ℕ → ℕ) (answers : List Answer)
    → Clears offset bytes disk (write_zeros is_open offset bytes sector_size disk answers)
unfolding write_zeros
write_zeros-Clears is_open offset bytes sector_size disk answers =
    clears_cases (Clears offset bytes disk) (bytes == 0)
      (unaligned_zero_range_error offset bytes sector_size)
      (record { disk = disk; answers = answers; outcome = done })
      (zero_loop (suc bytes) is_open (zero_chunk bytes (sector_or_default sector_size)) offset bytes
        disk answers)
      (λ e. record { disk = disk; answers = answers; outcome = refused (unaligned_zeros e) })
      (λ z. unchanged offset bytes disk answers done (λ d. ground arith))
      (λ e. unchanged offset bytes disk answers (refused (unaligned_zeros e)) (λ d. cc))
      (zero_loop-Clears (suc bytes) is_open (zero_chunk bytes (sector_or_default sector_size))
        offset bytes disk answers)
