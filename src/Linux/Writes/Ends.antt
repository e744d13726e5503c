-- ===== src/Linux/Writes/Ends.antt =====
-- linux/block_device.cpp, writeAt(): the loop ends.
use usb_restoration_tool.Bytes.{Bytes, zeros}
use usb_restoration_tool.Linux.Writes.{
  Answer, wrote, failed, done, waiting, refused, Run, store, write_loop, write_at, interrupted,
  write_failed, stopped_accepting, zero_chunk, write_zeros, zero_loop, unaligned_zeros,
}
use usb_restoration_tool.Linux.Writes.Effect.{by_pass}
use usb_restoration_tool.Linux.Writes.Zeros.{by_outcome, clears_cases}
use usb_restoration_tool.Safety.Sectors.{
  sector_or_default, unaligned_zero_range_error, sector_or_default-IsSectorSize,
}
use usb_restoration_tool.Prelude.{
  ℕ, zero, suc, ◌+◌, ◌-◌, ◌≤◌, ◌<◌, ◌≡◌, refl, ◌≢◌, inl, inr, Bool, true, false, not, List, [], ◌∷◌,
  arith, min, ltb, ◌==◌, if◌then◌else◌, length,
}

-- The calls that a signal interrupted.
unfoldable pub interruptions : List Answer → ℕ
interruptions [] = 0
interruptions (wrote n ∷ rest) = interruptions rest
interruptions (failed e ∷ rest) =
    let more = interruptions rest in if e == interrupted then more + 1 else more

abbrev Ended : Run → Type 0
Ended run = run.outcome ≢ waiting

write_loop-Ended :
    (offset : ℕ) (buffer : Bytes) (written : ℕ) (disk : ℕ → ℕ) (answers : List Answer)
    → buffer.size + interruptions answers ≤ written + length answers
    → Ended (write_loop offset buffer written disk answers)
unfolding write_loop interruptions
write_loop-Ended offset buffer written disk [] h = λ e. ground arith
write_loop-Ended offset buffer written disk (failed e ∷ rest) h =
    by_pass Ended (not (ltb written buffer.size)) (e == interrupted)
      (record { disk = disk; answers = failed e ∷ rest; outcome = done })
      (write_loop offset buffer written disk rest)
      (record { disk = disk; answers = rest; outcome = refused (write_failed e) }) (λ a d. cc)
      (λ a b. write_loop-Ended offset buffer written disk rest (ground arith)) (λ a b d. cc)
write_loop-Ended offset buffer written disk (wrote n ∷ rest) h =
    let count = min n (buffer.size - written) in
    let disk' = store disk (offset + written) count (λ j. buffer.byte (written + j)) in
    by_pass Ended (not (ltb written buffer.size)) (count == 0)
      (record { disk = disk; answers = wrote n ∷ rest; outcome = done })
      (record { disk = disk; answers = rest; outcome = refused stopped_accepting })
      (write_loop offset buffer (written + count) disk' rest) (λ a d. cc) (λ a b d. cc)
      (λ a b. write_loop-Ended offset buffer (written + count) disk' rest (ground arith))

-- A write ends, with success or with an error, once the kernel has answered as often as the buffer
-- has bytes, the calls that a signal interrupted not counted.
pub write_at-Ended :
    (is_open : Bool) (offset : ℕ) (buffer : Bytes) (disk : ℕ → ℕ) (answers : List Answer)
    → buffer.size + interruptions answers ≤ length answers
    → (write_at is_open offset buffer disk answers).outcome ≢ waiting
unfolding write_at
write_at-Ended false offset buffer disk answers h = λ e. cc
write_at-Ended true offset buffer disk answers h =
    write_loop-Ended offset buffer 0 disk answers (omega arith)

-- A run that is done used no more answers than it had bytes left, those that a signal gave aside.
abbrev Consumes : ℕ → List Answer → Run → Type 0
Consumes bytes answers run =
    run.outcome ≡ done
    → length answers + interruptions run.answers
      ≤ length run.answers + interruptions answers + bytes

write_loop-Consumes :
    (offset : ℕ) (buffer : Bytes) (written : ℕ) (disk : ℕ → ℕ) (answers : List Answer)
    → Consumes (buffer.size - written) answers (write_loop offset buffer written disk answers)
unfolding write_loop interruptions
write_loop-Consumes offset buffer written disk [] = λ d. omega arith
write_loop-Consumes offset buffer written disk (failed e ∷ rest) =
    by_pass (Consumes (buffer.size - written) (failed e ∷ rest)) (not (ltb written buffer.size))
      (e == interrupted) (record { disk = disk; answers = failed e ∷ rest; outcome = done })
      (write_loop offset buffer written disk rest)
      (record { disk = disk; answers = rest; outcome = refused (write_failed e) })
      (λ a d. omega arith)
      (λ a b d. let h = write_loop-Consumes offset buffer written disk rest d in ground arith)
      (λ a b d. cc)
write_loop-Consumes offset buffer written disk (wrote n ∷ rest) =
    let count = min n (buffer.size - written) in
    let disk' = store disk (offset + written) count (λ j. buffer.byte (written + j)) in
    by_pass (Consumes (buffer.size - written) (wrote n ∷ rest)) (not (ltb written buffer.size))
      (count == 0) (record { disk = disk; answers = wrote n ∷ rest; outcome = done })
      (record { disk = disk; answers = rest; outcome = refused stopped_accepting })
      (write_loop offset buffer (written + count) disk' rest) (λ a d. omega arith) (λ a b d. cc)
      (λ a b d.
        let h = write_loop-Consumes offset buffer (written + count) disk' rest d in ground arith)

write_at-Consumes :
    (is_open : Bool) (offset : ℕ) (buffer : Bytes) (disk : ℕ → ℕ) (answers : List Answer)
    → Consumes buffer.size answers (write_at is_open offset buffer disk answers)
unfolding write_at
write_at-Consumes false offset buffer disk answers d = cc
write_at-Consumes true offset buffer disk answers d =
    let h = write_loop-Consumes offset buffer 0 disk answers d in omega arith

zero_loop-Ended :
    (fuel : ℕ) (is_open : Bool) (chunk cursor remaining : ℕ) (disk : ℕ → ℕ) (answers : List Answer)
    → ◌<◌ 0 chunk
    → remaining < fuel
    → remaining + interruptions answers ≤ length answers
    → Ended (zero_loop fuel is_open chunk cursor remaining disk answers)
unfolding zero_loop
zero_loop-Ended zero is_open chunk cursor remaining disk answers pos f h = absurd (omega arith)
zero_loop-Ended (suc fuel) is_open chunk cursor remaining disk answers pos f h =
    let count = min remaining chunk in
    let one = write_at is_open cursor (zeros count) disk answers in
    let next =
      zero_loop fuel is_open chunk (cursor + count) (remaining - count) one.disk one.answers in
    let le : count ≤ remaining = ground arith in
    by_outcome Ended (remaining == 0) one.outcome
      (record { disk = disk; answers = answers; outcome = done }) one next (λ z d. cc)
      (λ z d.
        let k = write_at-Consumes is_open cursor (zeros count) disk answers d in
        zero_loop-Ended fuel is_open chunk (cursor + count) (remaining - count) one.disk one.answers
          pos (ground arith) (omega arith))
      (λ z nd e. write_at-Ended is_open cursor (zeros count) disk answers (omega arith)) refl

zero_chunk_pos :
    (bytes sector : ℕ)
    → ◌<◌ 0 (sector_or_default sector)
    → ◌<◌ 0 (zero_chunk bytes (sector_or_default sector))
zero_chunk_pos bytes sector h = ground arith

sector_pos : (sector : ℕ) → ◌<◌ 0 (sector_or_default sector)
sector_pos sector = elim (sector_or_default-IsSectorSize sector) [
  | inl e ↦ omega arith
  | inr (inl e) ↦ omega arith
  | inr (inr (inl e)) ↦ omega arith
  | inr (inr (inr e)) ↦ omega arith
]

-- Clearing a range ends, with success or with an error, once the kernel has answered as often as
-- the range has bytes, the calls that a signal interrupted not counted.
pub write_zeros-Ended :
    (is_open : Bool) (offset bytes sector_size : ℕ) (disk : ℕ → ℕ) (answers : List Answer)
    → bytes + interruptions answers ≤ length answers
    → (write_zeros is_open offset bytes sector_size disk answers).outcome ≢ waiting
unfolding write_zeros
write_zeros-Ended is_open offset bytes sector_size disk answers h =
    clears_cases Ended (bytes == 0) (unaligned_zero_range_error offset bytes sector_size)
      (record { disk = disk; answers = answers; outcome = done })
      (zero_loop (suc bytes) is_open (zero_chunk bytes (sector_or_default sector_size)) offset bytes
        disk answers)
      (λ e. record { disk = disk; answers = answers; outcome = refused (unaligned_zeros e) })
      (λ z d. cc) (λ e d. cc)
      (zero_loop-Ended (suc bytes) is_open (zero_chunk bytes (sector_or_default sector_size)) offset
        bytes disk answers (zero_chunk_pos bytes sector_size (sector_pos sector_size)) (omega arith)
        h)
