-- ===== src/Linux/Writes.antt =====
-- linux/block_device.cpp, writeAt() and writeZeros(): the loops around `pwrite`. The disk is the
-- byte at each position. The answers of the kernel are a list that the calls use up; a list that
-- ends too early leaves the loop waiting. The kernel never writes more than it is asked to.
pub mod Effect
pub mod Ends
pub mod Zeros
use usb_restoration_tool.Bytes.{Bytes, zeros}
use usb_restoration_tool.Safety.Sectors.{
  sector_or_default, unaligned_zero_range_error, UnalignedZeroRange,
}
use usb_restoration_tool.Prelude.{
  ℕ, zero, suc, ◌+◌, ◌-◌, ◌*◌, ◌/◌, Bool, true, false, not, ◌&&◌, none, some, List, [], ◌∷◌, min,
  ltb, leb, ◌==◌, if◌then◌else◌,
}

abbrev pub write_chunk_bytes : ℕ
write_chunk_bytes = 4 * 1024 * 1024

-- EINTR.
abbrev pub interrupted : ℕ
interrupted = 4

-- `wrote` has the bytes that the kernel is ready to take.
pub data Answer : Type 0 where
  wrote failed : ℕ → Answer

pub data WriteError : Type 0 where
  not_open : WriteError
  write_failed : ℕ → WriteError
  stopped_accepting : WriteError
  unaligned_zeros : UnalignedZeroRange → WriteError

pub data Outcome : Type 0 where
  done waiting : Outcome
  refused : WriteError → Outcome

pub record Run : Type 0 where
  pub disk : ℕ → ℕ
  pub answers : List Answer
  pub outcome : Outcome

-- `pwrite` of `count` bytes to the position.
abbrev pub store : (ℕ → ℕ) → ℕ → ℕ → (ℕ → ℕ) → ℕ → ℕ
store disk position count bytes i =
    if leb position i && ltb (i - position) count then bytes (i - position) else disk i

-- What the call does with an answer other than an error.
unfoldable pub write_loop : ℕ → Bytes → ℕ → (ℕ → ℕ) → List Answer → Run
write_loop offset buffer written disk [] = record {
  disk = disk;
  answers = [];
  outcome = if ltb written buffer.size then waiting else done;
}
write_loop offset buffer written disk (failed e ∷ rest) =
    let next = write_loop offset buffer written disk rest in
    if not (ltb written buffer.size)
    then record { disk = disk; answers = failed e ∷ rest; outcome = done }
    else if e == interrupted
    then next
    else record { disk = disk; answers = rest; outcome = refused (write_failed e) }
write_loop offset buffer written disk (wrote n ∷ rest) =
    let count = min n (buffer.size - written) in
    let next =
      write_loop offset buffer (written + count)
        (store disk (offset + written) count (λ j. buffer.byte (written + j))) rest in
    if not (ltb written buffer.size)
    then record { disk = disk; answers = wrote n ∷ rest; outcome = done }
    else if count == 0
    then record { disk = disk; answers = rest; outcome = refused stopped_accepting }
    else next

unfoldable pub write_at : Bool → ℕ → Bytes → (ℕ → ℕ) → List Answer → Run
unfolding write_loop
write_at is_open offset buffer disk answers =
    if not is_open
    then record { disk = disk; answers = answers; outcome = refused not_open }
    else write_loop offset buffer 0 disk answers

-- The loop of writeZeros(), with fuel above the bytes that remain.
unfoldable pub zero_loop : ℕ → Bool → ℕ → ℕ → ℕ → (ℕ → ℕ) → List Answer → Run
unfolding write_at
zero_loop zero is_open chunk cursor remaining disk answers = record {
  disk = disk;
  answers = answers;
  outcome = waiting;
}
zero_loop (suc fuel) is_open chunk cursor remaining disk answers =
    let count = min remaining chunk in
    let one = write_at is_open cursor (zeros count) disk answers in
    elim (remaining == 0) [
      | true ↦ record { disk = disk; answers = answers; outcome = done }
      | false ↦ elim one.outcome [
        | done ↦
            zero_loop fuel is_open chunk (cursor + count) (remaining - count) one.disk one.answers
        | waiting ↦ one
        | refused e ↦ one
      ]
    ]

abbrev pub zero_chunk : ℕ → ℕ → ℕ
zero_chunk bytes sector =
    let chunk = min write_chunk_bytes bytes / sector * sector in
    if ltb 0 chunk then chunk else sector

unfoldable pub write_zeros : Bool → ℕ → ℕ → ℕ → (ℕ → ℕ) → List Answer → Run
unfolding zero_loop
write_zeros is_open offset bytes sector_size disk answers = elim (bytes == 0) [
  | true ↦ record { disk = disk; answers = answers; outcome = done }
  | false ↦ elim (unaligned_zero_range_error offset bytes sector_size) [
    | some e ↦ record { disk = disk; answers = answers; outcome = refused (unaligned_zeros e) }
    | none ↦
        zero_loop (suc bytes) is_open (zero_chunk bytes (sector_or_default sector_size)) offset
          bytes disk answers
  ]
]
