-- ===== src/Linux/Writes/Effect.antt =====
-- linux/block_device.cpp, writeAt(): what is on the disk behind it.
use usb_restoration_tool.Bytes.{Bytes}
use usb_restoration_tool.Linux.Writes.{
  Answer, wrote, failed, Outcome, done, waiting, refused, Run, store, write_loop, write_at,
  interrupted, write_failed, stopped_accepting,
}
use usb_restoration_tool.Prelude.{
  ℕ, ◌+◌, ◌-◌, ◌≤◌, ◌<◌, ◌≡◌, refl, ap, ◌∙◌, ◌⊎◌, inl, inr, Bool, true, false, not, List, [], ◌∷◌,
  arith, dec_lt, min, ltb, ◌==◌, if◌then◌else◌,
}

-- Where the data stands once `written` bytes of it do: the run leaves what is outside and in front
-- alone, and a run that is done has the rest in place.
pub record Writes (offset : ℕ) (buffer : Bytes) (written : ℕ) (disk : ℕ → ℕ) (run : Run)
    : Type 0 where
  pub before : (i : ℕ) → i < offset + written → run.disk i ≡ disk i
  pub behind : (i : ℕ) → offset + buffer.size ≤ i → run.disk i ≡ disk i
  pub complete :
      (j : ℕ)
      → run.outcome ≡ done
      → written ≤ j
      → j < buffer.size
      → run.disk (offset + j) ≡ buffer.byte j

-- One pass of the loop: its end, and the two ways behind the call.
pub by_pass :
    (P : Run → Type 0) (a b : Bool) (x y z : Run)
    → (a ≡ true → P x)
    → (a ≡ false → b ≡ true → P y)
    → (a ≡ false → b ≡ false → P z)
    → P (if a then x else if b then y else z)
by_pass P true b x y z f g h = f refl
by_pass P false true x y z f g h = g refl refl
by_pass P false false x y z f g h = h refl refl

module _ (offset : ℕ) (buffer : Bytes) where
  -- A run that ends where it stands.
  ends :
      (written : ℕ) (disk : ℕ → ℕ) (answers : List Answer) (outcome : Outcome)
      → (outcome ≡ done → buffer.size ≤ written)
      → Writes offset buffer written disk
          (record { disk = disk; answers = answers; outcome = outcome })
  ends written disk answers outcome h = record {
    before = λ i l. refl;
    behind = λ i l. refl;
    complete = λ j d l m. let k = h d in absurd (omega arith);
  }

  abbrev stored : ℕ → ℕ → (ℕ → ℕ) → ℕ → ℕ
  stored written count disk = store disk (offset + written) count (λ j. buffer.byte (written + j))

  stored_at :
      (written count j : ℕ) (disk : ℕ → ℕ)
      → written ≤ j
      → j < written + count
      → stored written count disk (offset + j) ≡ buffer.byte j
  stored_at written count j disk l m =
      let e : written + (offset + j - (offset + written)) ≡ j = omega arith in
      let f = ap buffer.byte e in ground arith

  -- A run behind a call that wrote `count` bytes.
  goes_on :
      (written count : ℕ) (disk : ℕ → ℕ) (run : Run)
      → written + count ≤ buffer.size
      → Writes offset buffer (written + count) (stored written count disk) run
      → Writes offset buffer written disk run
  goes_on written count disk run fits h = record {
    before = λ i l. h.before i (omega arith) ∙ ground arith;
    behind = λ i l. h.behind i l ∙ ground arith;
    complete = λ j d l m. elim (dec_lt j (written + count)) [
      | yes k ↦ h.before (offset + j) (omega arith) ∙ stored_at written count j disk l k
      | no k ↦ h.complete j d (omega arith) m
    ];
  }

  write_loop-Writes :
      (written : ℕ) (disk : ℕ → ℕ) (answers : List Answer)
      → written ≤ buffer.size
      → Writes offset buffer written disk (write_loop offset buffer written disk answers)
  unfolding write_loop
  write_loop-Writes written disk [] fits =
      ends written disk [] (if ltb written buffer.size then waiting else done) (λ e. ground arith)
  write_loop-Writes written disk (failed e ∷ rest) fits =
      by_pass (Writes offset buffer written disk) (not (ltb written buffer.size)) (e == interrupted)
        (record { disk = disk; answers = failed e ∷ rest; outcome = done })
        (write_loop offset buffer written disk rest)
        (record { disk = disk; answers = rest; outcome = refused (write_failed e) })
        (λ a. ends written disk (failed e ∷ rest) done (λ d. ground arith))
        (λ a b. write_loop-Writes written disk rest fits)
        (λ a b. ends written disk rest (refused (write_failed e)) (λ d. cc))
  write_loop-Writes written disk (wrote n ∷ rest) fits =
      let count = min n (buffer.size - written) in
      let next = write_loop offset buffer (written + count) (stored written count disk) rest in
      let fits' : written + count ≤ buffer.size = ground arith in
      by_pass (Writes offset buffer written disk) (not (ltb written buffer.size)) (count == 0)
        (record { disk = disk; answers = wrote n ∷ rest; outcome = done })
        (record { disk = disk; answers = rest; outcome = refused stopped_accepting }) next
        (λ a. ends written disk (wrote n ∷ rest) done (λ d. ground arith))
        (λ a b. ends written disk rest (refused stopped_accepting) (λ d. cc))
        (λ a b.
          goes_on written count disk next fits'
            (write_loop-Writes (written + count) (stored written count disk) rest fits'))

-- Whatever the kernel answers, a write leaves every byte outside its range alone; one that reports
-- success has the whole buffer on the disk.
pub write_at_lem :
    (is_open : Bool) (offset : ℕ) (buffer : Bytes) (disk : ℕ → ℕ) (answers : List Answer)
    → let run = write_at is_open offset buffer disk answers in
      ((i : ℕ) → (i < offset) ⊎ (offset + buffer.size ≤ i) → run.disk i ≡ disk i)
      × (run.outcome ≡ done
          → (is_open ≡ true) × ((j : ℕ) → j < buffer.size → run.disk (offset + j) ≡ buffer.byte j))
unfolding write_at
write_at_lem false offset buffer disk answers = (λ i h. refl, λ e. cc)
write_at_lem true offset buffer disk answers =
    let w = write_loop-Writes offset buffer 0 disk answers (omega arith) in
    (
      λ i h. elim h [ inl l ↦ w.before i (omega arith) | inr l ↦ w.behind i l ],
      λ d. (refl, λ j l. w.complete j d (omega arith) l),
    )
