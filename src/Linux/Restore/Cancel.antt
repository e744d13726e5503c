-- ===== src/Linux/Restore/Cancel.antt =====
-- linux/linux_restore.cpp: a restore that was cancelled.
use usb_restoration_tool.Text.{Text}
use usb_restoration_tool.Qt.{Qt}
use usb_restoration_tool.Safety.Layout.{is_gpt}
use usb_restoration_tool.RestorePlan.{RestoreStep}
use usb_restoration_tool.PartitionTable.{PartitionTableRequest}
use usb_restoration_tool.Linux.Writes.{Run, Answer, Outcome, done, waiting, refused}
use usb_restoration_tool.Linux.Restore.{
  RestoreRequest, World, Stop, System, Act, and_then, give, report, must, ◌>>=◌, write, written,
  cancelled,
}
use usb_restoration_tool.Linux.Format.{FormatError}
use usb_restoration_tool.Linux.Restore.Phases.{
  or_unformatted, Ready, write_table, overwrite_disk, find_disk, claim_disk, format_and_reread,
  await_partition, perform_linux_restore, run_tool,
}
use usb_restoration_tool.Linux.Restore.Gates.{find_disk-keeps, claim_disk-keeps}
use usb_restoration_tool.Prelude.{
  ℕ, ◌≡◌, sym, subst, ◌≢◌, inl, inr, Bool, true, false, List, arith, Result, ok, err, Bool-cases,
}

NeverCancels : {A : Type 0} → Act A → Type 0
NeverCancels m = (s : System) → (m s).result ≢ err cancelled

asked : {A : Type 0} (r : Result Stop A) → r ≢ err cancelled → NeverCancels (give r)
unfolding NeverCancels give
asked r h s = h

tested : (test : Bool) (stop : Stop) → stop ≢ cancelled → NeverCancels (must test stop)
tested true stop h = asked (ok tt) (λ e. cc)
tested false stop h = asked (err stop) (λ e. h (ground arith))

told : (step : RestoreStep) → NeverCancels (report step)
unfolding NeverCancels report
told step s e = cc

outcome_lem : (o : Outcome) → written o ≢ err cancelled
outcome_lem done e = cc
outcome_lem waiting e = cc
outcome_lem (refused x) e = cc

wrote_lem : (f : (ℕ → ℕ) → List Answer → Run) → NeverCancels (write f)
unfolding NeverCancels write
wrote_lem f s = outcome_lem (f s.disk s.answers).outcome

ran : (world : World) → NeverCancels (run_tool world)
unfolding NeverCancels run_tool
ran world s e = cc

continued :
    {A B : Type 0} (steps : List RestoreStep) (sys : System) (r : Result Stop A) (f : A → Act B)
    → r ≢ err cancelled
    → ((a : A) → NeverCancels (f a))
    → (and_then steps sys r f).result ≢ err cancelled
unfolding NeverCancels
continued steps sys (ok a) f h k = k a sys
continued steps sys (err x) f h k = λ e. h (ground arith)

chained :
    {A B : Type 0} (m : Act A) (f : A → Act B)
    → NeverCancels m
    → ((a : A) → NeverCancels (f a))
    → NeverCancels (m >>= f)
unfolding NeverCancels ◌>>=◌
chained m f h k s = continued (m s).steps (m s).system (m s).result f (h s) k

table_lem : (table : PartitionTableRequest) → NeverCancels (write_table table)
table_lem table = elim (Bool-cases (is_gpt table.style)) [
  | inl e ↦ rw e (chained _ _ (wrote_lem _) (λ a. wrote_lem _))
  | inr e ↦ rw e (wrote_lem _)
]

overwrite_lem : (ready : Ready) → NeverCancels (overwrite_disk ready)
unfolding overwrite_disk
overwrite_lem ready = chained _ _ (told _) (λ a. chained _ _ (tested _ _ (λ e. cc)) (λ b.
    chained _ _ (wrote_lem _)
      (λ c. chained _ _ (wrote_lem _) (λ d. chained _ _ (told _) (λ e. table_lem ready.table)))))

unformatted_lem : (r : Result FormatError (Unit {0})) → or_unformatted r ≢ err cancelled
unformatted_lem (ok u) e = cc
unformatted_lem (err x) e = cc

format_lem :
    (qt : Qt) (request : RestoreRequest) (world : World) (start : ℕ)
    → NeverCancels (format_and_reread qt request world start)
unfolding format_and_reread
format_lem qt request world start = chained _ _ (told _) (λ a.
    chained _ _ (tested _ _ (λ e. cc)) (λ b. chained _ _ (ran world) (λ c.
      chained _ _ (asked _ (unformatted_lem _)) (λ d. chained _ _ (tested _ _ (λ e. cc)) (λ e.
        chained _ _ (told _) (λ f.
          chained _ _ (tested _ _ (λ e. cc))
            (λ g. chained _ _ (tested _ _ (λ e. cc)) (λ h. asked _ (λ e. ground arith)))))))))

await_lem :
    (qt : Qt) (world : World) (name : Text) (n : ℕ) → NeverCancels (await_partition qt world name n)
unfolding await_partition
await_lem qt world name n = chained _ _ (told _) (λ a. chained _ _ (tested _ _ (λ e. cc)) (λ b.
    chained _ _ (tested _ _ (λ e. cc)) (λ c.
      chained _ _ (asked _ (λ e. ground arith))
        (λ d. chained _ _ (told _) (λ e. asked _ (λ e. cc))))))

-- An act in front leaves the system alone, so a cancelled chain does where the rest never cancels.
module _ (s : System) where
  Untouched : {A : Type 0} → Act A → System → Type 0
  Untouched m t = (m t).result ≡ err cancelled → (m t).system ≡ s

  in_front :
      {A B : Type 0} (steps : List RestoreStep) (sys : System) (r : Result Stop A) (f : A → Act B)
      → sys ≡ s
      → ((a : A) → Untouched (f a) s)
      → (and_then steps sys r f).result ≡ err cancelled
      → (and_then steps sys r f).system ≡ s
  unfolding Untouched
  in_front steps sys (ok a) f e k h =
      subst (λ z. (f a z).result ≡ err cancelled → (f a z).system ≡ s) (sym e) (k a) h
  in_front steps sys (err x) f e k h = e

  kept :
      {A B : Type 0} (m : Act A) (f : A → Act B)
      → (m s).system ≡ s
      → ((a : A) → Untouched (f a) s)
      → Untouched (m >>= f) s
  unfolding Untouched ◌>>=◌
  kept m f e k = in_front (m s).steps (m s).system (m s).result f e k

  never : {A : Type 0} (m : Act A) → NeverCancels m → Untouched m s
  unfolding Untouched NeverCancels
  never m h e = absurd (h s e)

-- A restore that ends as cancelled has left every byte of the disk as it was, and no call of
-- `pwrite` was made.
pub perform_linux_restore-cancelled :
    (qt : Qt) (file_name : Text → Text) (request : RestoreRequest) (world : World) (s : System)
    → (perform_linux_restore qt file_name request world s).result ≡ err cancelled
    → (perform_linux_restore qt file_name request world s).system ≡ s
unfolding perform_linux_restore Untouched
perform_linux_restore-cancelled qt file_name request world s =
    kept s (find_disk qt request world) _ (find_disk-keeps qt request world s) (λ disk.
      kept s (claim_disk qt request world disk) _ (claim_disk-keeps qt request world disk s)
        (λ ready. never s _ (
          chained _ _ (overwrite_lem ready) (λ a.
            chained _ _ (tested _ _ (λ e. cc))
              (λ b. chained _ _ (format_lem qt request world _) (λ n. await_lem qt world _ n))))))
