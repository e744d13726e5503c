-- ===== src/Linux/Restore/Plan.antt =====
-- linux/linux_restore.cpp: the steps that a restore reports.
use usb_restoration_tool.Text.{Text}
use usb_restoration_tool.Qt.{Qt}
use usb_restoration_tool.RestorePlan.{
  RestoreStep, verify_disk, identify_device, unmount, open_exclusive, clear_signatures,
  write_partition_table, format, reread_partition_table, wait_for_partition, complete,
  linux_restore_plan,
}
use usb_restoration_tool.RestorePlan.{counter}
use usb_restoration_tool.RestorePlan.Counter.{AllCounted, AllCounted-iff}
use usb_restoration_tool.Safety.Layout.{is_gpt}
use usb_restoration_tool.PartitionTable.{PartitionTableRequest}
use usb_restoration_tool.Disk.{DiskInfo}
use usb_restoration_tool.Linux.Writes.{Run, Answer, Outcome, done, waiting, refused}
use usb_restoration_tool.Linux.Restore.{
  still_writing, write_failed, RestoreRequest, World, Stop, System, Done, Act, and_then, give,
  report, written, write, ◌>>=◌,
}
use usb_restoration_tool.Linux.Restore.Phases.{
  Ready, find_disk, claim_disk, overwrite_disk, write_table, format_and_reread, await_partition,
  run_tool, perform_linux_restore,
}
use usb_restoration_tool.Prelude.{
  ℕ, ◌≡◌, refl, sym, ap, ◌∙◌, ◌⊎◌, inl, inr, List, [], ◌∷◌, ◌++◌, append-nil, append_assoc, Result,
  ok, err, Bool-cases,
}

-- What is reported where the act gives a result, and where it stops.
abbrev pub Reports : {A : Type 0} → List RestoreStep → Done A → Type 0
Reports {A} steps d =
    ((a : A) × (d.result ≡ ok a) × (d.steps ≡ steps))
    ⊎ ((e : Stop) × (d.result ≡ err e) × (rest : List RestoreStep) × (steps ≡ d.steps ++ rest))

unfoldable pub Follows : {A : Type 0} → Act A → List RestoreStep → Type 0
Follows m steps = (s : System) → Reports steps (m s)

given : {A : Type 0} (r : Result Stop A) → Follows (give r) []
unfolding Follows give
given (ok a) s = inl (a, refl, refl)
given (err e) s = inr (e, refl, [], refl)

reported : (step : RestoreStep) → Follows (report step) (step ∷ [])
unfolding Follows report
reported step s = inl (tt, refl, refl)

behind :
    {A B : Type 0} (steps xs ys : List RestoreStep) (sys : System) (a : A) (d : Done B)
    → steps ≡ xs
    → Reports ys d
    → Reports {A = B}
        (xs ++ ys)
        (record { steps = steps ++ d.steps; system = d.system; result = d.result })
behind steps xs ys sys a d e (inl (b, r, t)) = inl (b, r, cc)
behind steps xs ys sys a d e (inr (x, r, rest, t)) = inr (
  x,
  r,
  rest,
  ap (λ z. z ++ ys) (sym e) ∙ (ap (λ z. steps ++ z) t ∙ sym (append_assoc steps d.steps rest)),
)

continued :
    {A B : Type 0} (steps : List RestoreStep) (sys : System) (r : Result Stop A) (f : A → Act B)
    (xs ys : List RestoreStep)
    → Reports {A = A} xs (record { steps = steps; system = sys; result = r })
    → ((a : A) → Follows (f a) ys)
    → Reports (xs ++ ys) (and_then steps sys r f)
unfolding Follows
continued steps sys (ok a) f xs ys (inl (b, e, t)) k =
    behind steps xs ys sys a (f a sys) t (k a sys)
continued steps sys (ok a) f xs ys (inr (x, e, rest, t)) k = cc
continued steps sys (err x) f xs ys (inl (b, e, t)) k = cc
continued steps sys (err x) f xs ys (inr (y, e, rest, t)) k =
    inr (x, refl, rest ++ ys, ap (λ z. z ++ ys) t ∙ append_assoc steps rest ys)

chained :
    {A B : Type 0} (m : Act A) (f : A → Act B) (xs ys : List RestoreStep)
    → Follows m xs
    → ((a : A) → Follows (f a) ys)
    → Follows (m >>= f) (xs ++ ys)
unfolding Follows ◌>>=◌
chained m f xs ys h k s = continued (m s).steps (m s).system (m s).result f xs ys (h s) k

-- The next act reports nothing.
silent :
    {A B : Type 0} (r : Result Stop A) (f : A → Act B) (ys : List RestoreStep)
    → ((a : A) → Follows (f a) ys)
    → Follows (give r >>= f) ys
silent r f ys k = chained (give r) f [] ys (given r) k

-- The next act is a step.
stepped :
    {B : Type 0} (step : RestoreStep) (f : Unit {0} → Act B) (ys : List RestoreStep)
    → ((a : Unit {0}) → Follows (f a) ys)
    → Follows (report step >>= f) (step ∷ ys)
stepped step f ys k = chained (report step) f (step ∷ []) ys (reported step) k

written-Reports :
    (o : Outcome) (s : System) → Reports [] (record { steps = []; system = s; result = written o })
written-Reports done s = inl (tt, refl, refl)
written-Reports waiting s = inr (still_writing, refl, [], refl)
written-Reports (refused e) s = inr (write_failed e, refl, [], refl)

tool_runs : (world : World) → Follows (run_tool world) []
unfolding Follows run_tool
tool_runs world s = inl (tt, refl, refl)

on_disk : (f : (ℕ → ℕ) → List Answer → Run) → Follows (write f) []
unfolding Follows write
on_disk f s =
    let run = f s.disk s.answers in
    written-Reports run.outcome (record { disk = run.disk; answers = run.answers })

find_disk-Follows :
    (qt : Qt) (request : RestoreRequest) (world : World)
    → Follows (find_disk qt request world) (verify_disk ∷ [])
unfolding find_disk
find_disk-Follows qt request world = silent _ _ _ (λ a. silent _ _ _ (λ b. stepped _ _ _ (λ c.
    silent _ _ _ (λ disk.
      silent _ _ _ (λ d. silent _ _ _ (λ e. silent _ _ _ (λ f. silent _ _ _ (λ g. given _))))))))

claim_disk-Follows :
    (qt : Qt) (request : RestoreRequest) (world : World) (disk : DiskInfo)
    → Follows (claim_disk qt request world disk) (identify_device ∷ unmount ∷ open_exclusive ∷ [])
unfolding claim_disk
claim_disk-Follows qt request world disk = stepped _ _ _ (λ a. silent _ _ _ (λ b. silent _ _ _ (λ c.
    silent _ _ _ (λ d. stepped _ _ _ (λ e. silent _ _ _ (λ f. stepped _ _ _ (λ g. silent _ _ _ (λ h.
      silent _ _ _ (λ i. silent _ _ _ (λ j.
        silent _ _ _
          (λ k. silent _ _ _ (λ l. silent _ _ _ (λ m. silent _ _ _ (λ n. given _))))))))))))))

write_table-Follows : (table : PartitionTableRequest) → Follows (write_table table) []
write_table-Follows table = elim (Bool-cases (is_gpt table.style)) [
  | inl e ↦ rw e (chained _ _ [] [] (on_disk _) (λ a. on_disk _))
  | inr e ↦ rw e (on_disk _)
]

overwrite_disk-Follows :
    (ready : Ready) → Follows (overwrite_disk ready) (clear_signatures ∷ write_partition_table ∷ [])
unfolding overwrite_disk
overwrite_disk-Follows ready = stepped _ _ _ (λ a. silent _ _ _ (λ b.
    chained _ _ [] _ (on_disk _) (λ c.
      chained _ _ [] _ (on_disk _) (λ d. stepped _ _ _ (λ e. write_table-Follows ready.table)))))

format_and_reread-Follows :
    (qt : Qt) (request : RestoreRequest) (world : World) (start : ℕ)
    → Follows (format_and_reread qt request world start) (format ∷ reread_partition_table ∷ [])
unfolding format_and_reread
format_and_reread-Follows qt request world start = stepped _ _ _ (λ a. silent _ _ _ (λ b.
    chained _ _ [] _ (tool_runs world) (λ c. silent _ _ _ (λ d.
      silent _ _ _ (λ e. stepped _ _ _ (λ f. silent _ _ _ (λ g. silent _ _ _ (λ h. given _))))))))

await_partition-Follows :
    (qt : Qt) (world : World) (name : Text) (sequence : ℕ)
    → Follows (await_partition qt world name sequence) (wait_for_partition ∷ complete ∷ [])
unfolding await_partition
await_partition-Follows qt world name sequence =
    stepped _ _ _ (λ a.
      silent _ _ _ (λ b. silent _ _ _ (λ c. silent _ _ _ (λ d. stepped _ _ _ (λ e. given _)))))

whole_restore :
    (qt : Qt) (file_name : Text → Text) (request : RestoreRequest) (world : World)
    → Follows (perform_linux_restore qt file_name request world) linux_restore_plan
unfolding perform_linux_restore
whole_restore qt file_name request world =
    chained _ _ (verify_disk ∷ []) _ (find_disk-Follows qt request world) (λ disk.
      chained _ _ (identify_device ∷ unmount ∷ open_exclusive ∷ []) _
        (claim_disk-Follows qt request world disk)
        (λ ready.
          chained _ _ (clear_signatures ∷ write_partition_table ∷ []) _
            (overwrite_disk-Follows ready)
            (λ a. silent _ _ _ (λ b.
              chained _ _ (format ∷ reread_partition_table ∷ []) _
                (format_and_reread-Follows qt request world _)
                (λ sequence.
                  await_partition-Follows qt world (file_name disk.device_id) sequence)))))

reported-counted :
    {A : Type 0} (d : Done A)
    → Reports linux_restore_plan d
    → AllCounted (counter linux_restore_plan) d.steps
reported-counted d (inl (a, r, e)) =
    (AllCounted-iff linux_restore_plan d.steps).1 ([], sym e ∙ sym (append-nil d.steps))
reported-counted d (inr (x, r, rest, e)) = (AllCounted-iff linux_restore_plan d.steps).1 (rest, e)

-- A restore that succeeds reports every step of linuxRestorePlan() in its order, and one that stops
-- has reported the first steps of the plan, as far as it got; so the counter gives each reported
-- step its number, and none is out of order.
pub perform_linux_restore-Follows :
    (qt : Qt) (file_name : Text → Text) (request : RestoreRequest) (world : World)
    → Follows (perform_linux_restore qt file_name request world) linux_restore_plan
      × ((s : System)
          → AllCounted
              (counter linux_restore_plan)
              (perform_linux_restore qt file_name request world s).steps)
unfolding Follows
perform_linux_restore-Follows qt file_name request world =
    let h = whole_restore qt file_name request world in
    (h, λ s. reported-counted (perform_linux_restore qt file_name request world s) (h s))
