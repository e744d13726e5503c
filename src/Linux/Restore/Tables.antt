-- ===== src/Linux/Restore/Tables.antt =====
-- linux/linux_restore.cpp: what a restore in GPT style has on the disk.
pub mod Finished
use usb_restoration_tool.Text.{Text}
use usb_restoration_tool.Qt.{Qt}
use usb_restoration_tool.Bytes.{Bytes}
use usb_restoration_tool.Disk.{DiskInfo, gpt}
use usb_restoration_tool.RestorePlan.{RestoreStep, clear_signatures}
use usb_restoration_tool.Safety.Layout.{partition_layout_error}
use usb_restoration_tool.Safety.Layout.Bounds.{calculate_gpt_layout-IsLayoutFor}
use usb_restoration_tool.PartitionTable.{PartitionTableRequest}
use usb_restoration_tool.PartitionTable.Gate.{FitsGpt, is_writable-FitsGpt}
use usb_restoration_tool.PartitionTable.Images.{build_gpt_primary-IsPrimaryImage}
use usb_restoration_tool.PartitionTable.Build.{
  is_writable_partition_request, build_gpt_primary, build_gpt_backup, gpt_backup_offset,
}
use usb_restoration_tool.Linux.Writes.{Outcome, done, waiting, refused, write_at}
use usb_restoration_tool.Linux.Writes.Effect.{write_at_lem}
use usb_restoration_tool.Linux.Restore.{
  RestoreRequest, World, Stop, System, Act, and_then, give, report, must, ◌>>=◌, write, written,
  flush_failed,
}
use usb_restoration_tool.Linux.Restore.Phases.{
  Ready, write_table, overwrite_disk, find_disk, claim_disk, format_and_reread, await_partition,
  perform_linux_restore, table_request, run_tool,
}
use usb_restoration_tool.Linux.Restore.Gates.{find_disk-IsFound, claim_disk-IsClaimed}
use usb_restoration_tool.Prelude.{
  ℕ, ◌+◌, ◌≤◌, ◌<◌, ◌≡◌, refl, ap, ◌∙◌, ◌⊎◌, inl, true, List, arith, Result, ok, err, ◌>>◌,
}

-- Both tables stand on the disk.
pub record HasTables (table : PartitionTableRequest) (disk : ℕ → ℕ) : Type 0 where
  pub primary :
      (j : ℕ) → j < (build_gpt_primary table).size → disk j ≡ (build_gpt_primary table).byte j
  pub backup :
      (j : ℕ)
      → j < (build_gpt_backup table).size
      → disk (gpt_backup_offset table + j) ≡ (build_gpt_backup table).byte j

-- An act that succeeds is the last one of a chain, behind a system that the first one left.
ended :
    {A B : Type 0} (steps : List RestoreStep) (sys : System) (r : Result Stop A) (f : A → Act B)
    (b : B)
    → (and_then steps sys r f).result ≡ ok b
    → (a : A) × (r ≡ ok a)
      × ((f a sys).result ≡ ok b)
      × ((and_then steps sys r f).system ≡ (f a sys).system)
ended steps sys (ok a) f b h = (a, refl, h, refl)
ended steps sys (err e) f b h = cc

succeeds :
    {A B : Type 0} (m : Act A) (f : A → Act B) (s : System) (b : B)
    → ((m >>= f) s).result ≡ ok b
    → (a : A) × ((m s).result ≡ ok a)
      × ((f a (m s).system).result ≡ ok b)
      × (((m >>= f) s).system ≡ (f a (m s).system).system)
unfolding ◌>>=◌
succeeds m f s b h = ended (m s).steps (m s).system (m s).result f b h

written-done : (o : Outcome) (u : Unit {0}) → written o ≡ ok u → o ≡ done
written-done done u h = refl
written-done waiting u h = cc
written-done (refused e) u h = cc

-- The bytes of one write, and what it leaves alone.
wrote_lem :
    (offset : ℕ) (buffer : Bytes) (s : System) (u : Unit {0})
    → (write (write_at true offset buffer) s).result ≡ ok u
    → let after = (write (write_at true offset buffer) s).system in
      ((i : ℕ) → (i < offset) ⊎ (offset + buffer.size ≤ i) → after.disk i ≡ s.disk i)
      × ((j : ℕ) → j < buffer.size → after.disk (offset + j) ≡ buffer.byte j)
unfolding write
wrote_lem offset buffer s u h =
    let (out, fill) = write_at_lem true offset buffer s.disk s.answers in
    (out, (fill (written-done _ u h)).1)

abbrev gpt_writes : PartitionTableRequest → Act (Unit {0})
gpt_writes table = write (write_at true 0 (build_gpt_primary table)) >>= λ _.
    write (write_at true (gpt_backup_offset table) (build_gpt_backup table))

write_table-gpt :
    (table : PartitionTableRequest) → table.style ≡ gpt → write_table table ≡ gpt_writes table
write_table-gpt table g = rw g refl

gpt_writes-HasTables :
    (table : PartitionTableRequest) (s : System) (u : Unit {0})
    → FitsGpt table
    → (gpt_writes table s).result ≡ ok u
    → HasTables table ((gpt_writes table s).system.disk)
gpt_writes-HasTables table s u fits h =
    let first = write (write_at true 0 (build_gpt_primary table)) in
    let second = write (write_at true (gpt_backup_offset table) (build_gpt_backup table)) in
    let (a, e, e', sys) = succeeds first (λ _. second) s u h in
    let (_, fill) = wrote_lem 0 (build_gpt_primary table) s a e in
    let (out', fill') =
      wrote_lem (gpt_backup_offset table) (build_gpt_backup table) (first s).system u e' in
    let p = build_gpt_primary-IsPrimaryImage table fits.sectors in
    let size = p.size in
    let a = fits.clear_of_primary in
    let b = fits.clear_of_backup in
    record {
      primary = λ j l.
          ap (λ (z : System). z.disk j) sys
          ∙ (out' j (inl (omega arith)) ∙ (ap (first s).system.disk (omega arith) ∙ fill j l));
      backup = λ j l. ap (λ (z : System). z.disk (gpt_backup_offset table + j)) sys ∙ fill' j l;
    }

-- Clearing and writing: the last acts are those of the table.
overwrite_disk-ends :
    (ready : Ready) (s : System) (u : Unit {0})
    → (overwrite_disk ready s).result ≡ ok u
    → (t : System) × ((write_table ready.table t).result ≡ ok u)
      × ((overwrite_disk ready s).system ≡ (write_table ready.table t).system)
unfolding overwrite_disk
overwrite_disk-ends ready s u h =
    let (_, _, h1, e1) = succeeds (report clear_signatures) _ s u h in
    let (_, _, h2, e2) = succeeds _ _ _ u h1 in
    let (_, _, h3, e3) = succeeds _ _ _ u h2 in
    let (_, _, h4, e4) = succeeds _ _ _ u h3 in
    let (_, _, h5, e5) = succeeds _ _ _ u h4 in (_, h5, e1 ∙ (e2 ∙ (e3 ∙ (e4 ∙ e5))))
