-- ===== src/Linux/Restore/Tables/Finished.antt =====
-- linux/linux_restore.cpp: the tables behind a whole restore.
use usb_restoration_tool.Text.{Text}
use usb_restoration_tool.Qt.{Qt}
use usb_restoration_tool.Disk.{DiskInfo, gpt}
use usb_restoration_tool.Safety.Layout.{partition_layout_error}
use usb_restoration_tool.Safety.Layout.Bounds.{calculate_gpt_layout-IsLayoutFor}
use usb_restoration_tool.PartitionTable.{PartitionTableRequest}
use usb_restoration_tool.PartitionTable.Gate.{FitsGpt, is_writable-FitsGpt}
use usb_restoration_tool.PartitionTable.Images.{build_gpt_primary-IsPrimaryImage}
use usb_restoration_tool.PartitionTable.Build.{is_writable_partition_request, gpt_backup_offset}
use usb_restoration_tool.Linux.Restore.{
  RestoreRequest, World, Stop, System, Act, give, report, must, ◌>>=◌, flush_failed,
}
use usb_restoration_tool.Linux.Restore.Phases.{
  Ready, write_table, overwrite_disk, find_disk, claim_disk, format_and_reread, await_partition,
  perform_linux_restore, table_request, run_tool,
}
use usb_restoration_tool.Linux.Restore.Gates.{find_disk-IsFound, claim_disk-IsClaimed}
use usb_restoration_tool.Prelude.{
  ℕ, ◌+◌, ◌≤◌, ◌<◌, ◌≡◌, refl, sym, ap, ◌∙◌, subst, ◌≢◌, ◌⊎◌, inl, inr, Bool, none, some, arith, ok,
  IsU64,
}
use usb_restoration_tool.Linux.Restore.Tables.{
  HasTables, overwrite_disk-ends, succeeds, write_table-gpt, gpt_writes-HasTables,
}

-- The formatter keeps to the partition: the loop device that it is given maps no other byte.
unfoldable pub KeepsToPartition : World → PartitionTableRequest → Type 0
KeepsToPartition world table =
    (disk : ℕ → ℕ) (i : ℕ)
    → (i < table.layout.start_offset) ⊎ (table.layout.start_offset + table.layout.length ≤ i)
    → world.tool_writes disk i ≡ disk i

-- A formatting that succeeds runs the tool once and changes nothing else.
format_and_reread-runs :
    (qt : Qt) (request : RestoreRequest) (world : World) (start : ℕ) (s : System) (n : ℕ)
    → (format_and_reread qt request world start s).result ≡ ok n
    → (format_and_reread qt request world start s).system
      ≡ record s { disk = world.tool_writes s.disk }
unfolding format_and_reread ◌>>=◌ give report run_tool
format_and_reread-runs qt request world start s n h = ground arith

await_partition-keeps :
    (qt : Qt) (world : World) (name : Text) (n : ℕ) (s : System)
    → (await_partition qt world name n s).system ≡ s
unfolding await_partition ◌>>=◌ give report
await_partition-keeps qt world name n s = ground arith

formatted-HasTables :
    (world : World) (table : PartitionTableRequest) (disk : ℕ → ℕ)
    → FitsGpt table
    → KeepsToPartition world table
    → HasTables table disk
    → HasTables table (world.tool_writes disk)
unfolding KeepsToPartition
formatted-HasTables world table disk fits keeps h =
    let p = build_gpt_primary-IsPrimaryImage table fits.sectors in
    let size = p.size in
    let a = fits.clear_of_primary in
    let b = fits.clear_of_backup in
    record {
      primary = λ j l. keeps disk j (inl (omega arith)) ∙ h.primary j l;
      backup = λ j l. keeps disk (gpt_backup_offset table + j) (inr (omega arith)) ∙ h.backup j l;
    }

written-HasTables :
    (table : PartitionTableRequest) (ready : Ready) (s : System) (u : Unit {0})
    → ready.table ≡ table
    → table.style ≡ gpt
    → FitsGpt table
    → (overwrite_disk ready s).result ≡ ok u
    → HasTables table ((overwrite_disk ready s).system.disk)
written-HasTables table ready s u same g fits h =
    let (t, e, sys) = overwrite_disk-ends ready s u h in
    subst (λ (z : System). HasTables table z.disk) (sym sys)
      (subst (λ (m : Act (Unit {0})). (m t).result ≡ ok u → HasTables table (m t).system.disk)
        (sym (ap write_table same ∙ write_table-gpt table g)) (gpt_writes-HasTables table t u fits)
        e)

not_empty :
    (table : PartitionTableRequest)
    → is_writable_partition_request table ≡ none
    → table.layout.length ≢ 0
unfolding is_writable_partition_request partition_layout_error
not_empty table h = ground arith

table-FitsGpt :
    (request : RestoreRequest) (world : World) (disk : DiskInfo)
    → request.style ≡ gpt
    → IsU64 disk.size
    → is_writable_partition_request (table_request request world disk) ≡ none
    → FitsGpt (table_request request world disk)
table-FitsGpt request world disk g word h =
    let table = table_request request world disk in
    let l = calculate_gpt_layout-IsLayoutFor disk.size disk.sector_size (not_empty table h) in
    let b = l.clear_of_backup in is_writable-FitsGpt table g (omega arith) h

must-keeps : (test : Bool) (stop : Stop) (s : System) → (must test stop s).system ≡ s
unfolding give
must-keeps test stop s = refl

some-injective : (a b : DiskInfo) → some a ≡ some b → a ≡ b
some-injective a b e = cc

-- Behind a GPT restore that succeeds, both partition tables of the computed layout stand on the
-- disk, byte for byte, where the size of the disk is a 64-bit number and the formatter keeps to
-- the bytes of the partition that its loop device maps.
pub perform_linux_restore-HasTables :
    (qt : Qt) (file_name : Text → Text) (request : RestoreRequest) (world : World) (s : System)
    (disk : DiskInfo) (place : Text)
    → request.style ≡ gpt
    → world.refreshed ≡ some disk
    → IsU64 disk.size
    → KeepsToPartition world (table_request request world disk)
    → (perform_linux_restore qt file_name request world s).result ≡ ok place
    → HasTables
        (table_request request world disk)
        ((perform_linux_restore qt file_name request world s).system.disk)
unfolding perform_linux_restore
perform_linux_restore-HasTables qt file_name request world s disk place g found word keeps h =
    let (d, r1, h1, e1) = succeeds (find_disk qt request world) _ s place h in
    let f = find_disk-IsFound qt request world s d r1 in
    let (ready, r2, h2, e2) = succeeds (claim_disk qt request world d) _ _ place h1 in
    let (c, same) = claim_disk-IsClaimed qt request world d _ ready r2 in
    let (u, r3, h3, e3) = succeeds (overwrite_disk ready) _ _ place h2 in
    let (_, _, h4, e4) = succeeds (must world.flushes flush_failed) _ _ place h3 in
    let (n, r5, h5, e5) = succeeds (format_and_reread qt request world _) _ _ place h4 in
    let last : System → System = λ z. record z { disk = world.tool_writes z.disk } in
    let sys =
      e1
      ∙ (e2
          ∙ (e3
              ∙ (e4
                  ∙ (e5
                      ∙ (await_partition-keeps qt world (file_name d.device_id) n _
                          ∙ (format_and_reread-runs qt request world _ _ n r5
                              ∙ ap last (must-keeps world.flushes flush_failed _))))))) in
    let same_disk : d ≡ disk = some-injective d disk (sym f.found ∙ found) in
    let fits =
      table-FitsGpt request world d g (subst (λ (x : DiskInfo). IsU64 x.size) (sym same_disk) word)
        c.writable in
    let there =
      written-HasTables (table_request request world d) ready _ u (ap (λ (r : Ready). r.table) same)
        g fits r3 in
    let formatted =
      formatted-HasTables world (table_request request world d) _ fits
        (subst (λ x. KeepsToPartition world (table_request request world x)) (sym same_disk) keeps)
        there in
    subst
      (λ x.
        HasTables (table_request request world x)
          ((perform_linux_restore qt file_name request world s).system.disk))
      same_disk
      (subst (λ (z : System). HasTables (table_request request world d) z.disk) (sym sys) formatted)
