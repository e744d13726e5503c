-- ===== src/Lib.antt =====
-- USB Restoration Tool: erases a USB stick, writes a partition table with one partition and formats
-- it. A Qt application (src/gui) lists the disks and asks the questions; the rules that decide which
-- disk may be erased, the layout, the bytes of the table and the protocol with the privileged helper
-- are in src/core; src/linux and src/win find the disks and carry a restore out. On Linux the
-- application starts the helper (src/helper) as root, hands the request over on its command line,
-- and reads the progress line by line; the helper looks the disk up again and runs
-- performLinuxRestore().
--
-- The modules and the code they are about (paths from the root of the repository):
--   Prelude, Text, Qt, Bytes   shared helpers; QString as a list of UTF-16 units, QByteArray as its
--                              size and the byte at each position
--   Disk                       src/core/disk.h, disk.cpp: DiskInfo, the filesystem and style names
--   Language                   src/core/language.h, language.cpp: the language preference
--   Safety.Sectors             src/core/safety.cpp: sector sizes, ranges, signatureClearRange()
--   Safety.Layout              src/core/safety.cpp: calculateGptLayout(), partitionLayoutError()
--   Safety.Fat32               src/core/safety.cpp: the FAT32 cluster counts and limits
--   Safety.Mounts              src/core/safety.cpp: isProtectedMountPoint()
--   Safety.Target              src/core/safety.cpp: isSafeRestoreTarget(), isSameRestoreTarget()
--   PartitionTable             src/core/partition_table.h, partition_table.cpp: the gate in front of
--                              the writing, buildGptPrimary(), buildGptBackup(), buildMbr()
--   RestorePlan                src/core/restore_message.h, restore_message.cpp: the steps, the two
--                              plans, RestoreStepCounter
--   Protocol.Decimal           src/core/restore_protocol.cpp: parseDecimal()
--   Protocol.Arguments         src/core/restore_protocol.cpp: buildRestoreArguments(),
--                              parseRestoreArguments()
--   Protocol.Lines             src/core/restore_protocol.cpp: sanitizeProtocolText()
--   Protocol.Verdict           src/core/restore_protocol.cpp: describeRestoreExit(), judgeHelperRun()
--   Protocol.Messages          src/core/restore_protocol.cpp: encodeVersionLine() and the other
--                              encoders, parseProtocolLine(), acceptHelperAnnouncement()
--   RestorePlan.Messages       src/core/restore_message.cpp: restoreStepMessage()
--   Linux.Identity             src/linux/block_device.cpp: verifyIdentity(), verifyPartitionOf()
--   Linux.Writes               src/linux/block_device.cpp: writeAt(), writeZeros()
--   Linux.Loop                 src/linux/block_device.cpp: LoopDevice
--   Linux.Sysfs                src/linux/sysfs.h, sysfs.cpp: the mount table, the device numbers, the
--                              links, the database of udev, detectPartitionStyle()
--   Linux.Enumerate            src/linux/linux_enumerate.cpp: listUsbDiskInfos(), refreshUsbDisk(),
--                              linuxRestoreGuard(); src/core/safety.cpp: serialFromUsbByIdLink()
--   Linux.Unmount              src/linux/linux_restore.cpp: unmountDisk()
--   Linux.Format               src/linux/linux_restore.cpp: formatLinuxPartition(), desktopOwner()
--   Linux.Tools                src/linux/linux_restore.cpp: resolveFormatTool(),
--                              canCreateFileSystemOn(), partitionNameFor()
--   Linux.Restore              src/linux/linux_restore.cpp: performLinuxRestore(),
--                              formatAndRereadPartitionTable()
--   Linux.Helper               src/helper/main.cpp; src/platform/translations.cpp: catalogProbe()
--   Linux.Client               src/linux/helper_client.cpp: runHelperRestore()
--   Worker                     src/platform/restore_worker.cpp: RestoreWorker
--   Linux.Service              src/linux/linux_disk_service.cpp: privilegeMode(), restore();
--                              src/linux/helper_client.cpp: isHelperAvailable()
--   Examples                   runs, and the theorems at concrete inputs
--
-- How the code is modelled. A check that returns a Boolean and a reason is an Option of a refusal:
-- `none` is the result true, and a constructor of the refusal stands for each text, with the values
-- that the text names. The wording and the translations are not modelled. `quint32` and
-- `std::uint64_t` are natural numbers; where a sum, a difference or a product of the source could
-- leave its type, the wrap-around is written out (add64, sub64, mul64). What Qt decides by its
-- Unicode tables is a parameter, the record Qt; QLocale, findSystemExecutable() and QFileInfo are
-- function arguments. A disk is the byte at each position. `pwrite` answers from a list that the
-- calls use up, so short writes, interruptions and errors can come in any order; the kernel never
-- takes more bytes than it is offered. What else the kernel, the tools, the random generator and the
-- user answer in a restore are the fields of the record World, one for each call that the code makes.
--
-- A loop device has the counts of its open descriptors and the mapping of the kernel as its state, so
-- that what is closed on each path can be told. The client is a state machine: a pass of its loop
-- takes the bytes that the helper wrote and whether the user asks to cancel. The files of /sys, /proc
-- and /run are functions from a path, the record Files. A text that the user sees stands for itself
-- only where the code compares it or looks at whether it is empty.
--
-- Fuel. The search of fat32DataClusterCount() is given 64 halvings, which are enough for an interval
-- of 64-bit numbers. The loop of writeZeros() has fuel above the bytes that it clears, and each of
-- its passes clears at least one. The digits of a number have fuel above the number. The attempts of
-- LoopDevice::configure() are the eight of the code.
--
-- Not modelled: the application (src/gui), the Windows backend (src/win), the logger and the
-- loading of the translations (src/platform). Of the helper, the detail lines and the signals; a
-- restore has one answer for each question whether it is cancelled, and Linux.Helper.Reporter models
-- how the helper comes to that answer. Of a restore on Linux, the waiting for the device node is one
-- answer. Of the raw device, the opening, the flushing and the texts of the errors.
mod Prelude
mod Text
pub mod Qt
pub mod Disk
mod Bytes
pub mod PartitionTable
pub mod Safety
pub mod RestorePlan
pub mod Language
pub mod Protocol
pub mod Linux
pub mod Worker
mod Examples
