-- ===== src/Examples/Data.antt =====
-- The disks, requests and answers that the runs use.
use usb_restoration_tool.Text.{text, Text}
use usb_restoration_tool.Qt.{Qt}
use usb_restoration_tool.Disk.{DiskInfo, no_disk, PartitionStyle, gpt, ex_fat}
use usb_restoration_tool.Bytes.{of_list, Bytes}
use usb_restoration_tool.PartitionTable.{PartitionTableRequest}
use usb_restoration_tool.Safety.Target.{RestoreGuard}
use usb_restoration_tool.Linux.Identity.{Node, block_node}
use usb_restoration_tool.Linux.Writes.{Answer, wrote}
use usb_restoration_tool.Language.{english}
use usb_restoration_tool.Linux.Format.{finished}
use usb_restoration_tool.Linux.Restore.{RestoreRequest, World, System}
use usb_restoration_tool.Linux.Loop.{Driver, block, busy_error}
use usb_restoration_tool.Protocol.Decimal.{parse_decimal}
use usb_restoration_tool.Linux.Client.{Reader}
use usb_restoration_tool.Prelude.{
  ℕ, ◌+◌, ◌-◌, ◌^◌, true, false, ◌&&◌, ◌||◌, Option, none, some, List, [], ◌∷◌, ◌++◌, map, ltb, leb,
  ◌==◌, if◌then◌else◌, ok, ℤ, pos,
}

-- Unicode tables cut down to ASCII.
abbrev pub ascii : Qt
ascii = record {
  is_space = λ c. c == 32 || (leb 9 c && leb c 13);
  is_letter = λ c. (leb b'A' c && leb c b'Z') || (leb b'a' c && leb c b'z');
  is_letter_or_number =
      λ c. (leb b'A' c && leb c b'Z') || ((leb b'a' c && leb c b'z') || (leb b'0' c && leb c b'9'));
  is_digit = λ c. leb b'0' c && leb c b'9';
  is_control = λ c. ltb c 32 || (leb 127 c && ltb c 160);
  to_case_folded = map (λ c. if leb b'A' c && leb c b'Z' then c + 32 else c);
  to_upper = map (λ c. if leb b'a' c && leb c b'z' then c - 32 else c);
}

-- A stick of 16 GB.
abbrev pub stick : DiskInfo
stick = record no_disk {
  device_id = text "/dev/sdb";
  bus_type = 7;
  size = 16000000000;
  device_sequence = some 12;
  mount_points = text "/run/media/dave/USB" ∷ [];
}

abbrev pub guard : RestoreGuard
guard = record {
  mount_points = text "/" ∷ text "/boot" ∷ [];
  device_ids = text "/dev/nvme0n1" ∷ [];
}

abbrev pub guid : Bytes
guid = of_list (1 ∷ 2 ∷ 3 ∷ 4 ∷ 5 ∷ 6 ∷ 7 ∷ 0x48 ∷ 0x89 ∷ 10 ∷ 11 ∷ 12 ∷ 13 ∷ 14 ∷ 15 ∷ 16 ∷ [])

-- The layout of the stick, as its run in SafetyRuns.antt gives it.
abbrev pub table_of : PartitionStyle → PartitionTableRequest
table_of style = record {
  style = style;
  file_system = ex_fat;
  disk_size = 16000000000;
  sector_size = 512;
  layout = record { start_offset = 1048576; length = 15998124032 };
  disk_guid = guid;
  partition_guid = guid;
  partition_name = text "USB";
}

abbrev pub node : Node
node = record {
  is_open = true;
  status = block_node (record { major = 8; minor = 16 });
  sequence = some 12;
  listed = record { major = 8; minor = 16 };
  size = some 16000000000;
  sector_size = some 512;
  read_only = text "0";
  on_usb = true;
  current = stick;
}

-- A node that a program holds, and then a new one.
abbrev pub driver : Driver
driver = record {
  stat = ok (block (some 16000000000));
  control = none;
  attempt = λ i. record {
    free = ok 0;
    added = ok 7;
    claimed = if i == 0 then some busy_error else none;
    configured = none;
    reopened = none;
    cleared = true;
  };
}

-- A mkfs that writes the first byte of the partition.
abbrev pub world : World
world = record {
  find = λ name. text "/usr/sbin/" ++ name;
  refreshed = some stick;
  inspect_opens = true;
  inspected = node;
  cancel_before_unmount = false;
  mounts = λ n.
      record {
        device = record { major = 8; minor = 17 };
        mount_point = text "/run/media/dave/USB";
        source = text "/dev/sdb1";
      }
      ∷ [];
  umount = λ n place. 0;
  owned = record { major = 8; minor = 16 } ∷ record { major = 8; minor = 17 } ∷ [];
  guarded = text "/" ∷ [];
  opens = λ n. n == 1;
  claimed = node;
  cancel_before_table = false;
  disk_guid = guid;
  partition_guid = guid;
  loop = driver;
  cancel_before_erase = false;
  rechecked = node;
  flushes = true;
  prepared = true;
  tool_writes = λ disk i. if i == 1048576 then 0xEB else disk i;
  loop_path = text "/dev/loop0";
  run = λ arguments. finished true (text "done");
  get = λ name. text "1000";
  to_number = λ value. some 1000;
  group_of = λ uid. some 100;
  detaches = true;
  flushes_again = true;
  rereads = true;
  scanned = node;
  appears = true;
  partition_opens = true;
  partition = node;
}

abbrev pub request : RestoreRequest
request = record {
  disk = stick;
  style = gpt;
  file_system = ex_fat;
  volume_label = text "USB";
  guard = guard;
  display_language = english;
}

abbrev pub generous : List Answer
generous = wrote 5000000 ∷ wrote 5000000 ∷ wrote 512 ∷ wrote 5000000 ∷ wrote 5000000 ∷ []

abbrev pub system : System
system = record { disk = λ i. 1; answers = generous }

-- QString::toInt(), of digits alone.
abbrev pub as_int : Option ℕ → Option ℤ
as_int none = none
as_int (some n) = some (pos n)

abbrev pub digits_to_int : Text → Option ℤ
digits_to_int t = as_int (parse_decimal t (2 ^ 31 - 1))

-- The application, of version 1.2.
abbrev pub reader : Reader
reader = record {
  qt = ascii;
  to_int = digits_to_int;
  decode = λ bytes. bytes;
  our_version = text "1.2";
  translated = false;
  wording = λ mode refusal. text "refused";
}
