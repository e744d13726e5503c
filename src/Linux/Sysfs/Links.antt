-- ===== src/Linux/Sysfs/Links.antt =====
-- linux/sysfs.cpp: what the links under /sys and /dev/disk tell of a disk, and the programs.

use usb_restoration_tool.Text.{Text, text, text_eq, is_empty, starts_with}
use usb_restoration_tool.Protocol.Messages.{split_non_empty}
use usb_restoration_tool.Linux.Sysfs.{Files, sys_block, child, unescape_mount_field}
use usb_restoration_tool.Prelude.{
  ℕ, Bool, false, not, ◌&&◌, ◌||◌, List, [], ◌∷◌, ◌++◌, any, leb, ◌==◌, if◌then◌else◌, drop,
}

abbrev pub is_ascii_digit : ℕ → Bool
is_ascii_digit c = leb b'0' c && leb c b'9'

-- `[0-9]+$`, which a newline may follow.
unfoldable pub digits_to_end : Text → Bool
digits_to_end [] = false
digits_to_end (x ∷ []) = is_ascii_digit x
digits_to_end (x ∷ y ∷ []) = is_ascii_digit x && (is_ascii_digit y || y == b'\n')
digits_to_end (x ∷ y ∷ z ∷ rest) = is_ascii_digit x && digits_to_end (y ∷ z ∷ rest)

abbrev pub is_usb_controller : Text → Bool
is_usb_controller component = starts_with component (text "usb") && digits_to_end (drop 3 component)

unfoldable pub is_usb_block_device : Files → Text → Bool
unfolding is_empty digits_to_end starts_with any
is_usb_block_device files disk_name =
    let resolved = files.canonical (child sys_block disk_name) in
    if is_empty resolved
    then false
    else any (λ component. is_usb_controller component) (split_non_empty b'/' resolved)

-- The loop over the links, with the one to fall back to.
unfoldable pub first_link : Files → Text → Text → Text → Text → List Text → Text
unfolding starts_with is_empty text_eq
first_link files directory target prefix fallback [] = fallback
first_link files directory target prefix fallback (entry ∷ rest) =
    let preferred = starts_with entry prefix in
    let skips =
      (not preferred && not (is_empty fallback))
      || not (text_eq (files.canonical (child directory entry)) target) in
    let later = first_link files directory target prefix (if skips then fallback else entry) rest in
    if not skips && preferred then entry else later

unfoldable pub link_to : Files → Text → Text → Text → Text
unfolding first_link
link_to files directory device_name prefix =
    if not (files.exists directory)
    then []
    else first_link files directory (text "/dev/" ++ device_name) prefix []
        (files.entries directory)

unfoldable pub stable_device_id_link : Files → Text → Text
stable_device_id_link files disk_name =
    link_to files (text "/dev/disk/by-id") disk_name (text "usb-")

unfoldable pub label_for_partition : Files → Text → Text
label_for_partition files partition =
    unescape_mount_field files.octal (link_to files (text "/dev/disk/by-label") partition [])

-- The loop over the disks.
unfoldable pub first_parent : Files → Text → List Text → Text
unfolding text_eq
first_parent files partition [] = []
first_parent files partition (disk ∷ rest) =
    let later = first_parent files partition rest in
    if text_eq partition disk
    then later
    else if files.exists (child (child (child sys_block disk) partition) (text "partition"))
    then disk
    else later

unfoldable pub parent_disk_name : Files → Text → Text
unfolding first_parent
parent_disk_name files partition = first_parent files partition (files.directories sys_block)

abbrev pub executable_directories : List Text
executable_directories =
    text "/usr/sbin"
    ∷ text "/sbin"
    ∷ text "/usr/bin"
    ∷ text "/bin"
    ∷ text "/usr/local/sbin"
    ∷ text "/usr/local/bin"
    ∷ []

unfoldable pub first_executable : Files → Text → List Text → Text
first_executable files name [] = []
first_executable files name (directory ∷ rest) =
    let later = first_executable files name rest in
    if files.executable (child directory name) then child directory name else later

unfoldable pub find_system_executable : Files → Text → Text
unfolding first_executable
find_system_executable files name = first_executable files name executable_directories
