-- ===== src/Protocol/Arguments/RoundTrip.antt =====
-- core/restore_protocol.cpp: the helper reads back what the application wrote.
pub mod Sent
use usb_restoration_tool.Text.{Text, text, contains}
use usb_restoration_tool.Qt.{Qt}
use usb_restoration_tool.Disk.{
  DiskInfo, no_disk, PartitionStyle, mbr, gpt, FileSystemType, file_system_type_token, parse-token,
}
use usb_restoration_tool.Safety.Layout.{is_mbr}
use usb_restoration_tool.Language.{
  Language, english, german, system, LocaleLanguage, resolve_language, resolve_language-ne-system,
}
use usb_restoration_tool.Protocol.Decimal.{number, parse-number}
use usb_restoration_tool.Protocol.Arguments.{
  RestoreArguments, no_arguments, is_plausible_device_node_path, is_valid_volume_label,
  expect_serial_flag, expect_sector_size_flag, expect_unique_id_flag, expect_size_flag,
  expect_path_flag, label_flag, file_system_flag, language_flag, expect_name_flag, style_flag,
  device_flag, expect_sequence_flag,
}
use usb_restoration_tool.Protocol.Arguments.Build.{
  is_known, language_word, arguments_for, build_restore_arguments, if_known,
}
use usb_restoration_tool.Protocol.Arguments.Parse.{
  Collected, nothing_collected, collect, take_option, take_sequence, take_language,
  parse_restore_arguments, check_collected, parse_style, parse_positive, expect, positive,
  sequence_result,
}
use usb_restoration_tool.Prelude.{
  ℕ, ◌-◌, ◌≤◌, ◌<◌, ◌≡◌, refl, ap, ◌∙◌, ◌≢◌, Bool, true, false, Option, none, some, List, [], ◌∷◌,
  arith, if◌then◌else◌, ok, ◌>>=◌, ◌>>◌, u64_mod,
}

-- What the options of a disk are collected to.
abbrev pub known_or_empty : Bool → Text → Text
known_or_empty known value = if known then value else []

abbrev expected_disk : DiskInfo → Bool → Bool → Bool → Bool → DiskInfo
expected_disk disk serial unique_id path name = record no_disk {
  device_sequence = disk.device_sequence;
  serial_number = known_or_empty serial disk.serial_number;
  unique_id = known_or_empty unique_id disk.unique_id;
  path = known_or_empty path disk.path;
  name = known_or_empty name disk.name;
}

-- The local variables behind the loop.
abbrev collected :
    DiskInfo → Text → Text → Text → Language → Bool → Bool → Bool → Bool → List Text → Collected
collected disk style fs label language s u p n seen = record {
  result = record no_arguments {
    expected = expected_disk disk s u p n;
    volume_label = label;
    display_language = language;
  };
  device = disk.device_id;
  style = style;
  file_system = fs;
  size = number disk.size;
  sector_size = number disk.sector_size;
  seen = seen;
  saw_language = true;
}

-- Every flag is met for the first time, whichever identifiers are known.
abbrev seen_flags : Bool → Bool → Bool → Bool → List Text → List Text
seen_flags s u p n rest =
    let a = if s then expect_serial_flag ∷ rest else rest in
    let b = if u then expect_unique_id_flag ∷ a else a in
    let c = if p then expect_path_flag ∷ b else b in
    language_flag ∷ (if n then expect_name_flag ∷ c else c)

-- The flags in front of the identifiers.
abbrev first_flags : Option ℕ → List Text
first_flags sequence =
    let flags =
      expect_sector_size_flag ∷ expect_size_flag ∷ label_flag ∷ file_system_flag ∷ style_flag
      ∷ device_flag ∷ [] in
    elim sequence [ none ↦ flags | some n ↦ expect_sequence_flag ∷ flags ]

-- The sequence number is one that the kernel gives.
unfoldable pub IsSequence : Option ℕ → Type 0
IsSequence none = Unit
IsSequence (some n) = (◌<◌ 0 n) × (n < u64_mod)

positive-some : (n : ℕ) → ◌<◌ 0 n → positive (some n) ≡ some n
positive-some n h = ground arith

parse_positive-number :
    (n maximum : ℕ) → ◌<◌ 0 n → n ≤ maximum → parse_positive (number n) maximum ≡ some n
unfolding parse_positive
parse_positive-number n maximum h b = ap positive (parse-number n maximum b) ∙ positive-some n h

take_sequence-number :
    (c : Collected) (n : ℕ)
    → ◌<◌ 0 n
    → n < u64_mod
    → take_sequence c (number n)
      ≡ ok (expect c (record (c.result.expected) { device_sequence = some n }))
unfolding take_sequence
take_sequence-number c n h b =
    ap (sequence_result c) (parse_positive-number n (u64_mod - 1) h (omega arith))

module _ (disk : DiskInfo) (style fs label : Text) where
  abbrev with_sequence : Option ℕ → DiskInfo
  with_sequence q = record disk { device_sequence = q }

  abbrev identifiers : Bool → Bool → Bool → Bool → Language → List Text
  identifiers s u p n language = if_known s expect_serial_flag disk.serial_number (
      if_known u expect_unique_id_flag disk.unique_id (
        if_known p expect_path_flag disk.path
          (if_known n expect_name_flag disk.name (language_flag ∷ language_word language ∷ []))))

  Collects : Language → Option ℕ → Type 0
  Collects language q =
      (s u p n : Bool)
      → collect nothing_collected
          (arguments_for (with_sequence q) style fs label s u p n (language_word language))
        ≡ ok (
            collected (with_sequence q) style fs label language s u p n
              (seen_flags s u p n (first_flags q)))

  -- The local variables where the number is read.
  abbrev before_sequence : ℕ → Collected
  before_sequence k = record {
    result = record no_arguments { volume_label = label };
    device = disk.device_id;
    style = style;
    file_system = fs;
    size = number disk.size;
    sector_size = number disk.sector_size;
    seen = first_flags (some k);
    saw_language = false;
  }

  taken :
      (k : ℕ)
      → ◌<◌ 0 k
      → k < u64_mod
      → take_sequence (before_sequence k) (number k)
        ≡ ok (expect (before_sequence k) (record no_disk { device_sequence = some k }))
  taken k h b = take_sequence-number (before_sequence k) k h b

  abbrev behind_sequence : ℕ → Collected
  behind_sequence k = expect (before_sequence k) (record no_disk { device_sequence = some k })

  up_to_sequence :
      (k : ℕ) (l : Language) (s u p n : Bool)
      → collect nothing_collected
          (arguments_for (with_sequence (some k)) style fs label s u p n (language_word l))
        ≡ (take_sequence (before_sequence k) (number k) >>= λ c. collect c (identifiers s u p n l))
  unfolding collect take_option arguments_for contains
  up_to_sequence k l s u p n = ground arith

  from_sequence :
      (k : ℕ) (l : Language)
      → l ≢ system
      → (s u p n : Bool)
      → collect (behind_sequence k) (identifiers s u p n l)
        ≡ ok (
            collected
              (with_sequence (some k))
              style
              fs
              label
              l
              s
              u
              p
              n
              (seen_flags s u p n (first_flags (some k))))
  unfolding collect take_option take_language contains
  from_sequence k english ne s u p n = ground arith
  from_sequence k german ne s u p n = ground arith
  from_sequence k system ne s u p n = absurd (ne refl)

  collects : (l : Language) (q : Option ℕ) → l ≢ system → IsSequence q → Collects l q
  unfolding collect take_option take_language arguments_for contains IsSequence Collects
  collects english none ne h s u p n = ground arith
  collects german none ne h s u p n = ground arith
  collects l (some k) ne (a, b) s u p n =
      up_to_sequence k l s u p n
      ∙ (ap (λ r. r >>= λ c. collect c (identifiers s u p n l)) (taken k a b)
          ∙ from_sequence k l ne s u p n)
  collects system none ne h s u p n = absurd (ne refl)
