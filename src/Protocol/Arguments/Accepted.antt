-- ===== src/Protocol/Arguments/Accepted.antt =====
-- core/restore_protocol.cpp, parseRestoreArguments(): what holds of arguments that it accepts.
use usb_restoration_tool.Text.{Text}
use usb_restoration_tool.Qt.{Qt}
use usb_restoration_tool.Safety.Target.{RestoreGuard, is_safe_restore_target}
use usb_restoration_tool.Safety.Target.Safe.{is_safe_restore_target-IsSafe}
use usb_restoration_tool.Protocol.Decimal.{parse_decimal, parse_decimal-le}
use usb_restoration_tool.Protocol.Arguments.{
  RestoreArguments, is_plausible_device_node_path, is_valid_volume_label, gpt, PartitionStyle, mbr,
}
use usb_restoration_tool.Protocol.Arguments.Parse.{
  Collected, nothing_collected, collect, collect_one, take_option, take_sequence, take_language,
  parse_restore_arguments, check_collected, parse_positive, parse_style, positive, sequence_result,
}
use usb_restoration_tool.Prelude.{
  ℕ, ◌-◌, ◌≤◌, ◌<◌, ◌≡◌, ◌∙◌, ◌≢◌, ◌⊎◌, true, Option, none, some, List, [], ◌∷◌, arith, ok, bind-ok,
  u32_mod, u64_mod,
}

abbrev bus : Collected → ℕ
bus c = c.result.expected.bus_type

take_sequence-bus : (c d : Collected) (o : Option ℕ) → sequence_result c o ≡ ok d → bus d ≡ bus c
take_sequence-bus c d none h = cc
take_sequence-bus c d (some n) h = cc

collect_one-bus :
    (c d : Collected) (flag value : Text) → collect_one c flag value ≡ ok d → bus d ≡ bus c
unfolding collect_one take_option take_language take_sequence
collect_one-bus c d flag value h = ground arith

result-bus :
    (c : Collected) (arguments : List Text)
    → (d : Collected) → collect c arguments ≡ ok d
    → bus d ≡ bus c
unfolding collect
result-bus c [] d h = ground arith
result-bus c (flag ∷ []) d h = ground arith
result-bus c (flag ∷ value ∷ rest) d h =
    let (next, e, r) = bind-ok (collect_one c flag value) (λ next. collect next rest) d h in
    result-bus next rest d r ∙ collect_one-bus c next flag value e

positive_bounds : (o : Option ℕ) (n : ℕ) → positive o ≡ some n → (o ≡ some n) × (◌<◌ 0 n)
positive_bounds o n h = ground arith

parse_positive_bounds :
    (t : Text) (maximum n : ℕ)
    → 9 ≤ maximum
    → parse_positive t maximum ≡ some n
    → (◌<◌ 0 n) × (n ≤ maximum)
unfolding parse_positive
parse_positive_bounds t maximum n nine h =
    let (e, pos) = positive_bounds (parse_decimal t maximum) n h in
    (pos, parse_decimal-le t maximum n nine e)

-- What the last tests let through.
record IsAccepted (qt : Qt) (c : Collected) (r : RestoreArguments) : Type 0 where
  plausible : is_plausible_device_node_path qt r.expected.device_id ≡ true
  same : r.expected.display_id ≡ r.expected.device_id
  valid : is_valid_volume_label qt r.volume_label ≡ true
  style : (r.style ≡ gpt) ⊎ (r.style ≡ mbr)
  size : parse_positive c.size (u64_mod - 1) ≡ some r.expected.size
  sector_size : parse_positive c.sector_size (u32_mod - 1) ≡ some r.expected.sector_size
  bus_type : r.expected.bus_type ≡ bus c

parse_style_cases : (t : Text) (s : PartitionStyle) → parse_style t ≡ some s → (s ≡ gpt) ⊎ (s ≡ mbr)
unfolding parse_style
parse_style_cases t s h = ground arith

check_collected-IsAccepted :
    (qt : Qt) (c : Collected) (r : RestoreArguments)
    → check_collected qt c ≡ ok r
    → IsAccepted qt c r
unfolding check_collected
check_collected-IsAccepted qt c r h = record {
  plausible = ground arith;
  same = ground arith;
  valid = ground arith;
  style = parse_style_cases c.style r.style (ground arith);
  size = ground arith;
  sector_size = ground arith;
  bus_type = ground arith;
}

-- What the helper holds after it accepted its arguments.
pub record Accepted (qt : Qt) (r : RestoreArguments) : Type 0 where
  pub plausible : is_plausible_device_node_path qt r.expected.device_id ≡ true
  pub same : r.expected.display_id ≡ r.expected.device_id
  pub valid : is_valid_volume_label qt r.volume_label ≡ true
  pub style : (r.style ≡ gpt) ⊎ (r.style ≡ mbr)
  pub has_size : ◌<◌ 0 r.expected.size
  pub size_fits : r.expected.size < u64_mod
  pub has_sector : ◌<◌ 0 r.expected.sector_size
  pub sector_fits : r.expected.sector_size < u32_mod
  pub bus_type : r.expected.bus_type ≡ 0

Accepted-of :
    (qt : Qt) (c : Collected) (r : RestoreArguments) → bus c ≡ 0 → IsAccepted qt c r → Accepted qt r
Accepted-of qt c r b h =
    let (sp, sl) =
      parse_positive_bounds c.size (u64_mod - 1) r.expected.size (omega arith) h.size in
    let (tp, tl) =
      parse_positive_bounds c.sector_size (u32_mod - 1) r.expected.sector_size (omega arith)
        h.sector_size in
    record {
      plausible = h.plausible;
      same = h.same;
      valid = h.valid;
      style = h.style;
      has_size = sp;
      size_fits = omega arith;
      has_sector = tp;
      sector_fits = omega arith;
      bus_type = h.bus_type ∙ b;
    }

-- Arguments that the helper accepts name one plausible device node, under both names, with a
-- partition style, a valid label, a size and a sector size that are not 0 and fit into 64 and 32
-- bits; no argument sets the bus type, which stays 0.
pub parse_restore_arguments-Accepted :
    (qt : Qt) (arguments : List Text) (r : RestoreArguments)
    → parse_restore_arguments qt arguments ≡ ok r
    → Accepted qt r
unfolding parse_restore_arguments
parse_restore_arguments-Accepted qt arguments r h =
    let (c, e, f) = bind-ok (collect nothing_collected arguments) (check_collected qt) r h in
    Accepted-of qt c r (result-bus nothing_collected arguments c e)
      (check_collected-IsAccepted qt c r f)

-- The target as the arguments describe it is no safe target under any guard: the helper has to
-- look the device up itself.
pub accepted_arguments-unsafe :
    (qt : Qt) (arguments : List Text) (r : RestoreArguments) (guard : RestoreGuard)
    → parse_restore_arguments qt arguments ≡ ok r
    → is_safe_restore_target qt r.expected guard ≢ none
accepted_arguments-unsafe qt arguments r guard h safe =
    let a = parse_restore_arguments-Accepted qt arguments r h in
    let (safe_of, _) = is_safe_restore_target-IsSafe qt r.expected guard in
    let s = safe_of safe in let b = a.bus_type in let u = s.on_usb in omega arith
