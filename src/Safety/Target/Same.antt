-- ===== src/Safety/Target/Same.antt =====
-- core/safety.cpp, isSameRestoreTarget(): what the disk that is read again shares with the selected.
use usb_restoration_tool.Text.{Text, text_eq, is_empty, is_empty-eq, text_eq-eq, text_eq_refl}
use usb_restoration_tool.Qt.{Qt}
use usb_restoration_tool.Disk.{DiskInfo}
use usb_restoration_tool.Safety.Target.{
  normalized_identity, both_known_and_different, known_identifiers, is_same_device_sequence,
  is_same_restore_target, is_some,
}
use usb_restoration_tool.Prelude.{
  ℕ, ◌≡◌, refl, ◌≢◌, ◌↔◌, ◌⊎◌, inl, inr, true, false, not, ◌&&◌, Option, none, some, [], arith,
  Bool-cases,
}

-- Two identifiers agree if one side lacks it, or they are equal up to case and outer white space.
abbrev pub Agree : Qt → Text → Text → Type 0
Agree qt a b =
    (normalized_identity qt a ≡ [])
    ⊎ ((normalized_identity qt b ≡ []) ⊎ (normalized_identity qt a ≡ normalized_identity qt b))

pub record IsSame (qt : Qt) (selected current : DiskInfo) : Type 0 where
  pub device : normalized_identity qt selected.device_id ≡ normalized_identity qt current.device_id
  pub size : selected.size ≡ current.size
  pub instance_known :
      (e : ℕ) → selected.device_sequence ≡ some e → (e ≢ 0) × (current.device_sequence ≡ some e)
  pub sectors :
      (selected.sector_size ≡ 0)
      ⊎ ((current.sector_size ≡ 0) ⊎ (selected.sector_size ≡ current.sector_size))
  pub serial_number : Agree qt selected.serial_number current.serial_number
  pub unique_id : Agree qt selected.unique_id current.unique_id
  pub path : Agree qt selected.path current.path
  pub name : Agree qt selected.name current.name

not_different-Agree :
    (qt : Qt) (a b : Text) → both_known_and_different qt a b ≡ false → Agree qt a b
unfolding both_known_and_different
not_different-Agree qt a b h =
    let x = normalized_identity qt a in
    let y = normalized_identity qt b in
    elim (Bool-cases (is_empty x)) [
      | inl e ↦ inl (is_empty-eq x e)
      | inr nx ↦ elim (Bool-cases (is_empty y)) [
        | inl e ↦ inr (inl (is_empty-eq y e))
        | inr ny ↦ inr (inr (text_eq-eq x y (ground arith)))
      ]
    ]

eq-is_empty : (t : Text) → t ≡ [] → is_empty t ≡ true
unfolding is_empty
eq-is_empty t e = rw e

Agree-not_different :
    (qt : Qt) (a b : Text) → Agree qt a b → both_known_and_different qt a b ≡ false
unfolding both_known_and_different
Agree-not_different qt a b (inl e) = ground (arith, eq-is_empty (normalized_identity qt a) e)
Agree-not_different qt a b (inr (inl e)) = ground (arith, eq-is_empty (normalized_identity qt b) e)
Agree-not_different qt a b (inr (inr e)) =
    let same : text_eq (normalized_identity qt a) (normalized_identity qt b) ≡ true =
      rw e (text_eq_refl (normalized_identity qt b)) in
    ground arith

instance_of :
    (selected current : Option ℕ)
    → (is_some selected && not (is_same_device_sequence selected current)) ≡ false
    → (e : ℕ) → selected ≡ some e
    → (e ≢ 0) × (current ≡ some e)
unfolding is_same_device_sequence
instance_of selected current h e p = ground arith

instance_test :
    (selected current : Option ℕ)
    → ((e : ℕ) → selected ≡ some e → (e ≢ 0) × (current ≡ some e))
    → (is_some selected && not (is_same_device_sequence selected current)) ≡ false
unfolding is_same_device_sequence
instance_test none current h = refl
instance_test (some e) current h = let (n, q) = h e refl in ground arith

only_accepts : (qt : Qt) (s c : DiskInfo) → is_same_restore_target qt s c ≡ none → IsSame qt s c
unfolding is_same_restore_target known_identifiers
only_accepts qt s c h = record {
  device =
      text_eq-eq (normalized_identity qt s.device_id) (normalized_identity qt c.device_id)
        (ground arith);
  size = ground arith;
  instance_known = instance_of s.device_sequence c.device_sequence (ground arith);
  sectors = ground arith;
  serial_number = not_different-Agree qt s.serial_number c.serial_number (ground arith);
  unique_id = not_different-Agree qt s.unique_id c.unique_id (ground arith);
  path = not_different-Agree qt s.path c.path (ground arith);
  name = not_different-Agree qt s.name c.name (ground arith);
}

accepts : (qt : Qt) (s c : DiskInfo) → IsSame qt s c → is_same_restore_target qt s c ≡ none
unfolding is_same_restore_target known_identifiers
accepts qt s c same =
    let device : text_eq (normalized_identity qt s.device_id) (normalized_identity qt c.device_id)
        ≡ true =
      rw same.device (text_eq_refl (normalized_identity qt c.device_id)) in
    ground (
      arith,
      instance_test s.device_sequence c.device_sequence same.instance_known,
      Agree-not_different qt s.serial_number c.serial_number same.serial_number,
      Agree-not_different qt s.unique_id c.unique_id same.unique_id,
      Agree-not_different qt s.path c.path same.path,
      Agree-not_different qt s.name c.name same.name,
    )

-- A disk is taken for the selected one exactly when it has the same device path and size, the same
-- non-zero sequence number if the selection has one, and the same sector size, serial number,
-- unique identifier, path and name as far as both sides know them.
pub is_same_restore_target-IsSame :
    (qt : Qt) (selected current : DiskInfo)
    → (is_same_restore_target qt selected current ≡ none) ↔ IsSame qt selected current
is_same_restore_target-IsSame qt selected current =
    (only_accepts qt selected current, accepts qt selected current)
