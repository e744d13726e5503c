-- ===== src/Bytes.antt =====
-- QByteArray as its size and the byte at each position, with the writes of core/partition_table.cpp.
use usb_restoration_tool.Text.{Text}
use usb_restoration_tool.Prelude.{
  ℕ, zero, suc, ◌+◌, ◌-◌, ◌*◌, ◌/◌, ◌%◌, ◌≤◌, ◌<◌, ◌≡◌, refl, ◌∙◌, ◌⊎◌, inl, inr, ◌&&◌, List, [],
  ◌∷◌, arith, min, ltb, leb, ◌==◌, if◌then◌else◌, ltb→lt, lt→ltb, Bool-cases, length, get_or, take,
  u32_mod, IsU16, IsU64,
}

pub record Bytes : Type 0 where
  pub size : ℕ
  pub byte : ℕ → ℕ

abbrev pub AllU16 : Text → Type 0
AllU16 [] = Unit {0}
AllU16 (u ∷ us) = IsU16 u × AllU16 us

-- QByteArray(size, '\0').
abbrev pub zeros : ℕ → Bytes
zeros n = record { size = n; byte = λ j. 0 }

abbrev pub of_list : List ℕ → Bytes
of_list xs = record { size = length xs; byte = λ j. get_or xs j 0 }

-- buffer[offset] = value, as a char.
abbrev pub put : Bytes → ℕ → ℕ → Bytes
put b i v = record b { byte = λ j. if i == j then v else b.byte j }

-- The `length` low bytes of `value`, the lowest first: one pass of the loop for each byte.
unfoldable pub write_le : ℕ → Bytes → ℕ → ℕ → Bytes
write_le zero b offset value = b
write_le (suc n) b offset value = write_le n (put b offset (value % 256)) (offset + 1) (value / 256)

unfoldable pub write_le16 : Bytes → ℕ → ℕ → Bytes
unfolding write_le
write_le16 b offset value = write_le 2 b offset value

unfoldable pub write_le32 : Bytes → ℕ → ℕ → Bytes
unfolding write_le
write_le32 b offset value = write_le 4 b offset value

unfoldable pub write_le64 : Bytes → ℕ → ℕ → Bytes
unfolding write_le
write_le64 b offset value = write_le 8 b offset value

-- The first `count` bytes of `value`, to the positions from `offset`.
abbrev pub blit : Bytes → ℕ → Bytes → ℕ → Bytes
blit b offset value count = record b {
  byte = λ j. if leb offset j && ltb (j - offset) count then value.byte (j - offset) else b.byte j;
}

unfoldable pub write_bytes : Bytes → ℕ → Bytes → ℕ → Bytes
write_bytes b offset value len = blit b offset value (min len value.size)

-- One loop pass for each UTF-16 unit of the text.
unfoldable pub write_units : Bytes → ℕ → Text → Bytes
unfolding write_le16
write_units b offset [] = b
write_units b offset (u ∷ us) = write_units (write_le16 b offset u) (offset + 2) us

-- QByteArray::append.
abbrev pub append : Bytes → Bytes → Bytes
append a b = record {
  size = a.size + b.size;
  byte = λ j. if ltb j a.size then a.byte j else b.byte (j - a.size);
}

-- QByteArray::left.
abbrev pub left : Bytes → ℕ → Bytes
left b n = record b { size = min n b.size }

bytes_from : (ℕ → ℕ) → ℕ → ℕ → List ℕ
bytes_from f zero i = []
bytes_from f (suc n) i = f i ∷ bytes_from f n (i + 1)

unfoldable pub to_list : Bytes → List ℕ
unfolding bytes_from
to_list b = bytes_from b.byte b.size 0

-- The number that `n` bytes from `offset` stand for, the lowest first.
unfoldable pub read_le : ℕ → Bytes → ℕ → ℕ
read_le zero b offset = 0
read_le (suc n) b offset = b.byte offset + 256 * read_le n b (offset + 1)

-- A write leaves the other positions alone.
write_le-other :
    (n : ℕ) (b : Bytes) (offset value j : ℕ)
    → (j < offset) ⊎ (offset + n ≤ j)
    → (write_le n b offset value).byte j ≡ b.byte j
unfolding write_le
write_le-other zero b offset value j h = refl
write_le-other (suc n) b offset value j h = ground (
  arith,
  write_le-other n (put b offset (value % 256)) (offset + 1) (value / 256) j (ground arith),
)

write_le-size : (n : ℕ) (b : Bytes) (offset value : ℕ) → (write_le n b offset value).size ≡ b.size
unfolding write_le
write_le-size zero b offset value = refl
write_le-size (suc n) b offset value =
    write_le-size n (put b offset (value % 256)) (offset + 1) (value / 256)

module _ (b : Bytes) (offset value j : ℕ) where
  pub write_le16-other :
      (j < offset) ⊎ (offset + 2 ≤ j) → (write_le16 b offset value).byte j ≡ b.byte j
  unfolding write_le16
  write_le16-other h = write_le-other 2 b offset value j h

  pub write_le32-other :
      (j < offset) ⊎ (offset + 4 ≤ j) → (write_le32 b offset value).byte j ≡ b.byte j
  unfolding write_le32
  write_le32-other h = write_le-other 4 b offset value j h

  pub write_le64-other :
      (j < offset) ⊎ (offset + 8 ≤ j) → (write_le64 b offset value).byte j ≡ b.byte j
  unfolding write_le64
  write_le64-other h = write_le-other 8 b offset value j h

pub write_bytes_at :
    (b value : Bytes) (offset len i : ℕ)
    → i < len
    → i < value.size
    → (write_bytes b offset value len).byte (offset + i) ≡ value.byte i
unfolding write_bytes
write_bytes_at b value offset len i h k =
    let e : offset + i - offset ≡ i = omega arith in rw e (ground arith)

-- A field that was zero is zero again after a value is written to it and cleared.
pub write_le32-clear :
    (b : Bytes) (value j : ℕ)
    → b.byte 16 ≡ 0
    → b.byte 17 ≡ 0
    → b.byte 18 ≡ 0
    → b.byte 19 ≡ 0
    → (write_le32 (write_le32 b 16 value) 16 0).byte j ≡ b.byte j
unfolding write_le32
write_le32-clear b value j h h' k k' = ground arith

-- The positions outside the text's stay.
pub write_units-other :
    (us : Text) (b : Bytes) (offset j : ℕ)
    → (j < offset) ⊎ (offset + 2 * length us ≤ j)
    → (write_units b offset us).byte j ≡ b.byte j
unfolding write_units
write_units-other [] b offset j h = refl
write_units-other (u ∷ us) b offset j h =
    write_units-other us (write_le16 b offset u) (offset + 2) j (ground arith)
    ∙ write_le16-other b offset u j (ground arith)

read_two :
    (b : Bytes) (offset u : ℕ)
    → IsU16 u
    → b.byte offset ≡ u % 256
    → b.byte (offset + 1) ≡ u / 256 % 256
    → read_le 2 b offset ≡ u
unfolding read_le
read_two b offset u h e e' = omega arith

read_first :
    (us : Text) (b : Bytes) (offset u : ℕ)
    → IsU16 u
    → read_le 2 (write_units (write_le16 b offset u) (offset + 2) us) offset ≡ u
unfolding write_le16
read_first us b offset u h =
    let b' = write_le16 b offset u in
    read_two (write_units b' (offset + 2) us) offset u h
      (write_units-other us b' (offset + 2) offset (omega arith) ∙ ground arith)
      (write_units-other us b' (offset + 2) (offset + 1) (omega arith) ∙ ground arith)

-- Each unit of a text can be read back.
pub read-write_units :
    (us : Text) (b : Bytes) (offset i : ℕ)
    → i < length us
    → AllU16 us
    → read_le 2 (write_units b offset us) (offset + 2 * i) ≡ get_or us i 0
unfolding write_units
read-write_units [] b offset i h w = elim h [ ]
read-write_units (u ∷ us) b offset zero h w =
    let e : offset + 2 * 0 ≡ offset = omega arith in rw e (read_first us b offset u w.0)
read-write_units (u ∷ us) b offset (suc i) h w =
    let e : offset + 2 * suc i ≡ offset + 2 + 2 * i = omega arith in
    rw e (read-write_units us (write_le16 b offset u) (offset + 2) i (omega arith) w.1)

-- Eight and four bytes of a number, put together again.
abbrev pub bytes4 : ℕ → ℕ
bytes4 v =
    v % 256
    + 256
      * (v / 256 % 256 + 256 * (v / 256 / 256 % 256 + 256 * (v / 256 / 256 / 256 % 256 + 256 * 0)))

abbrev pub bytes8 : ℕ → ℕ
bytes8 v =
    v % 256
    + 256
      * (v / 256 % 256
          + 256
            * (v / 256 / 256 % 256
                + 256
                  * (v / 256 / 256 / 256 % 256
                      + 256
                        * (v / 256 / 256 / 256 / 256 % 256
                            + 256
                              * (v / 256 / 256 / 256 / 256 / 256 % 256
                                  + 256
                                    * (v / 256 / 256 / 256 / 256 / 256 / 256 % 256
                                        + 256
                                          * (v / 256 / 256 / 256 / 256 / 256 / 256 / 256 % 256
                                              + 256 * 0)))))))

pub bytes8_lem : (v : ℕ) → IsU64 v → bytes8 v ≡ v
bytes8_lem v h = omega arith

pub bytes4_lem : (v : ℕ) → bytes4 v ≡ v % u32_mod
bytes4_lem v = omega arith

-- Where two byte strings agree, they hold the same number.
pub read_le-agree :
    (n : ℕ) (b c : Bytes) (offset : ℕ)
    → ((j : ℕ) → offset ≤ j → j < offset + n → b.byte j ≡ c.byte j)
    → read_le n b offset ≡ read_le n c offset
unfolding read_le
read_le-agree zero b c offset same = refl
read_le-agree (suc n) b c offset same =
    let rest = read_le-agree n b c (offset + 1) (λ j h k. same j (omega arith) (omega arith)) in
    omega (arith, same offset (omega arith) (omega arith), rest)

pub write_units-size :
    (us : Text) (b : Bytes) (offset : ℕ) → (write_units b offset us).size ≡ b.size
unfolding write_units
write_units-size [] b offset = refl
write_units-size (u ∷ us) b offset = write_units-size us (write_le16 b offset u) (offset + 2)

pub AllU16-take : (n : ℕ) (us : Text) → AllU16 us → AllU16 (take n us)
AllU16-take zero us h = tt
AllU16-take (suc n) [] h = tt
AllU16-take (suc n) (u ∷ us) h = (h.0, AllU16-take n us h.1)

-- The byte of the second part.
pub append_second : (a b : Bytes) (n j : ℕ) → n ≡ a.size → (append a b).byte (n + j) ≡ b.byte j
append_second a b n j h =
    let e : n + j - a.size ≡ j = omega arith in
    elim (Bool-cases (ltb (n + j) a.size)) [
      | inl t ↦ absurd (omega (arith, ltb→lt (n + j) a.size t))
      | inr f ↦ rw (f, e)
    ]

pub append_first : (a b : Bytes) (j : ℕ) → j < a.size → (append a b).byte j ≡ a.byte j
append_first a b j h = rw (lt→ltb j a.size h)
