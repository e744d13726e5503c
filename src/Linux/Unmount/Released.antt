-- ===== src/Linux/Unmount/Released.antt =====
-- linux/linux_restore.cpp, unmountDisk(): what is released, and what never is.
use usb_restoration_tool.Text.{Text}
use usb_restoration_tool.Qt.{Qt}
use usb_restoration_tool.Safety.Mounts.{is_protected_mount_point}
use usb_restoration_tool.Linux.Identity.{DeviceNumber, same_number}
use usb_restoration_tool.Linux.Unmount.{
  MountEntry, insert_mount, deepest_first, Unmounted, called, unmount_all, unmount_disk,
  needed_by_system, cannot_unmount, is_gone,
}
use usb_restoration_tool.Prelude.{
  ℕ, ◌≤◌, ◌≡◌, refl, sym, ap, subst, ◌≢◌, inl, inr, Bool, true, false, not, ◌||◌, List, [], ◌∷◌,
  map, Memᴰ, any, Memᴰ-cases, arith, max, ltb, ◌==◌, if◌then◌else◌, ok, err, Bool-cases, length,
}

-- No text is longer than the one in front of it, and the first not longer than the bound.
abbrev pub Shrinking : ℕ → List Text → Type 0
Shrinking k [] = Unit {0}
Shrinking k (x ∷ xs) = (length x ≤ k) × Shrinking (length x) xs

abbrev places : List MountEntry → List Text
places ms = map (λ (m : MountEntry). m.mount_point) ms

Shrinking-le : (k l : ℕ) (xs : List Text) → k ≤ l → Shrinking k xs → Shrinking l xs
Shrinking-le k l [] le h = tt
Shrinking-le k l (x ∷ xs) le (a, b) = (omega arith, b)

insert_mount-Shrinking :
    (m : MountEntry) (k : ℕ) (ms : List MountEntry)
    → length m.mount_point ≤ k
    → Shrinking k (places ms)
    → Shrinking k (places (insert_mount m ms))
unfolding insert_mount
insert_mount-Shrinking m k [] le h = (le, tt)
insert_mount-Shrinking m k (n ∷ ms) le (a, b) =
    elim (Bool-cases (ltb (length m.mount_point) (length n.mount_point))) [
      | inl e ↦ rw e (a, insert_mount-Shrinking m (length n.mount_point) ms (ground arith) b)
      | inr e ↦ rw e (le, (ground arith, b))
    ]

-- As long as the longest mount point.
longest : List MountEntry → ℕ
longest [] = 0
longest (m ∷ ms) = max (length m.mount_point) (longest ms)

deepest_first-Shrinking :
    (ms : List MountEntry) → Shrinking (longest ms) (places (deepest_first ms))
unfolding deepest_first longest
deepest_first-Shrinking [] = tt
deepest_first-Shrinking (m ∷ ms) =
    insert_mount-Shrinking m (longest (m ∷ ms)) (deepest_first ms) (ground arith) (
      Shrinking-le (longest ms) (longest (m ∷ ms)) (places (deepest_first ms)) (ground arith)
        (deepest_first-Shrinking ms))

inserted-Memᴰ : (m : MountEntry) (ms : List MountEntry) → Memᴰ m (insert_mount m ms)
unfolding insert_mount
inserted-Memᴰ m [] = Memᴰ.head refl
inserted-Memᴰ m (n ∷ ms) = elim (Bool-cases (ltb (length m.mount_point) (length n.mount_point))) [
  | inl e ↦ rw e (Memᴰ.tail (inserted-Memᴰ m ms))
  | inr e ↦ rw e (Memᴰ.head refl)
]

insert_mount-Memᴰ :
    (m x : MountEntry) (ms : List MountEntry) → Memᴰ x ms → Memᴰ x (insert_mount m ms)
unfolding insert_mount
insert_mount-Memᴰ m x [] h = elim h [ ]
insert_mount-Memᴰ m x (n ∷ ms) (Memᴰ.head e) =
    elim (Bool-cases (ltb (length m.mount_point) (length n.mount_point))) [
      | inl t ↦ rw t (Memᴰ.head e)
      | inr t ↦ rw t (Memᴰ.tail (Memᴰ.head e))
    ]
insert_mount-Memᴰ m x (n ∷ ms) (Memᴰ.tail h) =
    elim (Bool-cases (ltb (length m.mount_point) (length n.mount_point))) [
      | inl t ↦ rw t (Memᴰ.tail (insert_mount-Memᴰ m x ms h))
      | inr t ↦ rw t (Memᴰ.tail (Memᴰ.tail h))
    ]

deepest_first-Memᴰ : (x : MountEntry) (ms : List MountEntry) → Memᴰ x ms → Memᴰ x (deepest_first ms)
unfolding deepest_first
deepest_first-Memᴰ x [] h = elim h [ ]
deepest_first-Memᴰ x (m ∷ ms) (Memᴰ.head e) =
    subst (λ y. Memᴰ y (insert_mount m (deepest_first ms))) (sym e)
      (inserted-Memᴰ m (deepest_first ms))
deepest_first-Memᴰ x (m ∷ ms) (Memᴰ.tail h) =
    insert_mount-Memᴰ m x (deepest_first ms) (deepest_first-Memᴰ x ms h)

-- One pass of the loop, by its three tests.
by_tests :
    (P : Unmounted → Type 0) (a b c : Bool) (w x y z : Unmounted)
    → (a ≡ true → P w)
    → (b ≡ true → P x)
    → (a ≡ false → b ≡ false → c ≡ true → P y)
    → (a ≡ false → b ≡ false → c ≡ false → P z)
    → P (if a then w else if b then x else if c then y else z)
by_tests P true b c w x y z f g h k = f refl
by_tests P false true c w x y z f g h k = g refl
by_tests P false false true w x y z f g h k = h refl refl refl
by_tests P false false false w x y z f g h k = k refl refl refl

module _ (qt : Qt) (is_owned : DeviceNumber → Bool) (guarded : List Text) (umount : Text → ℕ) where
  abbrev loop : List MountEntry → Unmounted
  loop ms = unmount_all qt is_owned guarded umount ms

  -- A property of the loop from one of its entries on, by what it does with that entry.
  by_entry :
      (P : Unmounted → Type 0) (m : MountEntry) (ms : List MountEntry)
      → (is_owned m.device ≡ false → P (loop ms))
      → P (record { calls = []; result = err (needed_by_system m.mount_point) })
      → (is_protected_mount_point qt m.mount_point guarded ≡ false
          → P (called m.mount_point (loop ms)))
      → (is_protected_mount_point qt m.mount_point guarded ≡ false
          → P (record {
            calls = m.mount_point ∷ [];
            result = err (cannot_unmount m.mount_point (umount m.mount_point));
          }))
      → P (loop (m ∷ ms))
  unfolding unmount_all
  by_entry P m ms f g h k =
      by_tests P (not (is_owned m.device)) (is_protected_mount_point qt m.mount_point guarded)
        (umount m.mount_point == 0 || is_gone (umount m.mount_point)) (loop ms)
        (record { calls = []; result = err (needed_by_system m.mount_point) })
        (called m.mount_point (loop ms))
        (record {
          calls = m.mount_point ∷ [];
          result = err (cannot_unmount m.mount_point (umount m.mount_point));
        })
        (λ a. f (ground arith)) (λ b. g) (λ a b c. h b) (λ a b c. k b)

  loop-Shrinking :
      (k : ℕ) (ms : List MountEntry) → Shrinking k (places ms) → Shrinking k (loop ms).calls
  unfolding unmount_all
  loop-Shrinking k [] h = tt
  loop-Shrinking k (m ∷ ms) (le, rest) =
      by_entry (λ u. Shrinking k u.calls) m ms
        (λ o.
          Shrinking-le (length m.mount_point) k (loop ms).calls le
            (loop-Shrinking (length m.mount_point) ms rest))
        tt (λ p. (le, loop-Shrinking (length m.mount_point) ms rest)) (λ p. (le, tt))

  Spares : Unmounted → Type 0
  Spares u = (place : Text) → Memᴰ place u.calls → is_protected_mount_point qt place guarded ≡ false

  loop-Spares : (ms : List MountEntry) → Spares (loop ms)
  unfolding unmount_all Spares
  loop-Spares [] = λ place h. elim h [ ]
  loop-Spares (m ∷ ms) =
      by_entry Spares m ms (λ o. loop-Spares ms) (λ place h. elim h [ ])
        (λ p place h. elim (Memᴰ-cases place m.mount_point (loop ms).calls h) [
          | inl e ↦ subst (λ x. is_protected_mount_point qt x guarded ≡ false) (sym e) p
          | inr t ↦ loop-Spares ms place t
        ])
        (λ p place h. elim (Memᴰ-cases place m.mount_point [] h) [
          | inl e ↦ subst (λ x. is_protected_mount_point qt x guarded ≡ false) (sym e) p
          | inr t ↦ elim t [ ]
        ])

  false-owned : (m x : MountEntry) → x ≡ m → is_owned m.device ≡ false → is_owned x.device ≢ true
  false-owned m x e o w = let p = ap (λ (y : MountEntry). is_owned y.device) e in cc

  -- What is owned is released, where the loop succeeds.
  Frees : List MountEntry → Unmounted → Type 0
  Frees ms u =
      u.result ≡ ok tt
      → (m : MountEntry) → Memᴰ m ms
      → is_owned m.device ≡ true
      → Memᴰ m.mount_point u.calls

  loop-Frees : (ms : List MountEntry) → Frees ms (loop ms)
  unfolding Frees
  loop-Frees [] = λ d m h. elim h [ ]
  loop-Frees (m ∷ ms) =
      by_entry (Frees (m ∷ ms)) m ms
        (λ o d x h w. elim (Memᴰ-cases x m ms h) [
          | inl e ↦ absurd (false-owned m x e o w)
          | inr t ↦ loop-Frees ms d x t w
        ])
        (λ d. cc)
        (λ p d x h w. elim (Memᴰ-cases x m ms h) [
          | inl e ↦ Memᴰ.head (ap (λ (y : MountEntry). y.mount_point) e)
          | inr t ↦ Memᴰ.tail (loop-Frees ms d x t w)
        ])
        (λ p d. cc)

-- What the loop over the mounts of a disk promises.
pub record Releases (qt : Qt) (owned : List DeviceNumber) (mounts : List MountEntry)
    (guarded : List Text) (u : Unmounted) : Type 0 where
  pub deepest_first : (k : ℕ) × Shrinking k u.calls
  pub spares :
      (place : Text) → Memᴰ place u.calls → is_protected_mount_point qt place guarded ≡ false
  pub complete :
      u.result ≡ ok tt
      → (m : MountEntry) → Memᴰ m mounts
      → any (same_number m.device) owned ≡ true
      → Memᴰ m.mount_point u.calls

-- Whatever umount2() answers, the mount points that it is called for come the longest first, so a
-- nested mount before its parent, and none of them is one that the running system needs; where
-- unmounting the disk succeeds, it was called for every mount of the disk and its partitions.
pub unmount_disk-Releases :
    (qt : Qt) (owned : List DeviceNumber) (mounts : List MountEntry) (guarded : List Text)
    (umount : Text → ℕ)
    → Releases qt owned mounts guarded (unmount_disk qt owned mounts guarded umount)
unfolding unmount_disk Spares Frees
unmount_disk-Releases qt owned mounts guarded umount =
    let is_owned : DeviceNumber → Bool = λ d. any (same_number d) owned in
    record {
      deepest_first = (
        longest mounts,
        loop-Shrinking qt is_owned guarded umount (longest mounts) (deepest_first mounts)
            (deepest_first-Shrinking mounts),
      );
      spares = loop-Spares qt is_owned guarded umount (deepest_first mounts);
      complete = λ d m h w.
          loop-Frees qt is_owned guarded umount (deepest_first mounts) d m
            (deepest_first-Memᴰ m mounts h) w;
    }
