-- ===== src/Linux/Loop/Sessions.antt =====
-- linux/block_device.cpp, class LoopDevice: whatever is called in whatever order, and what the
-- destructor leaves.
use usb_restoration_tool.Linux.Loop.{
  Mapping, Kernel, LoopDevice, Driver, Effect, configure, prepare_for_formatting, detach, clean,
  mapping_of,
}
use usb_restoration_tool.Linux.Loop.Tracked.{
  in_use, idle, busy_on, Configures, configured, refused, configure-Configures,
}
use usb_restoration_tool.Prelude.{
  ℕ, ◌≡◌, refl, true, false, Option, none, some, List, [], ◌∷◌, arith,
}

pub data Call : Type 0 where
  to_configure : ℕ → ℕ → ℕ → Driver → Call
  to_prepare : Option ℕ → ℕ → Call
  to_detach : Option ℕ → Option ℕ → Call

unfoldable pub perform : Call → LoopDevice → Kernel → Effect
perform (to_configure offset len sector_size driver) d k =
    configure offset len sector_size driver d k
perform (to_prepare flushed errno) d k = prepare_for_formatting flushed errno d k
perform (to_detach synced cleared) d k = detach synced cleared d k

unfoldable pub perform_all : List Call → LoopDevice → Kernel → LoopDevice × Kernel
unfolding perform
perform_all [] d k = (d, k)
perform_all (call ∷ calls) d k =
    let one = perform call d k in perform_all calls one.device one.kernel

-- The device knows every descriptor and mapping that the kernel holds for it: none, the mapping with
-- its claim, or the mapping alone. Each mapping goes with its last descriptor.
pub data IsTracked (c : ℕ) (d : LoopDevice) (k : Kernel) : Type 0 where
  unmapped : d ≡ idle none → k ≡ clean c → IsTracked c d k
  claimed :
      (n : ℕ) (m : Mapping) → m.autoclear ≡ true → d ≡ busy_on n → k ≡ in_use c m → IsTracked c d k
  released :
      (n : ℕ) (m : Mapping)
      → m.autoclear ≡ true
      → d ≡ record { fd = true; claim_fd = false; path = some n }
      → k ≡ record { controls = c; claims = 0; works = 1; mapping = some m }
      → IsTracked c d k

Configures-IsTracked :
    (offset len sector_size : ℕ) (driver : Driver) (c : ℕ) (after : Effect)
    → Configures offset len sector_size driver c after
    → IsTracked c after.device after.kernel
Configures-IsTracked offset len sector_size driver c after (configured n size kind e s b v d k) =
    claimed n (mapping_of offset len sector_size) refl d k
Configures-IsTracked offset len sector_size driver c after (refused e d k) = unmapped d k

configure-IsTracked :
    (offset len sector_size : ℕ) (driver : Driver) (c : ℕ) (d : LoopDevice) (k : Kernel)
    → IsTracked c d k
    → let after = configure offset len sector_size driver d k in
      IsTracked c after.device after.kernel
unfolding configure
configure-IsTracked offset len sector_size driver c d k (unmapped e f) =
    rw (e, f)
      (Configures-IsTracked offset len sector_size driver c
        (configure offset len sector_size driver (idle none) (clean c))
        (configure-Configures offset len sector_size driver c))
configure-IsTracked offset len sector_size driver c d k (claimed n m a e f) =
    rw (e, f) (claimed n m a refl refl)
configure-IsTracked offset len sector_size driver c d k (released n m a e f) =
    rw (e, f) (released n m a refl refl)

prepare-IsTracked :
    (flushed : Option ℕ) (errno c : ℕ) (d : LoopDevice) (k : Kernel)
    → IsTracked c d k
    → let after = prepare_for_formatting flushed errno d k in IsTracked c after.device after.kernel
unfolding prepare_for_formatting
prepare-IsTracked flushed errno c d k (unmapped e f) = rw (e, f) (unmapped refl refl)
prepare-IsTracked none errno c d k (claimed n m a e f) = rw (e, f) (released n m a refl refl)
prepare-IsTracked (some code) errno c d k (claimed n m a e f) = rw (e, f) (claimed n m a refl refl)
prepare-IsTracked none errno c d k (released n m a e f) = rw (e, f) (released n m a refl refl)
prepare-IsTracked (some code) errno c d k (released n m a e f) =
    rw (e, f) (released n m a refl refl)

-- The end of a mapping, which needs no answer of the kernel.
abbrev IsReleased : ℕ → Effect → Type 0
IsReleased c after = (after.device ≡ idle none) × (after.kernel ≡ clean c)

detach-IsReleased :
    (synced cleared : Option ℕ) (c : ℕ) (d : LoopDevice) (k : Kernel)
    → IsTracked c d k
    → IsReleased c (detach synced cleared d k)
unfolding detach
detach-IsReleased synced cleared c d k (unmapped e f) = rw (e, f) (refl, refl)
detach-IsReleased synced none c d k (claimed n m a e f) = rw (e, f) (refl, refl)
detach-IsReleased synced (some code) c d k (claimed n m a e f) = rw (e, f) (refl, ground arith)
detach-IsReleased synced none c d k (released n m a e f) = rw (e, f) (refl, refl)
detach-IsReleased synced (some code) c d k (released n m a e f) = rw (e, f) (refl, ground arith)

perform-IsTracked :
    (call : Call) (c : ℕ) (d : LoopDevice) (k : Kernel)
    → IsTracked c d k
    → IsTracked c (perform call d k).device (perform call d k).kernel
unfolding perform
perform-IsTracked (to_configure offset len sector_size driver) c d k h =
    configure-IsTracked offset len sector_size driver c d k h
perform-IsTracked (to_prepare flushed errno) c d k h = prepare-IsTracked flushed errno c d k h
perform-IsTracked (to_detach synced cleared) c d k h =
    let r = detach-IsReleased synced cleared c d k h in unmapped r.0 r.1

-- Whatever is called in whatever order, and whatever the kernel answers, the device and the kernel
-- agree about the descriptors and the mapping of the device, so that none is forgotten.
pub perform_all-IsTracked :
    (calls : List Call) (c : ℕ) (d : LoopDevice) (k : Kernel)
    → IsTracked c d k
    → IsTracked c (perform_all calls d k).0 (perform_all calls d k).1
unfolding perform_all
perform_all-IsTracked [] c d k h = h
perform_all-IsTracked (call ∷ calls) c d k h =
    let one = perform call d k in
    perform_all-IsTracked calls c one.device one.kernel (perform-IsTracked call c d k h)

-- The destructor detaches; behind any calls on a new device, and whatever the kernel answers to it,
-- no descriptor and no mapping of the device is left.
pub detach-perform_all :
    (calls : List Call) (synced cleared : Option ℕ) (c : ℕ)
    → let state = perform_all calls (idle none) (clean c) in
      let after = detach synced cleared state.0 state.1 in
      (after.device ≡ idle none) × (after.kernel ≡ clean c)
detach-perform_all calls synced cleared c =
    let state = perform_all calls (idle none) (clean c) in
    detach-IsReleased synced cleared c state.0 state.1
      (perform_all-IsTracked calls c (idle none) (clean c) (unmapped refl refl))
