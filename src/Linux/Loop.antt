-- ===== src/Linux/Loop.antt =====
-- linux/block_device.cpp, class LoopDevice: the mapping through which a formatter sees the new
-- partition alone. An errno is a number. `Kernel` counts the descriptors that are open on the loop
-- node and on /dev/loop-control, and holds the mapping of the node; the last close of a node ends a
-- mapping with LO_FLAGS_AUTOCLEAR. What the calls answer is an argument.
pub mod Tracked
pub mod Sessions
use usb_restoration_tool.Safety.Sectors.{is_valid_device_range}
use usb_restoration_tool.Prelude.{
  ℕ, zero, suc, ◌+◌, ◌-◌, Bool, true, false, not, ◌||◌, Option, none, some, ◌==◌, if◌then◌else◌,
  Result, ok, err,
}

-- loop_config: lo_offset, lo_sizelimit, block_size, LO_FLAGS_AUTOCLEAR.
pub record Mapping : Type 0 where
  pub offset : ℕ
  pub size_limit : ℕ
  pub block_size : ℕ
  pub autoclear : Bool

pub record Kernel : Type 0 where
  pub controls : ℕ
  pub claims : ℕ
  pub works : ℕ
  pub mapping : Option Mapping

-- m_fd >= 0, m_claimFd >= 0, and the number of the node that m_path names.
pub record LoopDevice : Type 0 where
  pub fd : Bool
  pub claim_fd : Bool
  pub path : Option ℕ

abbrev pub no_loop : LoopDevice
no_loop = record { fd = false; claim_fd = false; path = none }

-- Nothing of a device's own, with so many descriptors of /dev/loop-control elsewhere.
abbrev pub clean : ℕ → Kernel
clean controls = record { controls = controls; claims = 0; works = 0; mapping = none }

pub data LoopError : Type 0 where
  already_set_up unreadable out_of_range : LoopError
  cannot_stat no_control no_mapping not_available not_finished not_closed : ℕ → LoopError

-- EBUSY.
abbrev pub busy_error : ℕ
busy_error = 16

-- `errno` of a call that fails.
pub record Attempt : Type 0 where
  pub free : Result ℕ ℕ
  pub added : Result ℕ ℕ
  pub claimed : Option ℕ
  pub configured : Option ℕ
  pub reopened : Option ℕ
  pub cleared : Bool

pub data FileKind : Type 0 where
  regular : ℕ → FileKind
  block : Option ℕ → FileKind
  other : FileKind

pub record Driver : Type 0 where
  pub stat : Result ℕ FileKind
  pub control : Option ℕ
  pub attempt : ℕ → Attempt

abbrev pub without_autoclear : Option Mapping → Option Mapping
without_autoclear none = none
without_autoclear (some m) = if m.autoclear then none else some m

-- Behind a close of the node.
abbrev pub settled : Kernel → Kernel
settled k = record k {
  mapping = if k.claims + k.works == 0 then without_autoclear k.mapping else k.mapping;
}

abbrev pub close_claim : Kernel → Kernel
close_claim k = settled (record k { claims = k.claims - 1 })

abbrev pub close_work : Kernel → Kernel
close_work k = settled (record k { works = k.works - 1 })

-- LOOP_CLR_FD.
abbrev pub clear : Bool → Kernel → Kernel
clear true k = record k { mapping = none }
clear false k = k

pub data Pass : Type 0 where
  mapped : Pass
  again gives_up : ℕ → Pass

pub record Tried : Type 0 where
  pub device : LoopDevice
  pub kernel : Kernel
  pub pass : Pass

abbrev pub again_if_busy : ℕ → Pass
again_if_busy e = if e == busy_error then again e else gives_up e

unfoldable pub reopen_node : Attempt → LoopDevice → Kernel → Tried
reopen_node a d k = elim a.reopened [
  | none ↦ record {
    device = record d { fd = true };
    kernel = record k { works = k.works + 1 };
    pass = mapped;
  }
  | some e ↦ record {
    device = record d { claim_fd = false };
    kernel = close_claim (clear a.cleared k);
    pass = gives_up e;
  }
]

unfoldable pub configure_node : Mapping → Attempt → LoopDevice → Kernel → Tried
unfolding reopen_node
configure_node m a d k = elim a.configured [
  | none ↦ reopen_node a d (record k { mapping = some m })
  | some e ↦ record {
    device = record d { claim_fd = false };
    kernel = close_claim k;
    pass = again_if_busy e;
  }
]

unfoldable pub claim_node : Mapping → Attempt → LoopDevice → Kernel → Tried
unfolding configure_node
claim_node m a d k = elim a.claimed [
  | none ↦ configure_node m a (record d { claim_fd = true }) (record k { claims = k.claims + 1 })
  | some e ↦ record { device = record d { claim_fd = false }; kernel = k; pass = again_if_busy e }
]

-- One pass of the loop; `busy` tells whether the one before it met a busy node.
unfoldable pub try_node : Mapping → Bool → Attempt → LoopDevice → Kernel → Tried
unfolding claim_node
try_node m busy a d k = elim (if busy then a.added else a.free) [
  | err e ↦ record { device = d; kernel = k; pass = gives_up e }
  | ok number ↦ claim_node m a (record d { path = some number }) k
]

-- The loop over the attempts, with so many left.
unfoldable pub try_nodes : ℕ → ℕ → Bool → Mapping → (ℕ → Attempt) → LoopDevice → Kernel → ℕ → Tried
unfolding try_node
try_nodes zero index busy m attempts d k code = record {
  device = d;
  kernel = k;
  pass = gives_up code;
}
try_nodes (suc left) index busy m attempts d k code =
    let one = try_node m busy (attempts index) d k in
    elim one.pass [
      | mapped ↦ one
      | gives_up e ↦ one
      | again e ↦ try_nodes left (index + 1) true m attempts one.device one.kernel e
    ]

-- An operation's effect; `none` is the result true.
pub record Effect : Type 0 where
  pub device : LoopDevice
  pub kernel : Kernel
  pub error : Option LoopError

abbrev pub refuses : LoopDevice → Kernel → LoopError → Effect
refuses d k e = record { device = d; kernel = k; error = some e }

-- What stands behind the loop: the control descriptor is closed, and a failure forgets the path.
unfoldable pub end_attempts : Tried → Effect
end_attempts t =
    let k = record t.kernel { controls = t.kernel.controls - 1 } in
    elim t.pass [
      | mapped ↦ record { device = t.device; kernel = k; error = none }
      | again e ↦ refuses (record t.device { path = none }) k (no_mapping e)
      | gives_up e ↦ refuses (record t.device { path = none }) k (no_mapping e)
    ]

-- The size of the backing file.
abbrev pub backing_size : FileKind → Option ℕ
backing_size (regular size) = some size
backing_size (block answer) = answer
backing_size other = none

abbrev pub mapping_of : ℕ → ℕ → ℕ → Mapping
mapping_of offset len sector_size = record {
  offset = offset;
  size_limit = len;
  block_size = sector_size;
  autoclear = true;
}

-- Behind the opening of /dev/loop-control.
abbrev pub controlled : Mapping → (ℕ → Attempt) → LoopDevice → Kernel → Option ℕ → Effect
controlled m attempts d k (some e) = refuses d k (no_control e)
controlled m attempts d k none =
    end_attempts (try_nodes 8 0 false m attempts d (record k { controls = k.controls + 1 }) 0)

unfoldable pub open_control : ℕ → ℕ → ℕ → Driver → LoopDevice → Kernel → Effect
unfolding try_nodes end_attempts
open_control offset len sector_size driver d k =
    controlled (mapping_of offset len sector_size) driver.attempt d k driver.control

unfoldable pub configure_size : Option ℕ → ℕ → ℕ → ℕ → Driver → LoopDevice → Kernel → Effect
unfolding open_control
configure_size none offset len sector_size driver d k = refuses d k unreadable
configure_size (some size) offset len sector_size driver d k =
    if not (is_valid_device_range size offset len sector_size)
    then refuses d k out_of_range
    else open_control offset len sector_size driver d k

abbrev pub sized : ℕ → ℕ → ℕ → Driver → LoopDevice → Kernel → Result ℕ FileKind → Effect
sized offset len sector_size driver d k (err e) = refuses d k (cannot_stat e)
sized offset len sector_size driver d k (ok kind) =
    configure_size (backing_size kind) offset len sector_size driver d k

unfoldable pub configure : ℕ → ℕ → ℕ → Driver → LoopDevice → Kernel → Effect
unfolding configure_size
configure offset len sector_size driver d k =
    if d.fd || d.claim_fd
    then refuses d k already_set_up
    else sized offset len sector_size driver d k driver.stat

unfoldable pub release_claim : LoopDevice → Kernel → LoopDevice × Kernel
release_claim d k = if d.claim_fd then (record d { claim_fd = false }, close_claim k) else (d, k)

-- `flushed` is what BLKFLSBUF answers; `errno` is left from before where the device is not open.
unfoldable pub prepare_for_formatting : Option ℕ → ℕ → LoopDevice → Kernel → Effect
unfolding release_claim
prepare_for_formatting flushed errno d k =
    if not d.fd then refuses d k (not_available errno) else elim flushed [
      | some e ↦ refuses d k (not_available e)
      | none ↦
          let released = release_claim d k in
          record { device = released.0; kernel = released.1; error = none }
    ]

abbrev pub is_none {ℓ} : {A : Type ℓ} → Option A → Bool
is_none none = true
is_none (some a) = false

-- The first of the two failures is the one that is reported.
abbrev pub detach_error : Option ℕ → Option ℕ → Option LoopError
detach_error (some e) cleared = some (not_finished e)
detach_error none (some e) = some (not_closed e)
detach_error none none = none

-- `synced` and `cleared` are what fsync() and LOOP_CLR_FD answer.
unfoldable pub detach : Option ℕ → Option ℕ → LoopDevice → Kernel → Effect
unfolding release_claim
detach synced cleared d k =
    let released = release_claim d k in
    if not d.fd then record { device = released.0; kernel = released.1; error = none } else record {
      device = record released.0 { fd = false; path = none };
      kernel = close_work (clear (is_none cleared) released.1);
      error = detach_error synced cleared;
    }
