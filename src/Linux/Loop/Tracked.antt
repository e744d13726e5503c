-- ===== src/Linux/Loop/Tracked.antt =====
-- linux/block_device.cpp, LoopDevice::configure(): what an attempt to map the partition leaves.
use usb_restoration_tool.Safety.Sectors.{is_valid_device_range}
use usb_restoration_tool.Linux.Loop.{
  Mapping, Kernel, LoopDevice, Attempt, FileKind, Driver, Pass, mapped, again, gives_up, Tried,
  reopen_node, configure_node, claim_node, try_node, try_nodes, Effect, end_attempts, clean,
  backing_size, mapping_of, open_control, configure_size, sized, configure, controlled,
  again_if_busy,
}
use usb_restoration_tool.Prelude.{
  ℕ, zero, suc, ◌+◌, ◌≡◌, refl, sym, subst, ◌≢◌, ◌⊎◌, inl, inr, Bool, true, false, Option, none,
  some, arith, if◌then◌else◌, ok, Result-cases, Bool-cases, Option-cases,
}

abbrev pub in_use : ℕ → Mapping → Kernel
in_use controls m = record { controls = controls; claims = 1; works = 1; mapping = some m }

abbrev pub idle : Option ℕ → LoopDevice
idle path = record { fd = false; claim_fd = false; path = path }

abbrev pub busy_on : ℕ → LoopDevice
busy_on n = record { fd = true; claim_fd = true; path = some n }

-- A node is mapped and both descriptors are open, or there is no trace of the attempts but the path.
data Ends (m : Mapping) (c : ℕ) (t : Tried) : Type 0 where
  maps : (n : ℕ) → t.pass ≡ mapped → t.device ≡ busy_on n → t.kernel ≡ in_use c m → Ends m c t
  fails :
      (path : Option ℕ) → t.pass ≢ mapped → t.device ≡ idle path → t.kernel ≡ clean c → Ends m c t

Pass-cases : (p : Pass) → (p ≡ mapped) ⊎ (((e : ℕ) × (p ≡ again e)) ⊎ ((e : ℕ) × (p ≡ gives_up e)))
Pass-cases mapped = inl refl
Pass-cases (again e) = inr (inl (e, refl))
Pass-cases (gives_up e) = inr (inr (e, refl))

again_if_busy_ne : (e : ℕ) → again_if_busy e ≢ mapped
again_if_busy_ne e = ground arith

module _ (m : Mapping) (clears : m.autoclear ≡ true) (c : ℕ) where
  reopen_node-Ends :
      (a : Attempt) (n : ℕ)
      → Ends m c (
          reopen_node a
            (record { fd = false; claim_fd = true; path = some n })
            (record { controls = c; claims = 1; works = 0; mapping = some m }))
  unfolding reopen_node
  reopen_node-Ends a n = elim (Option-cases a.reopened) [
    | inl e ↦ maps n (ground arith) (ground arith) (ground arith)
    | inr (code, e) ↦ fails (some n) (ground arith) (ground arith) (ground arith)
  ]

  configure_node-Ends :
      (a : Attempt) (n : ℕ)
      → Ends m c (
          configure_node m a
            (record { fd = false; claim_fd = true; path = some n })
            (record { controls = c; claims = 1; works = 0; mapping = none }))
  unfolding configure_node
  configure_node-Ends a n = elim (Option-cases a.configured) [
    | inl e ↦ rw e (reopen_node-Ends a n)
    | inr (code, e) ↦ fails (some n) (rw e (again_if_busy_ne code)) (ground arith) (ground arith)
  ]

  claim_node-Ends : (a : Attempt) (n : ℕ) → Ends m c (claim_node m a (idle (some n)) (clean c))
  unfolding claim_node
  claim_node-Ends a n = elim (Option-cases a.claimed) [
    | inl e ↦ rw e (configure_node-Ends a n)
    | inr (code, e) ↦ fails (some n) (rw e (again_if_busy_ne code)) (ground arith) (ground arith)
  ]

  try_node-Ends :
      (a : Attempt) (busy : Bool) (path : Option ℕ)
      → Ends m c (try_node m busy a (idle path) (clean c))
  unfolding try_node
  try_node-Ends a busy path = elim (Result-cases (if busy then a.added else a.free)) [
    | inl (n, e) ↦ rw (e, try_node) (claim_node-Ends a n)
    | inr (code, e) ↦ fails path (ground arith) (ground arith) (ground arith)
  ]

  -- One pass, where every continuation from a device with no trace ends so.
  pass-Ends :
      (one : Tried) (next : LoopDevice → Kernel → ℕ → Tried)
      → Ends m c one
      → ((path : Option ℕ) (code : ℕ) → Ends m c (next (idle path) (clean c) code))
      → Ends m c (elim one.pass [
        | mapped ↦ one
        | gives_up e ↦ one
        | again e ↦ next one.device one.kernel e
      ])
  pass-Ends one next (maps n p d k) more = rw p (maps n p d k)
  pass-Ends one next (fails path p d k) more = elim (Pass-cases one.pass) [
    | inl e ↦ absurd (p e)
    | inr (inl (code, e)) ↦ rw (e, d, k) (more path code)
    | inr (inr (code, e)) ↦ rw e (fails path p d k)
  ]

  try_nodes-Ends :
      (left index : ℕ) (busy : Bool) (attempts : ℕ → Attempt) (path : Option ℕ) (code : ℕ)
      → Ends m c (try_nodes left index busy m attempts (idle path) (clean c) code)
  unfolding try_nodes
  try_nodes-Ends zero index busy attempts path code = fails path (λ e. cc) refl refl
  try_nodes-Ends (suc left) index busy attempts path code =
      pass-Ends (try_node m busy (attempts index) (idle path) (clean c))
        (λ d k e. try_nodes left (index + 1) true m attempts d k e)
        (try_node-Ends (attempts index) busy path)
        (λ p e. try_nodes-Ends left (index + 1) true attempts p e)

-- A success maps the range that was asked for, with a node and two descriptors of it, and the range
-- lies within the disk; a failure leaves no trace. The control descriptor is closed in both.
pub data Configures (offset len sector_size : ℕ) (driver : Driver) (c : ℕ) (after : Effect)
    : Type 0 where
  configured :
      (n size : ℕ) (kind : FileKind)
      → after.error ≡ none
      → driver.stat ≡ ok kind
      → backing_size kind ≡ some size
      → is_valid_device_range size offset len sector_size ≡ true
      → after.device ≡ busy_on n
      → after.kernel ≡ in_use c (mapping_of offset len sector_size)
      → Configures offset len sector_size driver c after
  refused :
      after.error ≢ none
      → after.device ≡ idle none
      → after.kernel ≡ clean c
      → Configures offset len sector_size driver c after

module _ (offset len sector_size : ℕ) (driver : Driver) (c : ℕ) where
  module _ (kind : FileKind) (stat : driver.stat ≡ ok kind) (size : ℕ)
      (sized : backing_size kind ≡ some size)
      (valid : is_valid_device_range size offset len sector_size ≡ true) where
    end_attempts-Configures :
        (t : Tried)
        → Ends (mapping_of offset len sector_size) (c + 1) t
        → Configures offset len sector_size driver c (end_attempts t)
    unfolding end_attempts
    end_attempts-Configures t (maps n p d k) =
        configured n size kind (rw p refl) stat sized valid (rw (p, d)) (ground arith)
    end_attempts-Configures t (fails path p d k) = elim (Pass-cases t.pass) [
      | inl e ↦ absurd (p e)
      | inr (inl (code, e)) ↦ refused (rw e (λ f. cc)) (ground arith) (ground arith)
      | inr (inr (code, e)) ↦ refused (rw e (λ f. cc)) (ground arith) (ground arith)
    ]

    open_control-Configures :
        Configures offset len sector_size driver c
          (open_control offset len sector_size driver (idle none) (clean c))
    unfolding open_control
    open_control-Configures = elim (Option-cases driver.control) [
      | inl e ↦
          subst
            (λ r. Configures offset len sector_size driver c (
              controlled (mapping_of offset len sector_size) driver.attempt (idle none) (clean c)
                r))
            (sym e)
            (end_attempts-Configures
              (try_nodes 8 0 false (mapping_of offset len sector_size) driver.attempt (idle none)
                (clean (c + 1)) 0)
              (try_nodes-Ends (mapping_of offset len sector_size) refl (c + 1) 8 0 false
                driver.attempt none 0))
      | inr (code, e) ↦
          subst
            (λ r. Configures offset len sector_size driver c (
              controlled (mapping_of offset len sector_size) driver.attempt (idle none) (clean c)
                r))
            (sym e) (refused (λ f. cc) refl refl)
    ]

  configure_size-Configures :
      (kind : FileKind) (size : Option ℕ)
      → driver.stat ≡ ok kind
      → backing_size kind ≡ size
      → Configures offset len sector_size driver c
          (configure_size size offset len sector_size driver (idle none) (clean c))
  unfolding configure_size
  configure_size-Configures kind none stat sized = refused (λ f. cc) refl refl
  configure_size-Configures kind (some size) stat sized =
      elim (Bool-cases (is_valid_device_range size offset len sector_size)) [
        | inl e ↦ rw e (open_control-Configures kind stat size sized e)
        | inr e ↦ rw e (refused (λ f. cc) refl refl)
      ]

  -- Whatever the loop driver answers, setting up the mapping either succeeds with the range that was
  -- asked for, checked against the size of the disk, mapped for two descriptors and released with
  -- the last of them, or fails and leaves no descriptor, no mapping and no path behind.
  pub configure-Configures :
      Configures offset len sector_size driver c
        (configure offset len sector_size driver (idle none) (clean c))
  unfolding configure
  configure-Configures = elim (Result-cases driver.stat) [
    | inl (kind, e) ↦
        subst
          (λ r.
            Configures offset len sector_size driver c
              (sized offset len sector_size driver (idle none) (clean c) r))
          (sym e) (configure_size-Configures kind (backing_size kind) e refl)
    | inr (code, e) ↦
        subst
          (λ r.
            Configures offset len sector_size driver c
              (sized offset len sector_size driver (idle none) (clean c) r))
          (sym e) (refused (λ f. cc) refl refl)
  ]
