-- ===== src/Linux/Format/Attempts.antt =====
-- linux/linux_restore.cpp: what is known of the runs of mkfs.
use usb_restoration_tool.Text.{Text, text}
use usb_restoration_tool.Qt.{Qt}
use usb_restoration_tool.Disk.{FileSystemType, ex_fat, fat32, ntfs, ext4}
use usb_restoration_tool.Linux.Format.{
  DesktopOwner, environment_id, or_else, owner_with, owner_of, desktop_owner, owner_arguments,
  format_attempts, ToolRun, not_started, timed_out, finished, FormatError, looks_like_wrong_flag,
  Formatting, after_run, output_of, format_loop, format_linux_partition, number, tool_not_started,
  tool_timed_out, tool_failed,
}
use usb_restoration_tool.Prelude.{
  ℕ, ◌≤◌, ◌≡◌, refl, sym, ap, ◌∙◌, subst, ◌≢◌, ◌⊎◌, inl, inr, true, false, Option, none, some, List,
  [], ◌∷◌, ◌++◌, Memᴰ, Memᴰ-cases, arith, ◌==◌, Result, ok, err, Bool-cases, length, IsU32,
}

-- The last argument is the partition, and the label is one argument of its own.
abbrev pub EndsWith : Text → List Text → Type 0
EndsWith path arguments = (front : List Text) × (arguments ≡ front ++ path ∷ [])

pub record IsCall (path label : Text) (arguments : List Text) : Type 0 where
  pub on_partition : EndsWith path arguments
  pub labelled : Memᴰ label arguments

first_of : (a x : List Text) (ys xs : List (List Text)) → a ∷ ys ≡ x ∷ xs → a ≡ x
first_of a x ys xs e = cc

-- What a run of the tool was, with the equation.
by_run :
    (P : Formatting → Type 0) (qt : Qt) (run : List Text → ToolRun) (a : List Text)
    (later : Formatting)
    → ((e : FormatError) → P (record { runs = a ∷ []; result = err e }))
    → ((output : Text)
        → run a ≡ finished true output
        → P (record { runs = a ∷ []; result = ok tt }))
    → ((output : Text)
        → run a ≡ finished false output
        → looks_like_wrong_flag qt output ≡ true
        → P (record later { runs = a ∷ later.runs }))
    → (t : ToolRun) → run a ≡ t
    → P (after_run qt a t later)
by_run P qt run a later f g h not_started e = f tool_not_started
by_run P qt run a later f g h timed_out e = f tool_timed_out
by_run P qt run a later f g h (finished true output) e = g output e
by_run P qt run a later f g h (finished false output) e =
    elim (Bool-cases (looks_like_wrong_flag qt output)) [
      | inl w ↦ rw w (h output e w)
      | inr w ↦ rw w (f (tool_failed output))
    ]

module _ (qt : Qt) (run : List Text → ToolRun) where
  -- Every run is one of the attempts, success is that of a run, and a run with a successor failed
  -- over an option that the tool does not know.
  record Runs (attempts : List (List Text)) (f : Formatting) : Type 0 where
    attempted : (a : List Text) → Memᴰ a f.runs → Memᴰ a attempts
    few : length f.runs ≤ length attempts
    succeeded :
        f.result ≡ ok tt
        → (a : List Text) × (output : Text) × Memᴰ a f.runs × (run a ≡ finished true output)
    retried :
        (a b : List Text) (rest : List (List Text))
        → f.runs ≡ a ∷ b ∷ rest
        → (output : Text) × (run a ≡ finished false output)
          × (looks_like_wrong_flag qt output ≡ true)

  one_run :
      (a : List Text) (rest : List (List Text)) (r : Result FormatError (Unit {0}))
      → (r ≡ ok tt → (output : Text) × (run a ≡ finished true output))
      → Runs (a ∷ rest) (record { runs = a ∷ []; result = r })
  one_run a rest r h = record {
    attempted = λ x m. elim (Memᴰ-cases x a [] m) [ inl e ↦ Memᴰ.head e | inr t ↦ elim t [ ] ];
    few = omega arith;
    succeeded = λ e. let (output, q) = h e in (a, output, Memᴰ.head refl, q);
    retried = λ x y zs e. cc;
  }

  more_runs :
      (a : List Text) (rest : List (List Text)) (later : Formatting) (output : Text)
      → run a ≡ finished false output
      → looks_like_wrong_flag qt output ≡ true
      → Runs rest later
      → Runs (a ∷ rest) (record later { runs = a ∷ later.runs })
  more_runs a rest later output e w h = record {
    attempted = λ x m. elim (Memᴰ-cases x a later.runs m) [
      | inl e ↦ Memᴰ.head e
      | inr t ↦ Memᴰ.tail (h.attempted x t)
    ];
    few = let l = h.few in omega arith;
    succeeded = λ s. let (b, out, m, q) = h.succeeded s in (b, out, Memᴰ.tail m, q);
    retried = λ x y zs q. (output, ap run (sym (first_of a x later.runs (y ∷ zs) q)) ∙ e, w);
  }

  format_loop-Runs :
      (last : Text) (attempts : List (List Text)) → Runs attempts (format_loop qt run last attempts)
  unfolding format_loop
  format_loop-Runs last [] = record {
    attempted = λ a m. m;
    few = omega arith;
    succeeded = λ e. cc;
    retried = λ a b rest e. cc;
  }
  format_loop-Runs last (a ∷ rest) =
      by_run (Runs (a ∷ rest)) qt run a (format_loop qt run (output_of (run a)) rest)
        (λ e. one_run a rest (err e) (λ q. cc))
        (λ output e. one_run a rest (ok tt) (λ q. (output, e)))
        (λ output e w.
          more_runs a rest (format_loop qt run (output_of (run a)) rest) output e w
            (format_loop-Runs (output_of (run a)) rest))
        (run a) refl

-- What formatting a partition comes down to.
pub record Formats (qt : Qt) (run : List Text → ToolRun) (file_system : FileSystemType)
    (path label : Text) (f : Formatting) : Type 0 where
  pub calls : (a : List Text) → Memᴰ a f.runs → IsCall path label a
  pub success :
      f.result ≡ ok tt
      → (a : List Text) × (output : Text) × Memᴰ a f.runs × (run a ≡ finished true output)
  pub retry :
      (a b : List Text) (rest : List (List Text))
      → f.runs ≡ a ∷ b ∷ rest
      → (file_system ≡ ex_fat)
        × (output : Text) × (run a ≡ finished false output)
        × (looks_like_wrong_flag qt output ≡ true)

-- The one argument list, where there is one.
only :
    {path label : Text} (a b : List Text)
    → Memᴰ a (b ∷ [])
    → IsCall path label b
    → IsCall path label a
only {path = path} {label = label} a b m h = elim (Memᴰ-cases a b [] m) [
  | inl e ↦ subst (IsCall path label) (sym e) h
  | inr t ↦ elim t [ ]
]

ext4-IsCall :
    (path label : Text) (owner : Option DesktopOwner)
    → IsCall path label
        (text "-F" ∷ text "-L" ∷ label ∷ text "-m" ∷ text "0" ∷ owner_arguments owner (path ∷ []))
ext4-IsCall path label none = record {
  on_partition = (text "-F" ∷ text "-L" ∷ label ∷ text "-m" ∷ text "0" ∷ [], refl);
  labelled = Memᴰ.tail (Memᴰ.tail (Memᴰ.head refl));
}
ext4-IsCall path label (some owner) = record {
  on_partition = (
    text "-F"
        ∷ text "-L"
        ∷ label
        ∷ text "-m"
        ∷ text "0"
        ∷ text "-E"
        ∷ (text "root_owner=" ++ (number owner.uid ++ (text ":" ++ number owner.gid)))
        ∷ [],
    refl,
  );
  labelled = Memᴰ.tail (Memᴰ.tail (Memᴰ.head refl));
}

flag-IsCall : (flag path label : Text) → IsCall path label (flag ∷ label ∷ path ∷ [])
flag-IsCall flag path label = record {
  on_partition = (flag ∷ label ∷ [], refl);
  labelled = Memᴰ.tail (Memᴰ.head refl);
}

format_attempts-IsCall :
    (file_system : FileSystemType) (path label : Text) (start : ℕ) (owner : Option DesktopOwner)
    (a : List Text)
    → Memᴰ a (format_attempts file_system path label start owner)
    → IsCall path label a
unfolding format_attempts
format_attempts-IsCall ex_fat path label start owner a m =
    elim (Memᴰ-cases a (text "-L" ∷ label ∷ path ∷ []) _ m) [
      | inl e ↦ subst (IsCall path label) (sym e) (flag-IsCall (text "-L") path label)
      | inr t ↦ only a _ t (flag-IsCall (text "-n") path label)
    ]
format_attempts-IsCall fat32 path label start owner a m = only a _ m (record {
  on_partition = (text "-F" ∷ text "32" ∷ text "-n" ∷ label ∷ text "-h" ∷ number start ∷ [], refl);
  labelled = Memᴰ.tail (Memᴰ.tail (Memᴰ.tail (Memᴰ.head refl)));
})
format_attempts-IsCall ntfs path label start owner a m = only a _ m (record {
  on_partition = (text "-Q" ∷ text "-L" ∷ label ∷ text "-p" ∷ number start ∷ [], refl);
  labelled = Memᴰ.tail (Memᴰ.tail (Memᴰ.head refl));
})
format_attempts-IsCall ext4 path label start owner a m = only a _ m (ext4-IsCall path label owner)

-- More than one attempt is made of exFAT alone.
two_attempts :
    (file_system : FileSystemType) (path label : Text) (start : ℕ) (owner : Option DesktopOwner)
    → 2 ≤ length (format_attempts file_system path label start owner)
    → file_system ≡ ex_fat
unfolding format_attempts
two_attempts ex_fat path label start owner h = refl
two_attempts fat32 path label start owner h = absurd (omega arith)
two_attempts ntfs path label start owner h = absurd (omega arith)
two_attempts ext4 path label start owner h = absurd (omega arith)

two_runs :
    (runs : List (List Text)) (a b : List Text) (rest : List (List Text))
    → runs ≡ a ∷ b ∷ rest
    → 2 ≤ length runs
two_runs runs a b rest e = rw e (omega arith)

-- Every run of mkfs is for the partition, as its last argument, and has the label as one argument;
-- formatting succeeds only if a run ended normally with 0; and mkfs is run again only for exFAT,
-- behind a run that failed with the words of an unknown option.
pub format_linux_partition-Formats :
    (qt : Qt) (run : List Text → ToolRun) (file_system : FileSystemType) (path label : Text)
    (start : ℕ) (owner : Option DesktopOwner)
    → Formats qt run file_system path label
        (format_linux_partition qt run file_system path label start owner)
unfolding format_linux_partition
format_linux_partition-Formats qt run file_system path label start owner =
    let attempts = format_attempts file_system path label start owner in
    let f = format_loop-Runs qt run [] attempts in
    record {
      calls = λ a m. format_attempts-IsCall file_system path label start owner a (f.attempted a m);
      success = f.succeeded;
      retry = λ a b rest e.
          let two = two_runs (format_loop qt run [] attempts).runs a b rest e in
          let few = f.few in
          let (output, failed, wrong) = f.retried a b rest e in
          (two_attempts file_system path label start owner (omega arith), output, failed, wrong);
    }

environment_id-IsU32 :
    (get : Text → Text) (to_number : Text → Option ℕ) (name : Text) (n : ℕ)
    → environment_id get to_number name ≡ some n
    → IsU32 n
unfolding environment_id
environment_id-IsU32 get to_number name n h = ground arith

owner_with-uid :
    (uid : ℕ) (gid : Option ℕ) (owner : DesktopOwner)
    → owner_with uid gid ≡ some owner
    → uid ≡ owner.uid
owner_with-uid uid none owner h = cc
owner_with-uid uid (some gid) owner h = ap owner_uid h
  where
    owner_uid : Option DesktopOwner → ℕ
    owner_uid none = 0
    owner_uid (some o) = o.uid

owner_of-some :
    (o : Option ℕ) (group_of : ℕ → Option ℕ) (gid : Option ℕ) (owner : DesktopOwner)
    → owner_of o group_of gid ≡ some owner
    → (o ≡ some owner.uid) × (owner.uid ≢ 0)
owner_of-some none group_of gid owner h = cc
owner_of-some (some uid) group_of gid owner h = elim (Bool-cases (uid == 0)) [
  | inl e ↦ ground arith
  | inr e ↦
      let p = owner_with-uid uid (or_else (group_of uid) gid) owner (ground arith) in
      (ap some p, ground arith)
]

or_else-cases : (a b : Option ℕ) (n : ℕ) → or_else a b ≡ some n → (a ≡ some n) ⊎ (b ≡ some n)
or_else-cases none b n h = inr h
or_else-cases (some a) b n h = inl h

-- The owner of a new file system is never root, and its number fits into 32 bits.
pub desktop_owner-not_root :
    (get : Text → Text) (to_number : Text → Option ℕ) (group_of : ℕ → Option ℕ)
    (owner : DesktopOwner)
    → desktop_owner get to_number group_of ≡ some owner
    → (owner.uid ≢ 0) × IsU32 owner.uid
unfolding desktop_owner
desktop_owner-not_root get to_number group_of owner h =
    let pkexec = environment_id get to_number (text "PKEXEC_UID") in
    let sudo = environment_id get to_number (text "SUDO_UID") in
    let (e, ne) =
      owner_of-some (or_else pkexec sudo) group_of (environment_id get to_number (text "SUDO_GID"))
        owner h in
    (
      ne,
      elim (or_else-cases pkexec sudo owner.uid e) [
        | inl p ↦ environment_id-IsU32 get to_number (text "PKEXEC_UID") owner.uid p
        | inr p ↦ environment_id-IsU32 get to_number (text "SUDO_UID") owner.uid p
      ],
    )
