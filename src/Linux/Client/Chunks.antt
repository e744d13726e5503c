-- ===== src/Linux/Client/Chunks.antt =====
-- linux/helper_client.cpp, takeCompleteLines(): in which pieces the output arrives does not matter.
use mathlib.Core.List.{map-append}
use usb_restoration_tool.Text.{Text}
use usb_restoration_tool.Qt.{trimmed}
use usb_restoration_tool.Protocol.Messages.{split, grow}
use usb_restoration_tool.Protocol.Messages.Fields.{Lacks, split-Lacks}
use usb_restoration_tool.Linux.Client.{
  Reader, max_buffered_bytes, but_last, last_part, take_complete_lines,
}
use usb_restoration_tool.Linux.Client.Run.{Poll}
use usb_restoration_tool.Linux.Client.Read.{poll_lines}
use usb_restoration_tool.Prelude.{
  ℕ, ◌≤◌, ◌≡◌, refl, sym, ap, ◌∙◌, subst, inl, inr, false, List, [], ◌∷◌, ◌++◌, map, any,
  append-nil, append_assoc, arith, ltb, ◌==◌, Bool-cases, length, length-append,
}

module _ (c : ℕ) where
  split_cons : (t : List ℕ) → (p : List ℕ) × (ps : List (List ℕ)) × (split c t ≡ p ∷ ps)
  unfolding split
  split_cons [] = ([], [], refl)
  split_cons (x ∷ xs) =
      let (p, ps, e) = split_cons xs in
      elim (Bool-cases (x == c)) [
        | inl h ↦ ([], split c xs, rw h refl)
        | inr h ↦ (x ∷ p, ps, rw (h, e) refl)
      ]

  abbrev joined : List (List ℕ) → List ℕ → List (List ℕ)
  joined parts b = but_last parts ++ split c (last_part parts ++ b)

  joined_next :
      (x : ℕ) (p : List ℕ) (ps : List (List ℕ)) (b : List ℕ)
      → (x == c) ≡ false
      → grow x (joined (p ∷ ps) b) ≡ joined (grow x (p ∷ ps)) b
  unfolding split
  joined_next x p [] b h = rw h refl
  joined_next x p (q ∷ qs) b h = refl

  split_after : (a b : List ℕ) → split c (a ++ b) ≡ joined (split c a) b
  unfolding split
  split_after [] b = refl
  split_after (x ∷ xs) b =
      let (p, ps, e) = split_cons xs in
      let ih : split c (xs ++ b) ≡ joined (p ∷ ps) b =
        split_after xs b ∙ ap (λ parts. joined parts b) e in
      elim (Bool-cases (x == c)) [
        | inl h ↦ rw (h, e) (ap (λ parts. [] ∷ parts) ih)
        | inr h ↦ rw (h, e) (ap (λ parts. grow x parts) ih ∙ joined_next x p ps b h)
      ]

  last_part-Lacks : (t : List ℕ) → Lacks c (last_part (split c t))
  unfolding split any
  last_part-Lacks [] = refl
  last_part-Lacks (x ∷ xs) =
      let (p, ps, e) = split_cons xs in
      let ih : Lacks c (last_part (p ∷ ps)) =
        subst (λ u. Lacks c (last_part u)) e (last_part-Lacks xs) in
      elim (Bool-cases (x == c)) [ inl h ↦ rw (h, e) ih | inr h ↦ rw (h, e) (grown x p ps h ih) ]
    where
      grown :
          (x : ℕ) (p : List ℕ) (ps : List (List ℕ))
          → (x == c) ≡ false
          → Lacks c (last_part (p ∷ ps))
          → Lacks c (last_part (grow x (p ∷ ps)))
      grown x p [] h k = ground arith
      grown x p (q ∷ qs) h k = k

  split_word :
      (r m h : List ℕ) (t : List (List ℕ))
      → Lacks c r
      → split c m ≡ h ∷ t
      → split c (r ++ m) ≡ (r ++ h) ∷ t
  unfolding split any
  split_word [] m h t l e = e
  split_word (x ∷ xs) m h t l e =
      let ih = split_word xs m h t (ground arith) e in
      let no : (x == c) ≡ false = ground arith in rw (no, ih) refl

but_last-append :
    (xs : List (List ℕ)) (y : List ℕ) (ys : List (List ℕ))
    → (but_last (xs ++ y ∷ ys) ≡ xs ++ but_last (y ∷ ys))
      × (last_part (xs ++ y ∷ ys) ≡ last_part (y ∷ ys))
but_last-append [] y ys = (refl, refl)
but_last-append (x ∷ []) y ys = (refl, refl)
but_last-append (x ∷ x' ∷ xs) y ys =
    let (e, f) = but_last-append (x' ∷ xs) y ys in (ap (λ t. x ∷ t) e, f)

-- No line is longer than the buffer may be.
abbrev pub AllShort : List (List ℕ) → Type 0
AllShort [] = Unit {0}
AllShort (part ∷ parts) = (length part ≤ max_buffered_bytes) × AllShort parts

AllShort-behind : (xs ys : List (List ℕ)) → AllShort (xs ++ ys) → AllShort ys
AllShort-behind [] ys h = h
AllShort-behind (x ∷ xs) ys h = AllShort-behind xs ys h.1

unfoldable pub outputs : List Poll → List ℕ
outputs [] = []
outputs (p ∷ ps) = p.output ++ outputs ps

module _ (reader : Reader) where
  -- The lines of a whole output, and what follows the last newline.
  abbrev pub lines_of : List (List ℕ) → List Text × List ℕ
  lines_of parts =
      (map (λ part. trimmed reader.qt (reader.decode part)) (but_last parts), last_part parts)

  taken_lem :
      (buffer : List ℕ)
      → length (last_part (split b'\n' buffer)) ≤ max_buffered_bytes
      → take_complete_lines reader buffer ≡ lines_of (split b'\n' buffer)
  unfolding take_complete_lines
  taken_lem buffer h =
      let e : ltb max_buffered_bytes (length (last_part (split b'\n' buffer))) ≡ false =
        ground arith in
      rw e refl

  short_rest :
      (rest more : List ℕ)
      → Lacks b'\n' rest
      → AllShort (split b'\n' (rest ++ more))
      → length rest ≤ max_buffered_bytes
  short_rest rest more l h =
      let (p, ps, e) = split_cons b'\n' more in
      let s : AllShort ((rest ++ p) ∷ ps) =
        subst (λ u. AllShort u) (split_word b'\n' rest more p ps l e) h in
      let k = s.0 in omega (arith, length-append {0} rest p)

  joined_lines :
      (xs : List (List ℕ)) (whole : List ℕ)
      → lines_of (xs ++ split b'\n' whole) ≡ (
        map (λ part. trimmed reader.qt (reader.decode part)) xs ++ (lines_of (split b'\n' whole)).0,
        (lines_of (split b'\n' whole)).1,
      )
  joined_lines xs whole =
      let (p, ps, e) = split_cons b'\n' whole in
      let (f, g) = but_last-append xs p ps in rw (e, f, g, map-append) refl

  poll_lines_from :
      (ps : List Poll) (buffer : List ℕ)
      → Lacks b'\n' buffer
      → AllShort (split b'\n' (buffer ++ outputs ps))
      → poll_lines reader buffer ps ≡ lines_of (split b'\n' (buffer ++ outputs ps))
  unfolding poll_lines outputs
  poll_lines_from [] buffer l h = rw (append-nil buffer) (rw (split-Lacks b'\n' buffer l) refl)
  poll_lines_from (p ∷ ps) buffer l h =
      let parts = split b'\n' (buffer ++ p.output) in
      let rest = last_part parts in
      let whole = rest ++ outputs ps in
      let e : split b'\n' (buffer ++ (p.output ++ outputs ps))
          ≡ but_last parts ++ split b'\n' whole =
        ap (λ t. split b'\n' t) (sym (append_assoc buffer p.output (outputs ps)))
        ∙ split_after b'\n' (buffer ++ p.output) (outputs ps) in
      let l' = last_part-Lacks b'\n' (buffer ++ p.output) in
      let h' : AllShort (split b'\n' whole) =
        AllShort-behind (but_last parts) (split b'\n' whole) (subst (λ u. AllShort u) e h) in
      let t = taken_lem (buffer ++ p.output) (short_rest rest (outputs ps) l' h') in
      let ih = poll_lines_from ps rest l' h' in
      rw t (rw ih (rw e (sym (joined_lines (but_last parts) whole))))

  -- In whatever pieces the output of the helper arrives, the lines that are read are those of the
  -- whole output, and what stands behind the last newline is left, provided that no line is longer
  -- than the buffer may be.
  pub poll_lines-split :
      (ps : List Poll)
      → AllShort (split b'\n' (outputs ps))
      → poll_lines reader [] ps ≡ lines_of (split b'\n' (outputs ps))
  unfolding any
  poll_lines-split ps h = poll_lines_from ps [] refl h
