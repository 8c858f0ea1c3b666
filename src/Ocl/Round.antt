-- ===== src/Ocl/Round.antt =====
-- One round of `Scrypter::scrypt`.
use post_rs.Base.{
  ℕ, zero, suc, ◌+◌, ◌-◌, ◌*◌, ◌%◌, ◌^◌, ◌≤◌, ◌<◌, ◌≡◌, refl, ap, ◌∙◌, arith, true, Option, some,
  List, ◌∷◌, ◌++◌, map, min,
}
use post_rs.Base.{
  length, take, drop, All, concat, range_from, leb, length-append, length-drop, take-append_exact,
  concat-append,
}
use post_rs.Base.Bytes.{IsBytes}
use post_rs.Base.Words.{u64, sub64}
use post_rs.Base.Outcome.{done, ◌>>=◌}
use post_rs.Config.{ScryptFactors, to_scrypt_factors}
use post_rs.Crates.{Scrypt}
use post_rs.Initialize.{VrfNonce, Writer, label_of}
use post_rs.Initialize.Nonce.{best}
use post_rs.Ocl.Interface.{OpenCl, Kernel, KernelLaws, IsReliable, set_arg, enqueue, read_buffer}
use post_rs.Ocl.Providers.{ScryptError}
use post_rs.Ocl.Scrypter.{Scrypter}
use post_rs.Ocl.Scrypt.{gws_for, run_kernel, scrypt_round, lift_write, commitment_words, compact}
use post_rs.Ocl.Blocks.{IsLabel, length-concat, look_for_nonce-best, halves, take-compact}
use mathlib.Core.Path.{subst, ap₂}
use mathlib.Core.List.{append_assoc}
use post_rs.Ocl.Work.{gws_for-IsWhole}

-- The sizes of a scrypter whose work is `size` items in groups of `group`, for scrypt parameter `n`.
pub record IsSized (ocl : OpenCl) (n size group : ℕ) (s : Scrypter ocl) : Type 0 where
  pub has_n : s.kernel.n ≡ n
  pub has_group : s.kernel.local_work_size ≡ group
  pub has_size : s.global_work_size ≡ size
  pub has_multiple : s.preferred_wg_size_mult ≡ group
  pub room : size * 32 ≤ length s.labels_buffer
  pub output_room : size * 32 ≤ length s.output

pub IsSized-input :
    {ocl : OpenCl} {n size group : ℕ} (s : Scrypter ocl) (q : ocl.Queue) (input : List ℕ)
    → IsSized ocl n size group s
    → IsSized ocl n size group (record s { queue = q; input = input })
IsSized-input s q input sized = record {
  has_n = sized.has_n;
  has_group = sized.has_group;
  has_size = sized.has_size;
  has_multiple = sized.has_multiple;
  room = sized.room;
  output_room = sized.output_room;
}

IsSized-buffer :
    {ocl : OpenCl} {n size group : ℕ} (s : Scrypter ocl) (buffer : List ℕ)
    → size * 32 ≤ length buffer
    → IsSized ocl n size group s
    → IsSized ocl n size group (record s { labels_buffer = buffer })
IsSized-buffer s buffer enough sized = record {
  has_n = sized.has_n;
  has_group = sized.has_group;
  has_size = sized.has_size;
  has_multiple = sized.has_multiple;
  room = enough;
  output_room = sized.output_room;
}

module _ (ocl : OpenCl) (scrypt_crate : Scrypt)
    (laws : KernelLaws ocl scrypt_crate commitment_words) (reliable : IsReliable ocl)
    (factors : ScryptFactors) (commitment : List ℕ) (n size group groups : ℕ)
    (bytes32 : IsBytes 32 commitment)
    (convert : to_scrypt_factors (record { n = n; r = 1; p = 1 }) ≡ some factors) (pos : 0 < group)
    (whole : size ≡ groups * group) (small : size < 2 ^ 57) where
  abbrev pub labels_from : ℕ → ℕ → List (List ℕ)
  labels_from index count = map (label_of scrypt_crate factors commitment) (range_from index count)

  pub labels_from-append :
      (index a b : ℕ) → labels_from index (a + b) ≡ labels_from index a ++ labels_from (index + a) b
  labels_from-append index zero b =
      let same : index ≡ index + 0 = omega arith in
      let count : 0 + b ≡ b = omega arith in
      ap (labels_from index) count ∙ ap (λ (i : ℕ). labels_from i b) same
  labels_from-append index (suc a) b =
      let next : index + 1 + a ≡ index + suc a = omega arith in
      let count : suc a + b ≡ suc (a + b) = omega arith in
      ap (labels_from index) count
      ∙ ap (◌∷◌ (label_of scrypt_crate factors commitment index)) (
          labels_from-append (index + 1) a b
          ∙ ap (λ (i : ℕ). labels_from (index + 1) a ++ labels_from i b) next)

  pub length-labels_from : (index count : ℕ) → length (labels_from index count) ≡ count
  length-labels_from index zero = refl
  length-labels_from index (suc count) = ap suc (length-labels_from (index + 1) count)

  pub labels_from-IsLabel : (index count : ℕ) → All IsLabel (labels_from index count)
  labels_from-IsLabel index zero = tt
  labels_from-IsLabel index (suc count) =
      (laws.length-label factors commitment index, labels_from-IsLabel (index + 1) count)

  length-bytes_from : (index count : ℕ) → length (concat (labels_from index count)) ≡ count * 32
  length-bytes_from index count =
      length-concat (labels_from index count) (labels_from-IsLabel index count)
      ∙ ap (λ (t : ℕ). t * 32) (length-labels_from index count)

  -- The kernel fills the buffer with the labels.
  run_kernel-labels :
      {E : Type 0} (s : Scrypter ocl) (index gws m : ℕ)
      → IsSized ocl n size group s
      → s.input ≡ commitment_words commitment
      → gws % group ≡ 0
      → m ≤ gws
      → gws ≤ size
      → (s' : Scrypter ocl) × IsSized ocl n size group s'
        × (s'.input ≡ commitment_words commitment)
        × (run_kernel ocl {E = E} s index gws (m * 32) ≡ done (s', concat (labels_from index m)))
  unfolding run_kernel
  run_kernel-labels s index gws m sized input multiple le fits =
      let (q1, e1) = reliable enqueue s.queue in
      let (q2, e2) = reliable read_buffer q1 in
      let kernel : Kernel = record s.kernel { index = index; global_work_size = gws } in
      let output = ocl.run kernel s.input s.output in
      let tail = drop (gws * 32) s.output in
      let filled : output ≡ concat (labels_from index gws) ++ tail =
        ap (λ (t : List ℕ). ocl.run kernel t s.output) input
        ∙ laws.run-labels kernel factors commitment s.output bytes32
            (ap (λ (t : ℕ). to_scrypt_factors (record { n = t; r = 1; p = 1 })) sized.has_n
              ∙ convert)
            (ap (λ (t : ℕ). gws % t) sized.has_group ∙ multiple)
            (omega (arith, sized.output_room)) in
      let taken : take (m * 32) output ≡ concat (labels_from index m) =
        ap (take (m * 32)) (
          filled
          ∙ ap (λ t. t ++ tail) (split_bytes index m gws le)
          ∙ append_assoc (concat (labels_from index m)) (concat (labels_from (index + m) (gws - m)))
              tail)
        ∙ take-append_exact (concat (labels_from index m)) _ (m * 32) (length-bytes_from index m) in
      let has_room : leb (m * 32) (length s.labels_buffer) ≡ true = ground (arith, sized.room) in
      let size_kept : size * 32 ≤ length output = omega (
        arith,
        ap length filled,
        length-append (concat (labels_from index gws)) tail,
        length-bytes_from index gws,
        length-drop (gws * 32) s.output,
        sized.output_room,
      ) in
      let s' : Scrypter ocl = record s { queue = q2; kernel = kernel; output = output } in
      (
        s',
        record {
          has_n = sized.has_n;
          has_group = sized.has_group;
          has_size = sized.has_size;
          has_multiple = sized.has_multiple;
          room = sized.room;
          output_room = size_kept;
        },
        input,
        rw (e1, has_room, e2) (ap (λ t. done (s', t)) taken),
      )
    where
      split_bytes :
          (index m gws : ℕ)
          → m ≤ gws
          → concat (labels_from index gws)
            ≡ concat (labels_from index m) ++ concat (labels_from (index + m) (gws - m))
      split_bytes index m gws le =
          let parts : gws ≡ m + (gws - m) = omega arith in
          ap (λ (t : ℕ). concat (labels_from index t)) parts
          ∙ ap concat (labels_from-append index m (gws - m))
          ∙ concat-append (labels_from index m) (labels_from (index + m) (gws - m))

  compact_block :
      (index m : ℕ)
      → (take (m * 16) (compact m 0 (concat (labels_from index m))) ≡ halves (labels_from index m))
        × (length (compact m 0 (concat (labels_from index m))) ≡ m * 32)
  compact_block index m =
      subst
        (λ (t : ℕ).
          (take (t * 16) (compact t 0 (concat (labels_from index m)))
            ≡ halves (labels_from index m))
          × (length (compact t 0 (concat (labels_from index m))) ≡ t * 32))
        (length-labels_from index m)
        (take-compact (labels_from index m) (labels_from-IsLabel index m))

  -- A round on a device whose calls do not fail writes the halves of its labels, at once, and goes
  -- on with the nonce and the difficulty that the CPU has after them.
  pub scrypt_round-block :
      {E : Type 0} (writer : Writer E) (labels_end index m : ℕ) (s : Scrypter ocl) (w : writer.W)
      (vrf : Option VrfNonce × Option (List ℕ))
      → IsSized ocl n size group s
      → s.input ≡ commitment_words commitment
      → index < labels_end
      → labels_end + size ≤ 2 ^ 64
      → m ≡ min size (labels_end - index)
      → (s' : Scrypter ocl) × IsSized ocl n size group s'
        × (s'.input ≡ commitment_words commitment)
        × (scrypt_round ocl writer labels_end index s w vrf ≡ (
            lift_write (writer.write_all w (halves (labels_from index m))) >>= λ w'.
            done (s', w', best index (labels_from index m) vrf)))
  unfolding scrypt_round
  scrypt_round-block {E} writer labels_end index m s w vrf sized input less fits hm =
      let (q1, e1) = reliable (set_arg 1) s.queue in
      let (gws, e2, multiple, enough, bounded) =
        gws_for-IsWhole {E = ScryptError ocl E} m size group groups pos whole (omega arith)
          (omega arith) in
      let e2' = ap₂ (gws_for {E = ScryptError ocl E} m) sized.has_size sized.has_multiple ∙ e2 in
      let count : sub64 (min (u64 (index + s.global_work_size)) labels_end) index ≡ m =
        omega (arith, sized.has_size) in
      let bytes : u64 (m * 32) ≡ m * 32 = omega arith in
      let (s2, sized2, input2, e3) =
        run_kernel-labels {E = E} (record s { queue = q1 }) index gws m
          (IsSized-input s q1 s.input sized) input multiple enough bounded in
      let block = labels_from index m in
      let searched =
        look_for_nonce-best {E = ScryptError ocl E} index block vrf (labels_from-IsLabel index m)
          (omega (arith, length-labels_from index m)) in
      let (halved, measured) = compact_block index m in
      let compacted = compact m 0 (concat block) in
      let buffer = compacted ++ drop (m * 32) s2.labels_buffer in
      let enough_room : size * 32 ≤ length buffer = omega (
        arith,
        length-append compacted (drop (m * 32) s2.labels_buffer),
        measured,
        length-drop (m * 32) s2.labels_buffer,
        sized2.room,
      ) in
      (
        record s2 { labels_buffer = buffer },
        IsSized-buffer s2 buffer enough_room sized2,
        input2,
        rw (e1, count, e2', bytes, e3, searched, halved) refl,
      )
