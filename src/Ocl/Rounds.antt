-- ===== src/Ocl/Rounds.antt =====
-- The rounds of `Scrypter::scrypt` in a row.
use post_rs.Base.{
  ℕ, zero, suc, ◌+◌, ◌-◌, ◌*◌, ◌/◌, ◌^◌, ◌≤◌, ◌<◌, ◌≡◌, refl, sym, ap, ◌∙◌, arith, false, Option,
  none, some, List, ◌++◌, min,
}
use post_rs.Base.{◌==◌}
use post_rs.Base.Bytes.{IsBytes}
use post_rs.Base.Outcome.{done, ◌>>=◌, bind_assoc, bind-cong}
use post_rs.Prove.Nonces.{Range}
use post_rs.Config.{ScryptFactors, to_scrypt_factors}
use post_rs.Crates.{Scrypt}
use post_rs.Initialize.{VrfNonce, Writer, labels_of, initialize_to}
use post_rs.Initialize.Nonce.{best, best-append}
use post_rs.Ocl.Interface.{OpenCl, KernelLaws, IsReliable, write_buffer}
use post_rs.Ocl.Scrypter.{Scrypter}
use post_rs.Ocl.Scrypt.{scrypt_rounds, scrypt, lift_write, commitment_words, step_by}
use post_rs.Ocl.Blocks.{halves}
use post_rs.Base.Arith.{mul-le-mul_right}
use post_rs.Ocl.Round.{
  IsSized, labels_from, labels_from-append, length-labels_from, scrypt_round-block, IsSized-input,
}
use native.Mathlib.Nat.{div-mul-le_self, lt-div-mul-add}
use mathlib.Core.Path.{subst, ap₂}
use post_rs.Ocl.Writers.{
  WriterLaws, lift_write-and_then, write_labels-halves, forget, as_scrypt_error, with_nonce,
  halves-append, as_scrypt_error-with_nonce,
}

step_by_same :
    (index m size rounds : ℕ)
    → (0 < rounds → m ≡ size)
    → step_by (index + size) rounds size ≡ step_by (index + m) rounds size
step_by_same index m size zero h = refl
step_by_same index m size (suc rounds) h =
    ap (λ (t : ℕ). step_by (index + t) (suc rounds) size) (sym (h (omega arith)))

module _ (ocl : OpenCl) (scrypt_crate : Scrypt)
    (laws : KernelLaws ocl scrypt_crate commitment_words) (reliable : IsReliable ocl)
    (factors : ScryptFactors) (commitment : List ℕ) (n size group groups : ℕ)
    (bytes32 : IsBytes 32 commitment)
    (convert : to_scrypt_factors (record { n = n; r = 1; p = 1 }) ≡ some factors) (pos : 0 < group)
    (whole : size ≡ groups * group) (small : size < 2 ^ 57) (some_work : 0 < size) where
  the_labels : ℕ → ℕ → List (List ℕ)
  the_labels =
      labels_from ocl scrypt_crate laws reliable factors commitment n size group groups bytes32
        convert pos whole small

  -- Two runs of labels, one after the other.
  join_blocks :
      {E : Type 0} (writer : Writer E)
      → WriterLaws writer
      → (index m count : ℕ) (vrf : Option VrfNonce × Option (List ℕ)) (w : writer.W) → m ≤ count
      → (lift_write {ocl = ocl} (writer.write_all w (halves (the_labels index m))) >>= λ w'.
          with_nonce
            (best
              (index + m)
              (the_labels (index + m) (count - m))
              (best index (the_labels index m) vrf)).0
            (lift_write (writer.write_all w' (halves (the_labels (index + m) (count - m))))))
        ≡ with_nonce
            (best index (the_labels index count) vrf).0
            (lift_write (writer.write_all w (halves (the_labels index count))))
  unfolding the_labels
  join_blocks writer wlaws index m count vrf w le =
      let xs = the_labels index m in
      let ys = the_labels (index + m) (count - m) in
      let parts : count ≡ m + (count - m) = omega arith in
      let whole_run : the_labels index count ≡ xs ++ ys =
        ap (the_labels index) parts
        ∙ labels_from-append ocl scrypt_crate laws reliable factors commitment n size group groups
            bytes32 convert pos whole small index m (count - m) in
      let written =
        ap (λ t. lift_write {ocl = ocl} (writer.write_all w t))
          (ap halves whole_run ∙ halves-append xs ys)
        ∙ ap lift_write (wlaws.write_all-append w (halves xs) (halves ys))
        ∙ lift_write-and_then (writer.write_all w (halves xs)) _ in
      let found : best index (the_labels index count) vrf
          ≡ best (index + m) ys (best index xs vrf) =
        ap (λ t. best index t vrf) whole_run
        ∙ best-append index xs ys vrf
        ∙ ap (λ (t : ℕ). best (index + t) ys (best index xs vrf))
            (length-labels_from ocl scrypt_crate laws reliable factors commitment n size group
              groups bytes32 convert pos whole small index m) in
      sym (bind_assoc (lift_write (writer.write_all w (halves xs))) _ _)
      ∙ sym (ap₂ (λ r (b : Option VrfNonce × Option (List ℕ)). with_nonce b.0 r) written found)

  scrypt_rounds-blocks :
      {E : Type 0} (writer : Writer E)
      → WriterLaws writer
      → (labels_end rounds index count : ℕ) (s : Scrypter ocl) (w : writer.W)
        (vrf : Option VrfNonce × Option (List ℕ))
      → IsSized ocl n size group s
      → s.input ≡ commitment_words commitment
      → count ≡ labels_end - index
      → labels_end + size ≤ 2 ^ 64
      → count ≤ rounds * size
      → rounds * size < count + size
      → forget (scrypt_rounds ocl writer labels_end (step_by index rounds size) s w vrf)
        ≡ with_nonce
            (best index (the_labels index count) vrf).0
            (lift_write (writer.write_all w (halves (the_labels index count))))
  unfolding scrypt_rounds best the_labels
  scrypt_rounds-blocks writer wlaws labels_end zero index count s w vrf sized input hc fits hi lo =
      let empty : 0 ≡ count = omega arith in
      subst
        (λ (c : ℕ).
          with_nonce vrf.0 (done w)
          ≡ with_nonce (best index (the_labels index c) vrf).0
              (lift_write {ocl = ocl} (writer.write_all w (halves (the_labels index c)))))
        empty (ap (λ r. with_nonce vrf.0 (lift_write {ocl = ocl} r)) (sym (wlaws.write_all-nil w)))
  scrypt_rounds-blocks writer wlaws labels_end (suc rounds) index count s w vrf sized input hc fits
        hi lo =
      let m = min size (labels_end - index) in
      let room : rounds * size + size ≡ suc rounds * size = grind arith in
      let (s', sized', input', e) =
        scrypt_round-block ocl scrypt_crate laws reliable factors commitment n size group groups
          bytes32 convert pos whole small writer labels_end index m s w vrf sized input
          (omega arith) fits refl in
      let vrf' = best index (the_labels index m) vrf in
      let first = lift_write {ocl = ocl} (writer.write_all w (halves (the_labels index m))) in
      let rest = λ (w' : writer.W).
        scrypt_rounds-blocks writer wlaws labels_end rounds (index + m) (count - m) s' w' vrf'
          sized' input' (omega arith) fits (omega arith) (omega arith) in
      ap
        (λ t. forget (
          t >>= λ (s2, w2, vrf2).
          scrypt_rounds ocl writer labels_end (step_by (index + size) rounds size) s2 w2 vrf2))
        e
      ∙ ap forget (bind_assoc first _ _)
      ∙ bind_assoc first _ _
      ∙ bind-cong first (λ w'.
        ap (λ t. forget (scrypt_rounds ocl writer labels_end t s' w' vrf'))
          (step_by_same index m size rounds
            (λ more. omega (arith, mul-le-mul_right 1 rounds size more)))
        ∙ rest w')
      ∙ join_blocks writer wlaws index m count vrf w (omega arith)

  -- On a device whose calls do not fail and whose kernel makes the labels, a scrypter with work of
  -- whole groups does what the CPU initializer does, for any range that ends at least the size of the
  -- work below 2 ^ 64: it writes the same bytes, returns the same nonce, and fails with the same error
  -- of the writer. The writer takes bytes one after another.
  pub scrypt-initialize_to :
      {E : Type 0} (writer : Writer E) (s : Scrypter ocl) (w : writer.W) (labels : Range)
      (vrf_difficulty : Option (List ℕ))
      → WriterLaws writer
      → IsSized ocl n size group s
      → labels.end + size ≤ 2 ^ 64
      → forget (scrypt ocl writer s w labels commitment vrf_difficulty)
        ≡ as_scrypt_error (
            initialize_to writer scrypt_crate
              (record { n = n; r = 1; p = 1 })
              w
              commitment
              labels
              vrf_difficulty)
  unfolding scrypt initialize_to labels_of the_labels
  scrypt-initialize_to writer s w labels vrf_difficulty wlaws sized fits =
      let (q1, e1) = reliable write_buffer s.queue in
      let count = labels.end - labels.start in
      let rounds = (count + size - 1) / size in
      let down = div-mul-le_self (count + size - 1) size in
      let up = lt-div-mul-add {a = count + size - 1} {b = size} some_work in
      let blocks =
        scrypt_rounds-blocks writer wlaws labels.end rounds labels.start count
          (record s { queue = q1; input = commitment_words commitment }) w (none, vrf_difficulty)
          (IsSized-input s q1 (commitment_words commitment) sized) refl refl fits (omega arith)
          (omega arith) in
      let some_size : (s.global_work_size == 0) ≡ false = ground (arith, sized.has_size) in
      let cpu =
        write_labels-halves writer wlaws labels.start (the_labels labels.start count)
          (none, vrf_difficulty) w in
      let listed : labels_of scrypt_crate (record { n = n; r = 1; p = 1 }) commitment labels
          ≡ some (the_labels labels.start count) =
        rw (convert, labels_of) refl in
      let ready : Scrypter ocl = record s { queue = q1; input = commitment_words commitment } in
      rw (e1, some_size, listed)
        (ap
            (λ (t : ℕ). forget (
              scrypt_rounds ocl writer labels.end (step_by labels.start ((count + t - 1) / t) t)
                ready w (none, vrf_difficulty)))
            sized.has_size
          ∙ blocks
          ∙ sym (
              ap as_scrypt_error cpu
              ∙ as_scrypt_error-with_nonce {ocl = ocl} _ (writer.write_all w _)))
