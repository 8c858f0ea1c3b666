-- ===== src/Ocl/Scrypt.antt =====
-- scrypt-ocl/src/lib.rs: `scan_for_vrf_nonce` and `Scrypter::scrypt`.
use post_rs.Base.{
  ℕ, zero, suc, ◌+◌, ◌-◌, ◌*◌, ◌/◌, Option, none, some, List, [], ◌∷◌, ◌++◌, map, min,
}
use post_rs.Base.{length, take, drop, ltb, leb, ◌==◌, if◌then◌else◌}
use post_rs.Base.Bytes.{lex_lt, from_le_bytes}
use post_rs.Base.Words.{Result, ok, err, u64, sub64}
use post_rs.Base.Outcome.{Outcome, done, failed, panicked, ◌>>=◌}
use post_rs.Prove.Nonces.{Range}
use post_rs.Initialize.{VrfNonce, Writer}
use post_rs.Ocl.Interface.{OpenCl, set_arg, write_buffer, enqueue, read_buffer}
use post_rs.Ocl.Providers.{ScryptError, write_error, lift_ocl}
use post_rs.Ocl.Scrypter.{Scrypter, checked_div}

-- `slice::chunks(n)`, whose last chunk may be shorter, for as many chunks as the fuel: the length
-- of the list is enough.
unfoldable pub chunks_upto : ℕ → ℕ → List ℕ → List (List ℕ)
chunks_upto zero n xs = []
chunks_upto (suc fuel) n [] = []
chunks_upto (suc fuel) n (x ∷ xs) = take n (x ∷ xs) ∷ chunks_upto fuel n (drop n (x ∷ xs))

abbrev pub chunks : ℕ → List ℕ → List (List ℕ)
chunks n xs = chunks_upto (length xs) n xs

-- A chunk that is not 32 bytes long, and less, is a failed conversion.
unfoldable pub scan_labels :
    {E : Type 0} → ℕ → List (List ℕ) → List ℕ → Option VrfNonce → Outcome E (Option VrfNonce)
scan_labels id [] difficulty nonce = done nonce
scan_labels id (label ∷ labels) difficulty nonce =
    if lex_lt label difficulty
    then if length label == 32
      then scan_labels (id + 1) labels label (some (record { index = id; label = label }))
      else panicked
    else scan_labels (id + 1) labels difficulty nonce

unfoldable pub scan_for_vrf_nonce : {E : Type 0} → List ℕ → List ℕ → Outcome E (Option VrfNonce)
scan_for_vrf_nonce labels difficulty = scan_labels 0 (chunks 32 labels) difficulty none

-- `copy_within(src..src + count, dst)`, within the bounds.
abbrev pub copy_within : List ℕ → ℕ → ℕ → ℕ → List ℕ
copy_within bytes src count dst =
    take dst bytes ++ (take count (drop src bytes) ++ drop (dst + count) bytes)

-- The loop that moves the first half of each label to the front: `count` labels, from `label_id` on.
unfoldable pub compact : ℕ → ℕ → List ℕ → List ℕ
compact zero label_id labels_buffer = labels_buffer
compact (suc count) label_id labels_buffer =
    compact count (label_id + 1) (copy_within labels_buffer (label_id * 32) 16 (label_id * 16))

-- What a label range's nonce does to the best nonce and the difficulty.
abbrev pub merge_nonce : ℕ → Option VrfNonce → Option VrfNonce × List ℕ → Option VrfNonce × List ℕ
merge_nonce index none vrf = vrf
merge_nonce index (some nonce) vrf =
    (some (record { index = u64 (nonce.index + index); label = nonce.label }), nonce.label)

unfoldable pub look_for_nonce :
    {E : Type 0}
    → ℕ
    → List ℕ
    → Option VrfNonce × Option (List ℕ)
    → Outcome E (Option VrfNonce × Option (List ℕ))
look_for_nonce index labels_buffer (best_nonce, none) = done (best_nonce, none)
look_for_nonce index labels_buffer (best_nonce, some difficulty) = do
  nonce ← scan_for_vrf_nonce labels_buffer difficulty
  let (best_nonce, difficulty) = merge_nonce index nonce (best_nonce, difficulty)
  done (best_nonce, some difficulty)

-- `(start..end).step_by(step)`, of so many rounds.
abbrev pub step_by : ℕ → ℕ → ℕ → List ℕ
step_by start zero step = []
step_by start (suc rounds) step = start ∷ step_by (start + step) rounds step

abbrev pub rounds_of : Range → ℕ → ℕ
rounds_of labels step = let count = labels.end - labels.start in (count + step - 1) / step

-- The size of the work for so many labels: rounded up to whole groups.
unfoldable pub gws_for : {E : Type 0} → ℕ → ℕ → ℕ → Outcome E ℕ
gws_for labels_to_init global_work_size preferred_wg_size_mult =
    if ltb labels_to_init global_work_size
    then (do
      groups ←
          checked_div (sub64 (labels_to_init + preferred_wg_size_mult) 1) preferred_wg_size_mult
      done (u64 (groups * preferred_wg_size_mult)))
    else done global_work_size

-- The words that the commitment is read as.
abbrev pub commitment_words : List ℕ → List ℕ
commitment_words commitment = map from_le_bytes (chunks 4 commitment)

abbrev pub lift_write :
    {ocl : OpenCl} {E : Type 0} {W : Type 0} → Result E W → Outcome (ScryptError ocl E) W
lift_write (ok w) = done w
lift_write (err e) = failed (write_error e)

module _ (ocl : OpenCl) where
  -- The kernel is run on `gws` items from `index` on, and the first bytes of the output are read.
  unfoldable pub run_kernel :
      {E : Type 0} → Scrypter ocl → ℕ → ℕ → ℕ → Outcome (ScryptError ocl E) (Scrypter ocl × List ℕ)
  run_kernel scrypter index gws size = do
    queue ← lift_ocl ocl (ocl.call enqueue scrypter.queue)
    let kernel = record scrypter.kernel { index = index; global_work_size = gws }
    let output = ocl.run kernel scrypter.input scrypter.output
    (if leb size (length scrypter.labels_buffer)
        then (do
          queue ← lift_ocl ocl (ocl.call read_buffer queue)
          done (
            record scrypter { queue = queue; kernel = kernel; output = output },
            take size output,
          ))
        else panicked)

module _ (ocl : OpenCl) {E : Type 0} (writer : Writer E) where
  open writer use {W, write_all}

  -- One round of the loop of `scrypt`, from `index` on.
  unfoldable pub scrypt_round :
      ℕ
      → ℕ
      → Scrypter ocl
      → W
      → Option VrfNonce × Option (List ℕ)
      → Outcome (ScryptError ocl E) (Scrypter ocl × W × (Option VrfNonce × Option (List ℕ)))
  scrypt_round labels_end index scrypter w vrf = do
    queue ← lift_ocl ocl (ocl.call (set_arg 1) scrypter.queue)
    let index_end = min (u64 (index + scrypter.global_work_size)) labels_end
    let labels_to_init = sub64 index_end index
    gws ← gws_for labels_to_init scrypter.global_work_size scrypter.preferred_wg_size_mult
    let size = u64 (labels_to_init * 32)
    (scrypter, labels_buffer) ← run_kernel ocl (record scrypter { queue = queue }) index gws size
    vrf ← look_for_nonce index labels_buffer vrf
    let compacted = compact labels_to_init 0 labels_buffer
    w ← lift_write (write_all w (take (labels_to_init * 16) compacted))
    done (record scrypter { labels_buffer = compacted ++ drop size scrypter.labels_buffer }, w, vrf)

  unfoldable pub scrypt_rounds :
      ℕ
      → List ℕ
      → Scrypter ocl
      → W
      → Option VrfNonce × Option (List ℕ)
      → Outcome (ScryptError ocl E) (Scrypter ocl × W × Option VrfNonce)
  scrypt_rounds labels_end [] scrypter w (best_nonce, vrf_difficulty) =
      done (scrypter, w, best_nonce)
  scrypt_rounds labels_end (index ∷ indices) scrypter w vrf = do
    (scrypter, w, vrf) ← scrypt_round labels_end index scrypter w vrf
    scrypt_rounds labels_end indices scrypter w vrf

  -- `Scrypter::scrypt`; a step of 0 panics.
  unfoldable pub scrypt :
      Scrypter ocl
      → W
      → Range
      → List ℕ
      → Option (List ℕ)
      → Outcome (ScryptError ocl E) (Scrypter ocl × W × Option VrfNonce)
  scrypt scrypter w labels commitment vrf_difficulty = do
    queue ← lift_ocl ocl (ocl.call write_buffer scrypter.queue)
    let scrypter = record scrypter { queue = queue; input = commitment_words commitment }
    (if scrypter.global_work_size == 0
        then panicked
        else scrypt_rounds labels.end
            (step_by labels.start (rounds_of labels scrypter.global_work_size)
              scrypter.global_work_size)
            scrypter w (none, vrf_difficulty))
