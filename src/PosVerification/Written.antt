-- ===== src/PosVerification/Written.antt =====
-- What the CPU initializer writes passes the check.
use post_rs.Base.{IsMember, here, there}
use post_rs.Base.{
  ℕ, zero, suc, ◌+◌, ◌-◌, ◌*◌, ◌^◌, ◌≤◌, ◌<◌, ◌≡◌, inl, inr, refl, sym, ap, ◌∙◌, arith, Option,
  none, some, List, [], ◌∷◌, ◌++◌, map,
}
use post_rs.Base.{
  length, leb, Bool-cases, take, drop, All, range_from, length-take, drop-drop, take-append_exact,
  drop-append_exact,
}
use post_rs.Base.Outcome.{Outcome, done, lift, lift-eq-done, expect, expect-eq-done, >>=-eq-done}
use post_rs.Crates.{Blake3, Scrypt}
use post_rs.Config.{ScryptParams, ScryptFactors, to_scrypt_factors}
use post_rs.Metadata.{PostMetadata, F64, labels_in_file}
use post_rs.Prove.Nonces.{Range}
use post_rs.Initialize.{VrfNonce, Slice, slice_writer, label_of, labels_of, initialize_to}
use post_rs.Ocl.Blocks.{halves}
use post_rs.Ocl.Writers.{write_labels-halves, slice_laws}
use post_rs.PosVerification.{VerificationError, Sampling, sample_of, Verifies}
use post_rs.PosVerification.Accept.{
  Matches, IsExplained, file_reader, offset_of, commitment_of, Verifies-IsExplained,
}

-- The half of a label stands at 16 times its place.
halves_at :
    (label : ℕ → List ℕ) (start count index : ℕ)
    → ((i : ℕ) → length (label i) ≡ 32)
    → index < count
    → take 16 (drop (index * 16) (halves (map label (range_from start count))))
      ≡ take 16 (label (index + start))
halves_at label start zero index size32 h = absurd (omega arith)
halves_at label start (suc count) zero size32 h =
    let whole : length (take 16 (label start)) ≡ 16 =
      omega (arith, length-take 16 (label start), size32 start) in
    let at : start ≡ 0 + start = omega arith in
    take-append_exact (take 16 (label start)) _ 16 whole ∙ ap (λ (i : ℕ). take 16 (label i)) at
halves_at label start (suc count) (suc index) size32 h =
    let whole : length (take 16 (label start)) ≡ 16 =
      omega (arith, length-take 16 (label start), size32 start) in
    let at : index + (start + 1) ≡ suc index + start = omega arith in
    let rest = halves (map label (range_from (start + 1) count)) in
    ap (take 16) (
      sym (drop-drop 16 (index * 16) (suc index * 16) (take 16 (label start) ++ rest) (omega arith))
      ∙ ap (drop (index * 16)) (drop-append_exact (take 16 (label start)) rest 16 whole))
    ∙ halves_at label (start + 1) count index size32 (omega arith)
    ∙ ap (λ (i : ℕ). take 16 (label i)) at

slice_written :
    (w : Slice) (bytes : List ℕ) {w' : Slice}
    → lift (slice_writer.write_all w bytes) ≡ done w'
    → w'.written ≡ w.written ++ bytes
slice_written w bytes {w' = w'} e =
    let run = lift-eq-done (slice_writer.write_all w bytes) e in
    elim (Bool-cases (leb (length bytes) w.room)) [
      | inl fits ↦
          let now : Slice = record { written = w.written ++ bytes; room = w.room - length bytes } in
          let same : now ≡ w' = cc (rw fits at run) in ap (λ (t : Slice). t.written) (sym same)
      | inr full ↦ absurd (cc (rw full at run))
    ]

module _ (scrypt : Scrypt) (params : ScryptParams) (factors : ScryptFactors)
    (convert : to_scrypt_factors params ≡ some factors) where
  written_halves :
      (commitment : List ℕ) (start count room : ℕ) (vrf_difficulty : Option (List ℕ)) (w : Slice)
      (found : Option VrfNonce)
      → initialize_to slice_writer scrypt params
          (record { written = []; room = room })
          commitment
          (record { start = start; end = start + count })
          vrf_difficulty
        ≡ done (w, found)
      → halves (map (label_of scrypt factors commitment) (range_from start count)) ≡ w.written
  unfolding initialize_to labels_of
  written_halves commitment start count room vrf_difficulty w found e =
      let range : Range = record { start = start; end = start + count } in
      let empty : Slice = record { written = []; room = room } in
      let labels = map (label_of scrypt factors commitment) (range_from start count) in
      let size : start + count - start ≡ count = omega arith in
      let listed : labels_of scrypt params commitment range ≡ some labels =
        rw (labels_of, convert, size) refl in
      let (made, f, g) = >>=-eq-done (expect (labels_of scrypt params commitment range)) _ e in
      let same : labels ≡ made =
        cc (listed, expect-eq-done (labels_of scrypt params commitment range) f) in
      let h =
        sym (write_labels-halves slice_writer slice_laws start made (none, vrf_difficulty) empty)
        ∙ g in
      let (w1, a, b) = >>=-eq-done (lift (slice_writer.write_all empty (halves made))) _ h in
      let kept : w1 ≡ w = cc b in
      ap halves same
      ∙ sym (slice_written empty (halves made) a)
      ∙ ap (λ (t : Slice). t.written) kept

written_labels :
    (label : ℕ → List ℕ) (offset count : ℕ) (bytes sample : List ℕ)
    → ((i : ℕ) → length (label i) ≡ 32)
    → halves (map label (range_from offset count)) ≡ bytes
    → All (λ index. index < count) sample
    → All (Matches (λ index. label (index + offset)) bytes) sample
written_labels label offset count bytes [] size32 e h = tt
written_labels label offset count bytes (index ∷ sample) size32 e (h, hs) = (
  ap (λ t. take 16 (drop (index * 16) t)) (sym e) ∙ halves_at label offset count index size32 h,
  written_labels label offset count bytes sample size32 e hs,
)

member_All :
    (P : ℕ → Type 0) (sample : List ℕ) {index : ℕ} → All P sample → IsMember index sample → P index
member_All P [] h k = elim k [ ]
member_All P (index ∷ sample) (h, hs) here = h
member_All P (index ∷ sample) (h, hs) (there k) = member_All P sample hs k

only_success :
    (label : ℕ → List ℕ) (bytes : List ℕ) (file_idx : ℕ) (sample : List ℕ)
    (r : Outcome VerificationError (Unit {0}))
    → All (Matches label bytes) sample
    → IsExplained label bytes file_idx sample r
    → r ≡ done tt
only_success label bytes file_idx sample r all (inl (e, m)) = e
only_success label bytes file_idx sample r all (inr (index, k, differ, e)) =
    absurd (differ (member_All (Matches label bytes) sample all k))

-- A file that holds what a run of `initialize_to` wrote for all its labels passes the check, whatever
-- labels are chosen: `verify` may succeed, and has no other result.
pub written-Verifies :
    (blake3 : Blake3) (scrypt : Scrypt) (f64 : F64) (sampling : Sampling f64) (at file_idx : ℕ)
    (fraction : f64.Float) (metadata : PostMetadata) (params : ScryptParams)
    (factors : ScryptFactors) (labels_count room : ℕ) (vrf_difficulty : Option (List ℕ))
    (file : Slice) (found : Option VrfNonce)
    → to_scrypt_factors params ≡ some factors
    → ((i : ℕ) → length (label_of scrypt factors (commitment_of blake3 metadata) i) ≡ 32)
    → labels_in_file f64 metadata file_idx ≡ some labels_count
    → All (λ index. index < labels_count) (sample_of f64 sampling fraction labels_count)
    → labels_count * 16 ≤ 2 ^ 64
    → offset_of metadata file_idx + labels_count < 2 ^ 64
    → initialize_to slice_writer scrypt params
        (record { written = []; room = room })
        (commitment_of blake3 metadata)
        (record {
          start = offset_of metadata file_idx;
          end = offset_of metadata file_idx + labels_count;
        })
        vrf_difficulty
      ≡ done (file, found)
    → Verifies blake3 scrypt f64 sampling file_reader
        (file.written, at)
        file_idx
        fraction
        metadata
        params
        (done tt)
      × ((r : Outcome VerificationError (Unit {0}))
          → Verifies blake3 scrypt f64 sampling file_reader
              (file.written, at)
              file_idx
              fraction
              metadata
              params
              r
          → r ≡ done tt)
written-Verifies blake3 scrypt f64 sampling at file_idx fraction metadata params factors
      labels_count room vrf_difficulty file found convert size32 count inside small fits run =
    let offset = offset_of metadata file_idx in
    let label : ℕ → List ℕ = label_of scrypt factors (commitment_of blake3 metadata) in
    let sample = sample_of f64 sampling fraction labels_count in
    let bytes =
      written_halves scrypt params factors convert (commitment_of blake3 metadata) offset
        labels_count room vrf_difficulty file found run in
    let all : All (Matches (λ index. label (index + offset)) file.written) sample =
      written_labels label offset labels_count file.written sample size32 bytes inside in
    let (accepts, explains) =
      Verifies-IsExplained blake3 scrypt f64 sampling file.written at file_idx fraction metadata
        params factors labels_count convert size32 count inside small fits in
    (accepts all, λ r may. only_success _ file.written file_idx sample r all (explains r may))
