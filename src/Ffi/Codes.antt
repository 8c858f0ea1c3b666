-- ===== src/Ffi/Codes.antt =====
-- The codes that `initialize` and `new_initializer` return.
use post_rs.Base.{
  ℕ, zero, suc, ◌+◌, ◌-◌, ◌*◌, ◌^◌, ◌≤◌, ◌<◌, ◌≡◌, ◌↔◌, inl, inr, refl, ap, ◌∙◌, arith, Bool, true,
  false, Option, none, some, List, [], ◌∷◌, map,
}
use post_rs.Base.{length, take, length-append, length-take, leb, ◌==◌, All, range_from, Bool-cases}
use post_rs.Base.Bytes.{IsBytes}
use post_rs.Base.Words.{u64, sub64, is_power_of_two, ilog2, log2_loop}
use post_rs.Base.Outcome.{done, panicked}
use post_rs.Config.{ScryptParams, ScryptFactors, to_scrypt_factors, new_scrypt_params}
use post_rs.Crates.{Scrypt}
use post_rs.Initialize.{VrfNonce, Slice, slice_writer, label_of, labels_of, initialize_to}
use post_rs.Initialize.Nonce.{best, best-IsNonce, IsNonce, All-labels}
use post_rs.Ocl.Interface.{OpenCl}
use post_rs.Ocl.Filtering.{RegexCrate, Environment}
use post_rs.Ocl.Blocks.{halves}
use post_rs.Ocl.Writers.{write_labels-halves, slice_laws}
use post_rs.Ffi.Initialization.{
  Initialized, initialize_ok, initialize_ok_nonce_not_found, cpu_inner, report_nonce, initialize_c,
  cpu_provider_id, new_initializer_instance,
}

one_is_power : is_power_of_two 1 ≡ true
unfolding is_power_of_two ilog2 log2_loop
one_is_power = refl

zero_is_not : is_power_of_two 0 ≡ false
unfolding is_power_of_two ilog2 log2_loop
zero_is_not = refl

-- With the CPU, `new_initializer` panics exactly when `n` is 1: 1 passes as a power of two, and is
-- refused by an assertion of `ScryptParams::new`.
pub new_initializer_panics_iff :
    (ocl : OpenCl) (regex : RegexCrate) (env : Environment) (gpu_type : ocl.DeviceType) (n : ℕ)
    → (new_initializer_instance ocl regex env gpu_type cpu_provider_id n ≡ panicked) ↔ (n ≡ 1)
unfolding new_initializer_instance new_scrypt_params
new_initializer_panics_iff ocl regex env gpu_type zero =
    (λ e. absurd (cc (rw (new_initializer_instance, zero_is_not) at e)), λ e. absurd (omega arith))
new_initializer_panics_iff ocl regex env gpu_type (suc zero) =
    (λ e. refl, λ e. rw (new_initializer_instance, one_is_power) refl)
new_initializer_panics_iff ocl regex env gpu_type (suc (suc n)) = (
  λ e.
      let two : leb 2 (suc (suc n)) ≡ true = ground arith in
      elim (Bool-cases (is_power_of_two (suc (suc n)))) [
        | inl power ↦
            absurd
              (cc (rw (new_initializer_instance, power, new_scrypt_params, two, one_is_power) at e))
        | inr other ↦ absurd (cc (rw (new_initializer_instance, other) at e))
      ],
  λ e. absurd (omega arith),
)

module _ (scrypt : Scrypt) (params : ScryptParams) (factors : ScryptFactors)
    (convert : to_scrypt_factors params ≡ some factors)
    (bytes : (input salt : List ℕ) (f : ScryptFactors)
      → IsBytes 32 (scrypt.scrypt input salt f 32)) where
  labels_IsBytes :
      (commitment : List ℕ) (start count : ℕ)
      → All (IsBytes 32) (map (label_of scrypt factors commitment) (range_from start count))
  unfolding label_of
  labels_IsBytes commitment start count =
      All-labels (label_of scrypt factors commitment) (IsBytes 32) start count (λ i. bytes _ _ _)

  length-halves :
      (labels : List (List ℕ))
      → All (IsBytes 32) labels
      → length (halves labels) ≡ length labels * 16
  length-halves [] h = refl
  length-halves (label ∷ labels) (h, hs) = omega (
    arith,
    length-append (take 16 label) (halves labels),
    length-take 16 label,
    h.0,
    length-halves labels hs,
  )

  length-labels :
      (start count : ℕ) (commitment : List ℕ)
      → length (map (label_of scrypt factors commitment) (range_from start count)) ≡ count
  length-labels start zero commitment = refl
  length-labels start (suc count) commitment = ap suc (length-labels (start + 1) count commitment)

  -- A buffer of 16 bytes for each label is filled, and the nonce is that of the labels.
  initialize_to-filled :
      (commitment : List ℕ) (start last : ℕ) (difficulty : List ℕ)
      → start ≤ last
      → let labels =
          map (label_of scrypt factors commitment) (range_from start (last + 1 - start)) in
        initialize_to slice_writer scrypt params
          (record { written = []; room = (last + 1 - start) * 16 })
          commitment
          (record { start = start; end = last + 1 })
          (some difficulty)
        ≡ done (
          record { written = halves labels; room = 0 },
          (best start labels (none, some difficulty)).0,
        )
  unfolding initialize_to labels_of
  initialize_to-filled commitment start last difficulty le =
      let count = last + 1 - start in
      let labels = map (label_of scrypt factors commitment) (range_from start count) in
      let empty : Slice = record { written = []; room = count * 16 } in
      let size = length-halves labels (labels_IsBytes commitment start count) in
      let fits : leb (length (halves labels)) (count * 16) ≡ true =
        ground (arith, size, length-labels start count commitment) in
      let left : count * 16 - length (halves labels) ≡ 0 =
        omega (arith, size, length-labels start count commitment) in
      rw (convert, labels_of)
        (write_labels-halves slice_writer slice_laws start labels (none, some difficulty) empty
          ∙ rw (fits, left) refl)

-- What the caller finds: the buffer with these bytes and no room left, and, if it wants the nonce,
-- whether there is one and which.
abbrev pub IsReported : Bool → List ℕ → Option VrfNonce → Initialized → Type 0
IsReported false bytes vrf_nonce r =
    (r.code ≡ initialize_ok)
    × (r.out_nonce ≡ none)
    × (r.buffer ≡ some (record { written = bytes; room = 0 }))
IsReported true bytes none r =
    (r.code ≡ initialize_ok_nonce_not_found)
    × (r.out_nonce ≡ none)
    × (r.buffer ≡ some (record { written = bytes; room = 0 }))
IsReported true bytes (some n) r =
    (r.code ≡ initialize_ok)
    × (r.out_nonce ≡ some n.index)
    × (r.buffer ≡ some (record { written = bytes; room = 0 }))

report_nonce-IsReported :
    (wants_nonce : Bool) (bytes : List ℕ) (vrf_nonce : Option VrfNonce)
    → IsReported wants_nonce bytes vrf_nonce
        (report_nonce wants_nonce (record { written = bytes; room = 0 }) vrf_nonce)
unfolding report_nonce
report_nonce-IsReported false bytes vrf_nonce = (refl, refl, refl)
report_nonce-IsReported true bytes none = (refl, refl, refl)
report_nonce-IsReported true bytes (some n) = (refl, refl, refl)

-- For parameters that convert, scrypt outputs of 32 bytes, a difficulty of 32 bytes, and a range with
-- `end` inclusive that is in order, ends below 2 ^ 64 - 1 and whose labels have less than 2 ^ 64 bytes,
-- `initialize` on the CPU neither panics nor fails: it fills the caller's buffer with the first halves
-- of the labels. If the caller wants the nonce and a label is below the difficulty, the code is ok and
-- the index of the first of the least labels is stored; if none is below, the code says that no nonce
-- was found, and none is stored; and if the caller does not want it, the code is ok and none is stored.
pub initialize_c_lem :
    (scrypt : Scrypt) (params : ScryptParams) (factors : ScryptFactors)
    (commitment difficulty : List ℕ) (start last : ℕ) (wants_nonce : Bool)
    → to_scrypt_factors params ≡ some factors
    → ((input salt : List ℕ) (f : ScryptFactors) → IsBytes 32 (scrypt.scrypt input salt f 32))
    → IsBytes 32 difficulty
    → start ≤ last
    → last + 1 < 2 ^ 64
    → (last + 1 - start) * 16 < 2 ^ 64
    → (vrf_nonce : Option VrfNonce) × IsNonce start
        (map (label_of scrypt factors commitment) (range_from start (last + 1 - start)))
        difficulty
        vrf_nonce
      × ((r : Initialized) × (initialize_c
              (cpu_inner scrypt params)
              (record { state = tt; commitment = commitment; vrf_difficulty = some difficulty })
              start
              last
              wants_nonce
            ≡ some r)
          × IsReported wants_nonce
              (halves
                (map (label_of scrypt factors commitment) (range_from start (last + 1 - start))))
              vrf_nonce
              r)
unfolding initialize_c
initialize_c_lem scrypt params factors commitment difficulty start last wants_nonce convert bytes hd
      le below fits =
    let labels = map (label_of scrypt factors commitment) (range_from start (last + 1 - start)) in
    let inside : (last == 2 ^ 64 - 1) ≡ false = ground arith in
    let size : u64 (sub64 (last + 1) start * 16) ≡ (last + 1 - start) * 16 = omega arith in
    let run =
      initialize_to-filled scrypt params factors convert bytes commitment start last difficulty
        le in
    (
      (best start labels (none, some difficulty)).0,
      best-IsNonce start labels difficulty hd
          (labels_IsBytes scrypt params factors convert bytes commitment start (last + 1 - start)),
      (
        report_nonce wants_nonce (record { written = halves labels; room = 0 })
            (best start labels (none, some difficulty)).0,
        rw (initialize_c, inside, size, run) refl,
        report_nonce-IsReported wants_nonce (halves labels)
            (best start labels (none, some difficulty)).0,
      ),
    )
