-- ===== src/Initialize/Files/Pieces.antt =====
-- The best nonce of a range of labels, file by file.
use post_rs.Base.{
  ℕ, zero, suc, ◌+◌, ◌-◌, ◌^◌, ◌<◌, ◌≤◌, ◌≡◌, ◌∙◌, refl, sym, ap, arith, inl, inr, Option, List,
  map, min,
}
use post_rs.Base.{range_from, leb, Bool-cases}
use post_rs.Base.Words.{u64}
use post_rs.Initialize.{VrfNonce}
use post_rs.Initialize.Nonce.{best}

best_range :
    (f : ℕ → List ℕ) (start a b : ℕ) (vrf : Option VrfNonce × Option (List ℕ))
    → best start (map f (range_from start (a + b))) vrf
      ≡ best
          (start + a)
          (map f (range_from (start + a) b))
          (best start (map f (range_from start a)) vrf)
unfolding best
best_range f start zero b vrf =
    let none_more : start ≡ start + 0 = omega arith in
    let same : 0 + b ≡ b = omega arith in
    ap (λ n. best start (map f (range_from start n)) vrf) same
    ∙ ap (λ (s : ℕ). best s (map f (range_from s b)) vrf) none_more
best_range f start (suc a) b vrf =
    let more : suc a + b ≡ suc (a + b) = omega arith in
    let place : start + 1 + a ≡ start + suc a = omega arith in
    ap (λ n. best start (map f (range_from start n)) vrf) more
    ∙ best_range f (start + 1) a b _
    ∙ ap
        (λ (s : ℕ).
          best s (map f (range_from s b)) (best start (map f (range_from start (suc a))) vrf))
        place

module _ (f : ℕ → List ℕ) (vrf : Option VrfNonce × Option (List ℕ)) where
  abbrev piece : ℕ → ℕ → ℕ → Option VrfNonce × Option (List ℕ)
  piece start n before =
      best start (map f (range_from start n)) (best 0 (map f (range_from 0 before)) vrf)

  piece-cong : (s s' n n' b b' : ℕ) → s ≡ s' → n ≡ n' → b ≡ b' → piece s n b ≡ piece s' n' b'
  piece-cong s s' n n' b b' hs hn hb =
      ap (λ (x : ℕ). piece x n b) hs
      ∙ ap (λ (x : ℕ). piece s' x b) hn
      ∙ ap (λ (x : ℕ). piece s' n' x) hb

  piece_none : (start before : ℕ) → piece start 0 before ≡ best 0 (map f (range_from 0 before)) vrf
  unfolding best
  piece_none start before = refl

  pub piece_file :
      (p size total : ℕ)
      → p + size < 2 ^ 64
      → piece (u64 p) (min total (u64 (u64 p + size)) - u64 p) (min total p)
        ≡ best 0 (map f (range_from 0 (min total (p + size)))) vrf
  piece_file p size total fits = elim (Bool-cases (leb p total)) [
    | inl within ↦
        let below : p ≤ total = ground (arith, within) in
        let b : ℕ = min total (p + size) - p in
        let end : p + b ≡ min total (p + size) = omega (arith, below) in
        piece-cong (u64 p) (0 + p) _ b (min total p) p (omega (arith, fits)) (omega (arith, fits))
          (omega (arith, below))
        ∙ sym (best_range f 0 p b vrf)
        ∙ ap (λ (n : ℕ). best 0 (map f (range_from 0 n)) vrf) end
    | inr past ↦
        let above : total < p = ground (arith, past) in
        piece-cong (u64 p) (u64 p) _ 0 (min total p) (min total (p + size)) refl
          (omega (arith, above, fits)) (omega (arith, above))
        ∙ piece_none (u64 p) (min total (p + size))
  ]
