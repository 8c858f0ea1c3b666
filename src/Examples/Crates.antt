-- ===== src/Examples/Crates.antt =====
-- Simple instances of the crates that the models call, with the laws that theorems ask of them.
use post_rs.Base.{
  ℕ, zero, suc, ◌+◌, ◌-◌, ◌*◌, ◌/◌, ◌%◌, ◌^◌, ◌<◌, ◌≡◌, refl, sym, ap, ◌∙◌, arith, List, [], ◌∷◌,
  ◌++◌, Bool,
}
use post_rs.Base.{length, take, replicate, chunks_exact}
use post_rs.Base.{chunks_exact_more, chunks_exact_end}
use post_rs.Base.Bytes.{
  IsByte, IsBytes, to_le_bytes, from_le_bytes, be_value, be_value-lt, to_le_bytes-IsBytes,
}
use post_rs.Base.Words.{ok}
use post_rs.Crates.{Blake3, Aes, AesLaws, Scrypt}
use post_rs.Difficulty.{U256, U256Laws}
use post_rs.Metadata.{F64, F64Laws}
use post_rs.Pow.{RandomX}
use post_rs.Base.Arith.{div_mod_unique, mul-le-mul_right}
use mathlib.Core.Path.{ap₂}
use native.Mathlib.Nat.{pow-suc, div-le_self, mod-eq_of_lt, div-add-mod, mod-lt, one-le-pow}

-- A hash that keeps its input, and a reader that gives the number 1 for ever.
abbrev pub blake3 : Blake3
blake3 = record {
  Hasher = List ℕ;
  Reader = Unit {0};
  new = [];
  update = λ hasher part. hasher ++ part;
  finalize = λ hasher. take 32 (hasher ++ replicate 32 0);
  finalize_xof = λ hasher. tt;
  fill = λ reader n. (take n (1 ∷ replicate n 0), tt);
}

abbrev concat_map : (List ℕ → List ℕ) → List (List ℕ) → List ℕ
concat_map f [] = []
concat_map f (x ∷ xs) = f x ++ concat_map f xs

-- A cipher that adds one to the block as a number, and the length of the key.
abbrev one_block : List ℕ → List ℕ → List ℕ
one_block key block = to_le_bytes 16 (from_le_bytes block + 1 + length key)

abbrev pub aes : Aes
aes = record {
  Key = List ℕ;
  new = λ key. key;
  encrypt_block = one_block;
  encrypt_padded = λ key buf. concat_map (one_block key) (chunks_exact 16 buf);
}

pub aes_laws : AesLaws aes
aes_laws = record {
  encrypt_padded-nil =
      λ key. ap (concat_map (one_block key)) (chunks_exact_end 16 [] (omega arith));
  encrypt_padded-append = λ key block rest h.
      ap (concat_map (one_block key)) (chunks_exact_more 16 block rest (omega arith) h);
  encrypt_block-IsBytes = λ key block. to_le_bytes-IsBytes 16 _;
}

pub replicate-IsBytes : (k b : ℕ) → IsByte b → IsBytes k (replicate k b)
replicate-IsBytes zero b h = (refl, tt)
replicate-IsBytes (suc k) b h = let (l, bytes) = replicate-IsBytes k b h in (ap suc l, (h, bytes))

-- An output that is the input read as a number.
abbrev pub scrypt : Scrypt
scrypt = record { scrypt = λ input salt factors n. to_le_bytes n (from_le_bytes input) }

-- The bytes of a number, highest first.
abbrev to_be : ℕ → ℕ → List ℕ
to_be zero n = []
to_be (suc k) n = (n / 256 ^ k % 256) ∷ to_be k n

to_be-IsBytes : (k n : ℕ) → IsBytes k (to_be k n)
to_be-IsBytes zero n = (refl, tt)
to_be-IsBytes (suc k) n = let (l, bytes) = to_be-IsBytes k n in (ap suc l, (omega arith, bytes))

split_mod : (n p : ℕ) → 0 < p → n / p % 256 * p + n % p ≡ n % (p * 256)
split_mod n p pos =
    let whole : n ≡ p * (n / p) + n % p = sym (div-add-mod n p) in
    let digits : n / p ≡ 256 * (n / p / 256) + n / p % 256 = omega arith in
    let product : p * (n / p) ≡ p * (256 * (n / p / 256) + n / p % 256) =
      ap (λ (t : ℕ). p * t) digits in
    sym (
      (div_mod_unique n (p * 256) (n / p / 256) (n / p % 256 * p + n % p) (grind arith)
        (grind (arith, mod-lt n pos, mul-le-mul_right (n / p % 256) 255 p))).1)

be_value-to_be : (k n : ℕ) → be_value (to_be k n) ≡ n % 256 ^ k
be_value-to_be zero n = omega arith
be_value-to_be (suc k) n =
    let p : ℕ = 256 ^ k in
    let value : be_value (to_be (suc k) n) ≡ n / p % 256 * p + n % p =
      ap₂ (λ (i j : ℕ). n / p % 256 * 256 ^ i + j) (to_be-IsBytes k n).0 (be_value-to_be k n) in
    value
    ∙ split_mod n p (one-le-pow k 256 (omega arith))
    ∙ ap (λ (m : ℕ). n % m) (sym (pow-suc 256 k))

full : (bs : List ℕ) → IsBytes 32 bs → be_value bs < 256 ^ 32
full bs h =
    let e : 256 ^ length bs ≡ 256 ^ 32 = ap (λ (k : ℕ). 256 ^ k) h.0 in
    omega (arith, be_value-lt bs h.1)

div_small : (a n m : ℕ) → 0 < n → a < m → a / n < m
div_small a n m pos h = omega (arith, div-le_self a n)

div_one : (a : ℕ) → a / 1 ≡ a
div_one a = omega arith

abbrev pub u256 : U256
u256 = record {
  Num = ℕ;
  from_big_endian = be_value;
  div = λ a n. a % 256 ^ 32 / n;
  to_big_endian = to_be 32;
}

pub u256_laws : U256Laws u256
u256_laws = record {
  value = λ a. a % 256 ^ 32;
  value-from_big_endian = λ bs h. mod-eq_of_lt (full bs h);
  value-div = λ a n h.
      (let bound : a % 256 ^ 32 / n < 256 ^ 32 =
          div_small (a % 256 ^ 32) n (256 ^ 32) h (omega arith) in
        omega arith);
  to_big_endian-IsBytes = to_be-IsBytes 32;
  be_value-to_big_endian = be_value-to_be 32;
}

-- A number is an exact fraction.
abbrev pub f64 : F64
f64 = record {
  Float = ℕ × ℕ;
  from_u64 = λ n. (n, 1);
  div = λ (a, b) (c, d). (a * d, b * c);
  ceil = λ (a, b). ((a + b - 1) / b, 1);
  to_usize = λ (a, b). a / b;
}

pub f64_laws : F64Laws f64
f64_laws = record {
  ceil_div = λ a b ha pos hb.
      let one : a * 1 + 1 * b - 1 ≡ a + b - 1 = omega arith in
      let whole : 1 * b ≡ b = omega arith in
      div_one ((a * 1 + 1 * b - 1) / (1 * b))
      ∙ ap (λ (t : ℕ). t / (1 * b)) one
      ∙ ap (λ (t : ℕ). (a + b - 1) / t) whole;
}

-- A hash that is its input.
abbrev pub randomx : RandomX
randomx = record {
  Flags = Bool;
  Cache = List ℕ;
  Dataset = List ℕ;
  Vm = Unit {0};
  RandomXError = Unit {0};
  contains_full_mem = λ full. full;
  new_cache = λ flags key. ok key;
  new_dataset = λ flags cache start. ok cache;
  new_vm = λ flags cache dataset. ok tt;
  calculate_hash = λ vm input. ok input;
}
