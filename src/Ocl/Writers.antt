-- ===== src/Ocl/Writers.antt =====
-- Writers that take bytes one after another, and what the CPU initializer writes to them.
use post_rs.Base.{ℕ, ◌+◌, ◌≡◌, refl, sym, ap, ◌∙◌, arith, Option, List, [], ◌∷◌, ◌++◌}
use post_rs.Base.{take, length-append}
use post_rs.Base.Words.{Result, ok, err}
use post_rs.Base.Outcome.{
  Outcome, done, failed, panicked, ◌>>=◌, lift, bind-done, bind_assoc, bind-cong,
}
use post_rs.Initialize.{slice_writer, VrfNonce, Writer, update_nonce, write_labels}
use post_rs.Initialize.Nonce.{best}
use post_rs.Ocl.Interface.{OpenCl}
use post_rs.Ocl.Providers.{ScryptError, write_error}
use post_rs.Ocl.Scrypter.{Scrypter}
use post_rs.Ocl.Scrypt.{lift_write}
use post_rs.Ocl.Blocks.{halves}
use mathlib.Core.List.{append_assoc, append-nil}

abbrev pub and_then : {E A B : Type 0} → Result E A → (A → Result E B) → Result E B
and_then (ok a) f = f a
and_then (err e) f = err e

lift-and_then :
    {E A B : Type 0} (r : Result E A) (f : A → Result E B)
    → lift (and_then r f) ≡ (lift r >>= λ a. lift (f a))
lift-and_then (ok a) f = refl
lift-and_then (err e) f = refl

pub lift_write-and_then :
    {ocl : OpenCl} {E A B : Type 0} (r : Result E A) (f : A → Result E B)
    → lift_write {ocl = ocl} (and_then r f) ≡ (lift_write r >>= λ a. lift_write (f a))
lift_write-and_then (ok a) f = refl
lift_write-and_then (err e) f = refl

-- A writer that takes bytes one after another: what it does with two slices in a row is what it
-- does with the one that holds both.
pub record WriterLaws {E : Type 0} (writer : Writer E) : Type 0 where
  pub write_all-nil : (w : writer.W) → writer.write_all w [] ≡ ok w
  pub write_all-append :
      (w : writer.W) (xs ys : List ℕ)
      → writer.write_all w (xs ++ ys)
        ≡ and_then (writer.write_all w xs) (λ w'. writer.write_all w' ys)

-- The loop of the CPU initializer writes the halves of the labels in a row.
pub write_labels-halves :
    {E : Type 0} (writer : Writer E)
    → WriterLaws writer
    → (index : ℕ) (labels : List (List ℕ)) (vrf : Option VrfNonce × Option (List ℕ)) (w : writer.W)
    → write_labels writer index labels vrf w
      ≡ (lift (writer.write_all w (halves labels)) >>= λ w'. done (w', (best index labels vrf).0))
unfolding write_labels best
write_labels-halves writer laws index [] vrf w =
    sym (bind-done (λ w'. done (w', vrf.0)) (ap lift (laws.write_all-nil w)))
write_labels-halves writer laws index (label ∷ labels) vrf w =
    bind-cong (lift (writer.write_all w (take 16 label)))
      (λ w'. write_labels-halves writer laws (index + 1) labels (update_nonce index label vrf) w')
    ∙ sym (bind_assoc (lift (writer.write_all w (take 16 label))) _ _)
    ∙ ap (λ t. t >>= λ w'. done (w', (best (index + 1) labels (update_nonce index label vrf)).0))
        (sym (
          ap lift (laws.write_all-append w (take 16 label) (halves labels))
          ∙ lift-and_then (writer.write_all w (take 16 label)) _))

-- The scrypter is left out of the result.
abbrev pub forget :
    {ocl : OpenCl} {E W : Type 0}
    → Outcome (ScryptError ocl E) (Scrypter ocl × W × Option VrfNonce)
    → Outcome (ScryptError ocl E) (W × Option VrfNonce)
forget r = r >>= λ (s, w, nonce). done (w, nonce)

-- An error of the writer, as the OpenCL initializer reports it.
abbrev pub as_scrypt_error :
    {ocl : OpenCl} {E A : Type 0} → Outcome E A → Outcome (ScryptError ocl E) A
as_scrypt_error (done a) = done a
as_scrypt_error (failed e) = failed (write_error e)
as_scrypt_error panicked = panicked

abbrev pub with_nonce :
    {F W : Type 0} → Option VrfNonce → Outcome F W → Outcome F (W × Option VrfNonce)
with_nonce nonce r = r >>= λ w. done (w, nonce)

pub halves-append : (xs ys : List (List ℕ)) → halves (xs ++ ys) ≡ halves xs ++ halves ys
halves-append [] ys = refl
halves-append (x ∷ xs) ys =
    ap (◌++◌ (take 16 x)) (halves-append xs ys)
    ∙ sym (append_assoc (take 16 x) (halves xs) (halves ys))

pub as_scrypt_error-with_nonce :
    {ocl : OpenCl} {E W : Type 0} (nonce : Option VrfNonce) (r : Result E W)
    → as_scrypt_error {ocl = ocl} (lift r >>= λ w. done (w, nonce))
      ≡ with_nonce nonce (lift_write {ocl = ocl} r)
as_scrypt_error-with_nonce found (ok w) = refl
as_scrypt_error-with_nonce found (err e) = refl

-- A slice that is written twice in a row has been written at once.
pub slice_laws : WriterLaws slice_writer
slice_laws = record {
  write_all-nil = λ w. ground (arith, append-nil w.written);
  write_all-append = λ w xs ys. ground (arith, length-append xs ys, append_assoc w.written xs ys);
}
