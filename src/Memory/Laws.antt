-- ===== src/Memory/Laws.antt =====
-- Copies inside the arrays of `Memory`: what they give, and when they fault.
use cppmulti_thread_server_b.Prelude.{
  leb, true, ℕ, zero, suc, ◌+◌, ◌≤◌, ◌<◌, ◌≡◌, refl, ap, sym, ◌∙◌, List, [], ◌∷◌, ◌++◌, arith,
  length, take, drop, length-append, length-take, length-drop, take-length, drop-length, le→leb,
  gt→leb,
}
use cppmulti_thread_server_b.Memory.{done, fault, read_bytes, write_bytes}

pub read_bytes-append :
    (pre mid post : List ℕ) {at n : ℕ}
    → at ≡ length pre
    → n ≡ length mid
    → read_bytes at n (pre ++ (mid ++ post)) ≡ done mid
unfolding read_bytes
read_bytes-append pre mid post p q =
    rw (p, q, drop-length pre (mid ++ post), take-length mid post) (rw fits)
  where
    fits : leb (length pre + length mid) (length (pre ++ (mid ++ post))) ≡ true
    fits = le→leb _ _ (omega (arith, length-append pre (mid ++ post), length-append mid post))

pub read_bytes-fault : (at n : ℕ) (src : List ℕ) → length src < at + n → read_bytes at n src ≡ fault
unfolding read_bytes
read_bytes-fault at n src h = rw (gt→leb _ _ h)

drop-nil : (m : ℕ) → drop {A = ℕ} m [] ≡ []
drop-nil zero = refl
drop-nil (suc m) = refl

pub drop-drop : (m n : ℕ) (xs : List ℕ) → drop m (drop n xs) ≡ drop (n + m) xs
drop-drop m zero xs = ap (λ k. drop k xs) (omega arith)
drop-drop m (suc n) [] = drop-nil m ∙ sym (drop-nil (suc n + m))
drop-drop m (suc n) (x ∷ xs) =
    let e : suc (n + m) ≡ suc n + m = omega arith in drop-drop m n xs ∙ ap (λ k. drop k (x ∷ xs)) e

pub write_bytes-append :
    (pre src dst : List ℕ) {at : ℕ}
    → at ≡ length pre
    → length src ≤ length dst
    → write_bytes at src (pre ++ dst) ≡ done (pre ++ (src ++ drop (length src) dst))
unfolding write_bytes
write_bytes-append pre src dst p h =
    rw
      (
        p,
        take-length pre dst,
        ← drop-drop (length src) (length pre) (pre ++ dst),
        drop-length pre dst,
      )
      (rw fits)
  where
    fits : leb (length pre + length src) (length (pre ++ dst)) ≡ true
    fits = le→leb _ _ (omega (arith, length-append pre dst))

pub write_bytes-fault :
    (at : ℕ) (src dst : List ℕ) → length dst < at + length src → write_bytes at src dst ≡ fault
unfolding write_bytes
write_bytes-fault at src dst h = rw (gt→leb _ _ h)

-- A copy leaves the array's length as it was.
pub length-write_bytes :
    (at : ℕ) (src dst : List ℕ) {out : List ℕ}
    → write_bytes at src dst ≡ done out
    → length out ≡ length dst
unfolding write_bytes
length-write_bytes at src dst e = ground (
  arith,
  length-append (take at dst) (src ++ drop (at + length src) dst),
  length-append src (drop (at + length src) dst),
  length-take at dst,
  length-drop (at + length src) dst,
)

-- A copy that fits is made.
pub write_bytes-fits :
    (at : ℕ) (src dst : List ℕ)
    → at + length src ≤ length dst
    → (out : List ℕ) × (write_bytes at src dst ≡ done out) × (length out ≡ length dst)
write_bytes-fits at src dst h = (_, made, length-write_bytes at src dst made)
  where
    made : write_bytes at src dst ≡ done (take at dst ++ (src ++ drop (at + length src) dst))
    made = unfold write_bytes in rw (le→leb _ _ h) refl

pub read_bytes-fits :
    (at n : ℕ) (src : List ℕ)
    → at + n ≤ length src
    → (out : List ℕ) × (read_bytes at n src ≡ done out) × (length out ≡ n)
read_bytes-fits at n src h =
    (take n (drop at src), made, omega (arith, length-take n (drop at src), length-drop at src))
  where
    made : read_bytes at n src ≡ done (take n (drop at src))
    made = unfold read_bytes in rw (le→leb _ _ h) refl
