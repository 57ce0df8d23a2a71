-- ===== src/Common/Memory.antt =====
-- Memory as a list of bytes. A C pointer into an allocation is the list from it to the end.
use newhttp.Common.{ℕ, zero, suc, ◌+◌, ◌≤◌, ◌≡◌, refl, ap, List, [], ◌∷◌, ◌++◌, arith, length, drop}

-- `memcpy(dest, src, n)`; nothing is written past the end of the allocation.
abbrev pub copy : List ℕ → List ℕ → List ℕ
copy dest [] = dest
copy [] (b ∷ src) = []
copy (x ∷ dest) (b ∷ src) = b ∷ copy dest src

-- A write through `base + n`.
abbrev pub at : ℕ → (List ℕ → List ℕ) → List ℕ → List ℕ
at zero f m = f m
at (suc n) f [] = []
at (suc n) f (x ∷ m) = x ∷ at n f m

pub copy_lem :
    (dest src : List ℕ) → length src ≤ length dest → copy dest src ≡ src ++ drop (length src) dest
copy_lem dest [] h = refl
copy_lem [] (b ∷ src) h = absurd (omega arith)
copy_lem (x ∷ dest) (b ∷ src) h = ap (◌∷◌ b) (copy_lem dest src (omega arith))

pub length-copy : (dest src : List ℕ) → length (copy dest src) ≡ length dest
length-copy dest [] = refl
length-copy [] (b ∷ src) = refl
length-copy (x ∷ dest) (b ∷ src) = ap suc (length-copy dest src)

pub drop-at :
    (n : ℕ) (f : List ℕ → List ℕ) (m : List ℕ) → n ≤ length m → drop n (at n f m) ≡ f (drop n m)
drop-at zero f m h = refl
drop-at (suc n) f [] h = absurd (omega arith)
drop-at (suc n) f (x ∷ m) h = drop-at n f m (omega arith)

-- A write behind `n` bytes, seen from the pointer past them.
pub drop-at_add :
    (n k j : ℕ) (f : List ℕ → List ℕ) (m : List ℕ)
    → j ≡ n + suc k
    → drop n (at j f m) ≡ at (suc k) f (drop n m)
drop-at_add zero k j f m e = let e' : j ≡ suc k = omega arith in rw e'
drop-at_add (suc n) k zero f m e = absurd (omega arith)
drop-at_add (suc n) k (suc j) f [] e = refl
drop-at_add (suc n) k (suc j) f (x ∷ m) e = drop-at_add n k j f m (omega arith)

pub at-append :
    (xs : List ℕ) (f : List ℕ → List ℕ) (ys : List ℕ) → at (length xs) f (xs ++ ys) ≡ xs ++ f ys
at-append [] f ys = refl
at-append (x ∷ xs) f ys = ap (◌∷◌ x) (at-append xs f ys)

pub at-at : (n : ℕ) (f g : List ℕ → List ℕ) (m : List ℕ) → at n f (at n g m) ≡ at n (λ p. f (g p)) m
at-at zero f g m = refl
at-at (suc n) f g [] = refl
at-at (suc n) f g (x ∷ m) = ap (◌∷◌ x) (at-at n f g m)
