-- ===== src/Prelude/Keys.antt =====
-- Go maps and sets whose keys are byte arrays, as lists of keys and association lists.
use mathlib.Core.Path.{◌≡◌, refl, ap}
use mathlib.Core.Bool.{Bool, true, false, ◌||◌}
use mathlib.Core.List.{List, [], ◌∷◌, ◌++◌}
use native.Mathlib.Omega.{arith}
use reflex.Prelude.Tests.{if◌then◌else◌}
use reflex.Prelude.Bytes.{Bytes, bytes_eq, bytes_eq→eq, bytes_eq_refl}

-- `_, found := m[k]`.
unfoldable pub mem : Bytes → List Bytes → Bool
mem k [] = false
mem k (x ∷ xs) = bytes_eq x k || mem k xs

-- `delete(m, k)`.
unfoldable pub delete : Bytes → List Bytes → List Bytes
delete k [] = []
delete k (x ∷ xs) = if bytes_eq x k then delete k xs else x ∷ delete k xs

pub bytes_ne : (x y z : Bytes) → bytes_eq x y ≡ true → bytes_eq x z ≡ bytes_eq y z
bytes_ne x y z h = ap (λ (w : Bytes). bytes_eq w z) (bytes_eq→eq x y h)

pub bytes_eq_join :
    (x y z : Bytes) → bytes_eq x z ≡ true → bytes_eq y z ≡ true → bytes_eq x y ≡ true
bytes_eq_join x y z h k = rw (bytes_eq→eq x z h, bytes_eq→eq y z k) (bytes_eq_refl z)

pub bytes_eq_flip : (x y : Bytes) → bytes_eq x y ≡ true → bytes_eq y x ≡ true
bytes_eq_flip x y h = rw (bytes_eq→eq x y h) (bytes_eq_refl y)

pub mem-append : (k : Bytes) (xs ys : List Bytes) → mem k (xs ++ ys) ≡ (mem k xs || mem k ys)
unfolding mem
mem-append k [] ys = refl
mem-append k (x ∷ xs) ys = ground (arith, mem-append k xs ys)

pub mem-delete :
    (k d : Bytes) (xs : List Bytes)
    → mem k (delete d xs) ≡ (if bytes_eq d k then false else mem k xs)
unfolding mem delete
mem-delete k d [] = ground arith
mem-delete k d (x ∷ xs) = ground (arith, mem-delete k d xs, bytes_ne x d k, bytes_eq_join x d k)

-- No key stands twice.
abbrev pub Distinct : List Bytes → Type 0
Distinct [] = Unit {0}
Distinct (x ∷ xs) = (mem x xs ≡ false) × Distinct xs

pub Distinct-append :
    (xs : List Bytes) (y : Bytes) → mem y xs ≡ false → Distinct xs → Distinct (xs ++ (y ∷ []))
unfolding mem
Distinct-append [] y h d = (refl, tt)
Distinct-append (x ∷ xs) y h (dx, dxs) = (
  rw (mem-append x xs (y ∷ [])) (ground (arith, bytes_eq_flip y x)),
  Distinct-append xs y (ground arith) dxs,
)
