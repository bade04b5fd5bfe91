-- ===== src/Base/Bytes.antt =====
-- Byte-addressed storage: the address space that holds the registers, or a packet buffer
-- indexed from its first byte. Addresses do not wrap around the end of the address space.
use Prim.Native.Nat.{ℕ, zero, suc, ◌+◌, ◌*◌, ◌/◌, ◌%◌, ◌≤◌, ◌<◌}
use mathlib.Core.Path.{◌≡◌, refl, ap, ap₂}
use mathlib.Core.Logic.{◌⊎◌}
use mathlib.Core.List.{List, [], ◌∷◌}
use native.Mathlib.Omega.{arith}
use esp32_template.Base.Tests.{◌==◌, if◌then◌else◌}
use esp32_template.Base.Lists.{length, get_or}

abbrev pub Bytes : Type 0
Bytes = ℕ → ℕ

-- Every cell holds a byte.
abbrev pub IsBytes : Bytes → Type 0
IsBytes m = (i : ℕ) → m i < 256

-- `m[a] = v`
abbrev pub upd : Bytes → ℕ → ℕ → Bytes
upd m a v i = if i == a then v else m i

-- `memcpy` into `m` at `a`
unfoldable pub store : Bytes → ℕ → List ℕ → Bytes
store m a [] = m
store m a (x ∷ xs) = store (upd m a x) (a + 1) xs

-- The `n` bytes at `a`
unfoldable pub load : Bytes → ℕ → ℕ → List ℕ
load m a zero = []
load m a (suc n) = m a ∷ load m (a + 1) n

-- A 16-bit value in the machine's little-endian order
abbrev pub get_u16 : Bytes → ℕ → ℕ
get_u16 m a = m a + 256 * m (a + 1)

abbrev pub put_u16 : Bytes → ℕ → ℕ → Bytes
put_u16 m a v = upd (upd m a (v % 256)) (a + 1) (v / 256 % 256)

-- A copy changes nothing outside its range.
pub store-outside :
    (xs : List ℕ) (m : Bytes) (a i : ℕ) → (i < a) ⊎ (a + length xs ≤ i) → store m a xs i ≡ m i
unfolding store
store-outside [] m a i h = refl
store-outside (x ∷ xs) m a i h = ground (arith, store-outside xs (upd m a x) (a + 1) i)

-- Inside its range the copy puts the copied bytes.
pub store-inside :
    (xs : List ℕ) (m : Bytes) (a k : ℕ) → k < length xs → store m a xs (a + k) ≡ get_or xs k 0
unfolding store
store-inside [] m a k h = absurd (omega arith)
store-inside (x ∷ xs) m a zero h = ground (arith, store-outside xs (upd m a x) (a + 1) (a + 0))
store-inside (x ∷ xs) m a (suc k) h =
    let e : a + suc k ≡ a + 1 + k = omega arith in
    rw e (store-inside xs (upd m a x) (a + 1) k (omega arith))

pub length-load : (n : ℕ) (m : Bytes) (a : ℕ) → length (load m a n) ≡ n
unfolding load
length-load zero m a = refl
length-load (suc n) m a = ap suc (length-load n m (a + 1))

pub get_or-load : (n : ℕ) (m : Bytes) (a k : ℕ) → k < n → get_or (load m a n) k 0 ≡ m (a + k)
unfolding load
get_or-load zero m a k h = absurd (omega arith)
get_or-load (suc n) m a zero h = ap m (omega arith)
get_or-load (suc n) m a (suc k) h =
    let e : a + suc k ≡ a + 1 + k = omega arith in rw e (get_or-load n m (a + 1) k (omega arith))

-- Bytes that agree on a range are read alike.
pub load_ext :
    (n : ℕ) (m m' : Bytes) (a b : ℕ)
    → ((k : ℕ) → k < n → m (a + k) ≡ m' (b + k))
    → load m a n ≡ load m' b n
unfolding load
load_ext zero m m' a b h = refl
load_ext (suc n) m m' a b h =
    ap₂ ◌∷◌ (ground (arith, h 0)) (load_ext n m m' (a + 1) (b + 1) λ k p. ground (arith, h (suc k)))

-- A copy is read back.
pub load-store : (xs : List ℕ) (m : Bytes) (a : ℕ) → load (store m a xs) a (length xs) ≡ xs
unfolding load store
load-store [] m a = refl
load-store (x ∷ xs) m a =
    ap₂ ◌∷◌ (ground (arith, store-outside xs (upd m a x) (a + 1) a))
      (load-store xs (upd m a x) (a + 1))
