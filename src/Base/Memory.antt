-- ===== src/Base/Memory.antt =====
-- Memory as a function from addresses to bytes, and numbers as bytes.
use Prim.Native.Nat.{ℕ, zero, suc, ◌+◌, ◌-◌, ◌*◌, ◌/◌, ◌%◌, ◌^◌, ◌<◌, ◌≤◌}
use mathlib.Core.Path.{◌≡◌, refl, ap, ap₂, ◌∙◌}
use mathlib.Core.List.{List, [], ◌∷◌}
use native.Mathlib.Omega.{arith}
use ad_index.Base.Tests.{ltb, if◌then◌else◌}
use ad_index.Base.Lists.{length, get_or}

abbrev pub Bytes : Type 0
Bytes = ℕ → ℕ

-- `memcpy` to an address.
unfoldable pub put_bytes : Bytes → ℕ → List ℕ → Bytes
put_bytes memory addr content j =
    if ltb j addr
    then memory j
    else if ltb j (addr + length content)
    then get_or content (j - addr) 0
    else memory j

-- The bytes at an address.
unfoldable pub get_bytes : Bytes → ℕ → ℕ → List ℕ
get_bytes memory addr zero = []
get_bytes memory addr (suc n) = memory addr ∷ get_bytes memory (addr + 1) n

-- The first so many bytes of a number, the lowest first.
unfoldable pub bytes_of : ℕ → ℕ → List ℕ
bytes_of zero n = []
bytes_of (suc k) n = n % 2 ^ 8 ∷ bytes_of k (n / 2 ^ 8)

-- The number that bytes stand for, the lowest first.
unfoldable pub number : List ℕ → ℕ
number [] = 0
number (b ∷ bs) = b + 2 ^ 8 * number bs

get_bytes-put_from :
    (memory : Bytes) (addr i : ℕ) (content rest : List ℕ)
    → i + length rest ≡ length content
    → ((j : ℕ) → j < length rest → get_or content (i + j) 0 ≡ get_or rest j 0)
    → get_bytes (put_bytes memory addr content) (addr + i) (length rest) ≡ rest
unfolding get_bytes put_bytes
get_bytes-put_from memory addr i content [] e h = refl
get_bytes-put_from memory addr i content (x ∷ rest) e h =
    let here : put_bytes memory addr content (addr + i) ≡ x = ground (
      arith,
      e,
      ap (λ k. get_or content k 0) {x = addr + i - addr} {y = i + 0} (omega arith),
      h 0 (omega arith),
    ) in
    let behind = get_bytes-put_from memory addr (i + 1) content rest (omega (arith, e)) (λ j l.
      ap (λ k. get_or content k 0) {x = i + 1 + j} {y = i + suc j} (omega arith)
      ∙ h (suc j) (omega (arith, l))) in
    ap₂ (λ b bs. b ∷ bs) here
      (ap (λ k. get_bytes (put_bytes memory addr content) k (length rest)) {x = addr + i + 1}
          {y = addr + (i + 1)} (omega arith)
        ∙ behind)

pub get_bytes-put_bytes :
    (memory : Bytes) (addr : ℕ) (content : List ℕ)
    → get_bytes (put_bytes memory addr content) addr (length content) ≡ content
get_bytes-put_bytes memory addr content =
    ap (λ k. get_bytes (put_bytes memory addr content) k (length content)) {x = addr} {y = addr + 0}
      (omega arith)
    ∙ get_bytes-put_from memory addr 0 content content (omega arith)
        (λ j l. ap (λ k. get_or content k 0) {x = 0 + j} {y = j} (omega arith))

pub put_outside :
    (memory : Bytes) (addr j : ℕ) (content : List ℕ)
    → (j < addr → put_bytes memory addr content j ≡ memory j)
      × (addr + length content ≤ j → put_bytes memory addr content j ≡ memory j)
unfolding put_bytes
put_outside memory addr j content = ((λ l. ground (arith, l)), λ l. ground (arith, l))

pub length-bytes_of : (k n : ℕ) → length (bytes_of k n) ≡ k
unfolding bytes_of
length-bytes_of zero n = refl
length-bytes_of (suc k) n = ap suc (length-bytes_of k (n / 2 ^ 8))

pub number-bytes_of_8 : (n : ℕ) → n < 2 ^ 64 → number (bytes_of 8 n) ≡ n
unfolding bytes_of number
number-bytes_of_8 n h = omega (arith, h)

pub get_bytes-same :
    (memory memory' : Bytes) (addr n : ℕ)
    → ((j : ℕ) → addr ≤ j → j < addr + n → memory j ≡ memory' j)
    → get_bytes memory addr n ≡ get_bytes memory' addr n
unfolding get_bytes
get_bytes-same memory memory' addr zero h = refl
get_bytes-same memory memory' addr (suc n) h =
    ap₂ (λ b bs. b ∷ bs) (h addr (omega arith) (omega arith))
      (get_bytes-same memory memory' (addr + 1) n
        (λ j l m. h j (omega (arith, l)) (omega (arith, m))))

pub length-get_bytes : (memory : Bytes) (addr n : ℕ) → length (get_bytes memory addr n) ≡ n
unfolding get_bytes
length-get_bytes memory addr zero = refl
length-get_bytes memory addr (suc n) = ap suc (length-get_bytes memory (addr + 1) n)
