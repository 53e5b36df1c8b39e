-- ===== src/Arena/Written.antt =====
-- What `AreanaBuddyPool` frees, by the header that `DoAlloc` and `Write` leave.
use mathlib.Core.Path.{subst}
use native.Mathlib.Nat.{mod-eq_of_lt}
use ad_index.Base.{
  ℕ, ◌+◌, ◌-◌, ◌%◌, ◌^◌, ◌<◌, ◌≤◌, ◌≡◌, refl, ap, ◌∙◌, Bool, false, List, Option, some, lt→ltb,
  length, u32_mod, u64_mod, Bytes, put_bytes, get_bytes, get_bytes-same, get_bytes-put_bytes,
  bytes_of, length-bytes_of, number, arith,
}
use ad_index.Arena.Headers.{
  BuddyPool, get_header, put_header, sign_extended, lt_i32, put_size, do_alloc, write, do_free,
}

-- A store writes where it is told to.
abbrev pub WritesBehind : (ℕ → List ℕ → Bytes → Bool × Bytes) → Type 0
WritesBehind store_write =
    (addr : ℕ) (bytes : List ℕ) (m : Bytes) (j : ℕ)
    → j < addr
    → (store_write addr bytes m).1 j ≡ m j

number-bytes_of_4 : (n : ℕ) → n < u32_mod → number (bytes_of 4 n) ≡ n
unfolding bytes_of number
number-bytes_of_4 n small = omega (arith, small)

get_header-put_header : (m : Bytes) (a n : ℕ) → n < u32_mod → get_header (put_header m a n) a ≡ n
unfolding get_header put_header
get_header-put_header m a n small =
    let written =
      subst (λ k. get_bytes (put_bytes m a (bytes_of 4 n)) a k ≡ bytes_of 4 n) (length-bytes_of 4 n)
        (get_bytes-put_bytes m a (bytes_of 4 n)) in
    rw (mod-eq_of_lt {n = n} {m = u32_mod} small) (ap number written ∙ number-bytes_of_4 n small)

free_sized {ℓ} :
    {H : Type ℓ} (free : ℕ → ℕ → H → Bool × H) (a n size : ℕ) (p : BuddyPool H)
    → n < 2 ^ 31
    → get_header p.memory a ≡ n
    → (do_free free (a + 4) size p).1.heap ≡ (free a (n + 4) p.heap).1
unfolding do_free sign_extended
free_sized free a n size p small held =
    let back : a + 4 - 4 ≡ a = omega arith in
    rw
      (
        back,
        held,
        lt→ltb n (2 ^ 31) small,
        mod-eq_of_lt {n = n + 4} {m = u64_mod} (omega (arith, small)),
      )
      refl

do_alloc-some {ℓ} :
    {H : Type ℓ} (alloc_data : ℕ → H → Option ℕ × H) (size a : ℕ) (h : H) (p : BuddyPool H)
    → size < 2 ^ 31
    → alloc_data (size + 4) p.heap ≡ (some a, h)
    → do_alloc alloc_data size p
      ≡ (some (a + 4), record { heap = h; memory = put_header p.memory a size })
unfolding do_alloc
do_alloc-some alloc_data size a h p small given =
    let whole : (size + 4) % u64_mod ≡ size + 4 = omega (arith, small) in
    ap (put_size size p.memory) (ap (λ len. alloc_data len p.heap) whole ∙ given)

get_header-same :
    (m m' : Bytes) (a : ℕ) → ((j : ℕ) → j < a + 4 → m j ≡ m' j) → get_header m a ≡ get_header m' a
unfolding get_header
get_header-same m m' a same = ap number (get_bytes-same m m' a 4 (λ j l h. same j h))

fits_header : (n len : ℕ) → n < 2 ^ 31 → len ≤ n → lt_i32 n (len % u32_mod) ≡ false
unfolding lt_i32
fits_header n len small shorter = ground (arith, small, shorter)

-- A shorter write leaves its own length in the header.
write-header {ℓ} :
    {H : Type ℓ} (store_write : ℕ → List ℕ → Bytes → Bool × Bytes) (a n : ℕ) (bytes : List ℕ)
    (p : BuddyPool H)
    → WritesBehind store_write
    → n < 2 ^ 31
    → get_header p.memory a ≡ n
    → length bytes ≤ n
    → let p' = (write store_write (a + 4) bytes p).1 in
      (get_header p'.memory a ≡ length bytes) × (p'.heap ≡ p.heap)
unfolding write
write-header store_write a n bytes p behind small held shorter =
    let back : a + 4 - 4 ≡ a = omega arith in
    let kept =
      get_header-same _ (put_header p.memory a (length bytes)) a
        (behind (a + 4) bytes (put_header p.memory a (length bytes))) in
    rw (back, held, fits_header n (length bytes) small shorter)
      (
        (kept ∙ get_header-put_header p.memory a (length bytes) (omega (arith, small, shorter))),
        refl,
      )

-- A block that DoAlloc gave for fewer than 2^31 bytes is freed with that size and the 4 bytes of the header, and,
-- after a Write of as many bytes or fewer by a store that leaves what is before the address, with the number of bytes
-- written and 4.
pub do_free-write {ℓ} :
    {H : Type ℓ} (alloc_data : ℕ → H → Option ℕ × H) (free : ℕ → ℕ → H → Bool × H)
    (store_write : ℕ → List ℕ → Bytes → Bool × Bytes) (size asked a : ℕ) (bytes : List ℕ) (h : H)
    (p : BuddyPool H)
    → WritesBehind store_write
    → size < 2 ^ 31
    → length bytes ≤ size
    → alloc_data (size + 4) p.heap ≡ (some a, h)
    → let p' = (do_alloc alloc_data size p).1 in
      ((do_free free (a + 4) asked p').1.heap ≡ (free a (size + 4) h).1)
      × ((do_free free (a + 4) asked (write store_write (a + 4) bytes p').1).1.heap
          ≡ (free a (length bytes + 4) h).1)
do_free-write alloc_data free store_write size asked a bytes h p behind small shorter given =
    let begun : BuddyPool _ = record { heap = h; memory = put_header p.memory a size } in
    let held : get_header begun.memory a ≡ size =
      get_header-put_header p.memory a size (omega (arith, small)) in
    let written = write-header store_write a size bytes begun behind small held shorter in
    rw (do_alloc-some alloc_data size a h p small given) (
      free_sized free a size asked begun small held,
      free_sized free a (length bytes) asked _ (omega (arith, small, shorter)) written.0
          ∙ ap (λ h'. (free a (length bytes + 4) h').1) written.1,
    )
