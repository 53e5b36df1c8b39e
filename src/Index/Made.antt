-- ===== src/Index/Made.antt =====
-- What is found in a header of kernel/index/index.cc or kernel/index/hash_table/murmurhash_table.cc that was made before.
use mathlib.Core.Path.{subst}
use ad_index.Base.{
  ℕ, ◌+◌, ◌*◌, ◌<◌, ◌≤◌, ◌≡◌, ◌⊎◌, inl, inr, refl, sym, ap, ap₂, ◌∙◌, true, ◌&&◌, List, [], ◌∷◌,
  Option, none, some, ltb, ltb-false, ◌==◌, if◌then◌else◌, Bool-cases, Option-cases, length,
  u32_mod, Bytes, put_bytes, put_outside, get_bytes, get_bytes-same, get_bytes-put_bytes, bytes_of,
  length-bytes_of, number, arith,
}
use ad_index.Index.Magic.{
  get_magic, index_magic, hash_table_magic, put_magic, check_magic_words, IndexPool, check_magic,
  init_magic, make_header, init_hash_table_header, load_hash_table,
}

-- Words of 32 bits.
abbrev pub AreWords : List ℕ → Type 0
AreWords [] = Unit {0}
AreWords (w ∷ words) = (w < u32_mod) × AreWords words

number-bytes_of_4 : (n : ℕ) → n < u32_mod → number (bytes_of 4 n) ≡ n
unfolding bytes_of number
number-bytes_of_4 n small = omega (arith, small)

get_magic-put : (m : Bytes) (a n : ℕ) → n < u32_mod → get_magic (put_bytes m a (bytes_of 4 n)) a ≡ n
unfolding get_magic
get_magic-put m a n small =
    ap number (
      subst (λ k. get_bytes (put_bytes m a (bytes_of 4 n)) a k ≡ bytes_of 4 n) (length-bytes_of 4 n)
        (get_bytes-put_bytes m a (bytes_of 4 n)))
    ∙ number-bytes_of_4 n small

get_magic-same :
    (m m' : Bytes) (a : ℕ)
    → ((j : ℕ) → a ≤ j → j < a + 4 → m j ≡ m' j)
    → get_magic m a ≡ get_magic m' a
unfolding get_magic
get_magic-same m m' a same = ap number (get_bytes-same m m' a 4 same)

-- Writing the words changes nothing elsewhere.
put_magic-apart :
    (m : Bytes) (a j : ℕ) (words : List ℕ)
    → (j < a) ⊎ (a + 4 * length words ≤ j)
    → put_magic m a words j ≡ m j
unfolding put_magic
put_magic-apart m a j [] apart = refl
put_magic-apart m a j (w ∷ words) apart =
    let outside = put_outside m a j (bytes_of 4 w) in
    elim apart [
      | inl before ↦
          put_magic-apart (put_bytes m a (bytes_of 4 w)) (a + 4) j words
            (inl (omega (arith, before)))
          ∙ outside.0 before
      | inr behind ↦
          put_magic-apart (put_bytes m a (bytes_of 4 w)) (a + 4) j words
            (inr (omega (arith, behind)))
          ∙ outside.1 (rw (length-bytes_of 4 w) (omega (arith, behind)))
    ]

check_magic-put_magic :
    (m : Bytes) (a : ℕ) (words : List ℕ)
    → AreWords words
    → check_magic_words (put_magic m a words) a words ≡ true
unfolding check_magic_words put_magic
check_magic-put_magic m a [] are = refl
check_magic-put_magic m a (w ∷ words) are =
    let m' = put_bytes m a (bytes_of 4 w) in
    let here =
      get_magic-same (put_magic m' (a + 4) words) m' a
        (λ j l h. put_magic-apart m' (a + 4) j words (inl h))
      ∙ get_magic-put m a w are.0 in
    ground (arith, here, check_magic-put_magic m' (a + 4) words are.1)

check_magic-same :
    (m m' : Bytes) (a : ℕ) (words : List ℕ)
    → ((j : ℕ) → a ≤ j → m j ≡ m' j)
    → check_magic_words m a words ≡ check_magic_words m' a words
unfolding check_magic_words
check_magic-same m m' a [] same = refl
check_magic-same m m' a (w ∷ words) same =
    ap₂ (λ v rest. w == v && rest) (get_magic-same m m' a (λ j l h. same j l))
      (check_magic-same m m' (a + 4) words (λ j l. same j (omega (arith, l))))

index_words : AreWords index_magic
index_words = ground arith

hash_table_words : AreWords hash_table_magic
hash_table_words = ground arith

check_magic-init_magic :
    (q p' : IndexPool)
    → 64 ≤ q.data_size
    → init_magic (some q) ≡ some p'
    → check_magic (some p') ≡ true
unfolding check_magic
check_magic-init_magic q p' large made =
    subst (λ r. check_magic r ≡ true) made
      (rw (ltb-false q.data_size 64 large)
        (check_magic-put_magic q.memory 0 index_magic index_words))

-- A pool whose header is made passes the check, whether its memory was there or is now allocated, by an Alloc that
-- gives at least what it is asked for.
pub check_magic-make_header :
    (alloc : ℕ → IndexPool → Option IndexPool) (p p' : IndexPool)
    → ((n : ℕ) (q q' : IndexPool) → alloc n q ≡ some q' → n ≤ q'.data_size)
    → make_header alloc (some p) ≡ some p'
    → check_magic (some p') ≡ true
unfolding make_header
check_magic-make_header alloc p p' grows made = elim (Bool-cases (ltb p.data_size 64)) [
  | inl below ↦
      let made' : init_magic (alloc 64 p) ≡ some p' =
        subst (λ b. init_magic (if b then alloc 64 p else some p) ≡ some p') below made in
      elim (Option-cases (alloc 64 p)) [
        | inl failed ↦ absurd (let e : none ≡ some p' = sym (ap init_magic failed) ∙ made' in cc e)
        | inr (q, given) ↦
            check_magic-init_magic q p' (grows 64 p q given) (sym (ap init_magic given) ∙ made')
      ]
  | inr room ↦
      check_magic-init_magic p p' (ground (arith, room))
        (subst (λ b. init_magic (if b then alloc 64 p else some p) ≡ some p') room made)
]

-- A hash table that is loaded from where its header was made has the number of buckets, of 32 bits, that it was made
-- with, and its buckets are behind the header.
pub load_hash_table-init :
    (bucket_num a : ℕ) (m : Bytes)
    → bucket_num < u32_mod
    → load_hash_table (init_hash_table_header bucket_num m a) (some a) ≡ some (bucket_num, a + 64)
unfolding load_hash_table init_hash_table_header
load_hash_table-init bucket_num a m small =
    let m₁ = put_bytes m a (bytes_of 4 bucket_num) in
    let m₂ = put_magic m₁ (a + 8) hash_table_magic in
    let outside = λ (j : ℕ). put_outside m₂ (a + 4) j (bytes_of 4 0) in
    let magic =
      check_magic-same (put_bytes m₂ (a + 4) (bytes_of 4 0)) m₂ (a + 8) hash_table_magic
        (λ j l. (outside j).1 (omega (arith, l, length-bytes_of 4 0)))
      ∙ check_magic-put_magic m₁ (a + 8) hash_table_magic hash_table_words in
    let buckets =
      get_magic-same (put_bytes m₂ (a + 4) (bytes_of 4 0)) m₂ a (λ j l h. (outside j).0 h)
      ∙ (get_magic-same m₂ m₁ a
            (λ j l h. put_magic-apart m₁ (a + 8) j hash_table_magic (inl (omega (arith, h))))
          ∙ get_magic-put m a bucket_num small) in
    rw (magic, buckets) refl
