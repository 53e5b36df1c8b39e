-- ===== src/Snapshot/Places.antt =====
-- The document ids of kernel/snapshot/snapshot.h, and the places that they stand for.
use std.Equiv.{Iso, IsEquiv, iso_to_equiv}
use mathlib.Core.HLevel.{Σ_prop_path, ×_prop}
use mathlib.Core.Path.{subst}
use native.Mathlib.Bridge.{le_prop}
use native.Mathlib.Nat.{
  pow-suc, mul_assoc, div-add-mod', mul_comm, mod-lt, mod-eq_of_lt, mul-le-mul_right,
  mul-add-mod_self_right, div-eq_of_lt-le, div-eq_of_lt, div-lt_iff_lt-mul,
}
use ad_index.Base.{
  ℕ, zero, suc, ◌+◌, ◌-◌, ◌*◌, ◌/◌, ◌%◌, ◌^◌, ◌<◌, ◌≤◌, ◌≡◌, refl, sym, ap, ap₂, ◌∙◌, ◌==◌,
  Bool-cases, inl, inr, bit_and, bit_and-mask, pow-positive, u64_mod, arith, Run, done, ◌>>=◌,
}
use ad_index.Snapshot.{
  Snapshot, get_segment_count, get_segment_id_from_doc_id, get_offset_from_doc_id,
}

abbrev pub DocId : Type 0
DocId = (n : ℕ) × (n < u64_mod)

-- A segment of the snapshot, and an offset of as many bits as are left.
abbrev pub IsPlace {ℓ} : {Segment : Type ℓ} → Snapshot Segment → ℕ × ℕ → Type 0
IsPlace s place = (place.0 < 2 ^ s.segment_level) × (place.1 < 2 ^ (64 - s.segment_level))

abbrev pub SegmentPlace {ℓ} : {Segment : Type ℓ} → Snapshot Segment → Type 0
SegmentPlace s = (place : ℕ × ℕ) × IsPlace s place

pow_sum : (a b : ℕ) → 2 ^ (a + b) ≡ 2 ^ a * 2 ^ b
pow_sum a zero = ap (λ x. 2 ^ x) {x = a + 0} {y = a} (omega arith) ∙ omega arith
pow_sum a (suc b) =
    ap (λ x. 2 ^ x) {x = a + suc b} {y = suc (a + b)} (omega arith)
    ∙ (pow-suc 2 (a + b)
        ∙ (ap (λ x. x * 2) (pow_sum a b)
            ∙ (mul_assoc (2 ^ a) (2 ^ b) 2 ∙ ap (λ x. 2 ^ a * x) (sym (pow-suc 2 b)))))

split_word : (k : ℕ) → k ≤ 64 → u64_mod ≡ 2 ^ (64 - k) * 2 ^ k
split_word k h = ap (λ x. 2 ^ x) {x = 64} {y = 64 - k + k} (omega (arith, h)) ∙ pow_sum (64 - k) k

-- All ones but so many.
short_mask : (w m : ℕ) → 0 < w → 0 < m → (w * m - 1) / m ≡ w - 1
short_mask zero m some_w some_m = absurd (omega (arith, some_w))
short_mask (suc w) m some_w some_m =
    let less : suc w - 1 ≡ w = omega arith in
    rw less (div-eq_of_lt-le m (omega (arith, some_m)) (omega (arith, some_m)))

offset_mask : (k : ℕ) → k ≤ 64 → (u64_mod - 1) / 2 ^ k ≡ 2 ^ (64 - k) - 1
offset_mask k h =
    ap (λ n. (n - 1) / 2 ^ k) (split_word k h)
    ∙ short_mask (2 ^ (64 - k)) (2 ^ k) (pow-positive (64 - k)) (pow-positive k)

segment_is {ℓ} :
    {Segment : Type ℓ} (s : Snapshot Segment) (n : ℕ)
    → s.segment_level ≤ 64
    → n < u64_mod
    → get_segment_id_from_doc_id n s ≡ done (n / 2 ^ (64 - s.segment_level))
unfolding get_segment_id_from_doc_id
segment_is s n h small = elim (Bool-cases (s.segment_level == 0)) [
  | inl none_left ↦
      let none : s.segment_level ≡ 0 = ground (arith, none_left) in
      rw none_left (ap done (sym (ap (λ k. n / 2 ^ (64 - k)) none ∙ div-eq_of_lt small)))
  | inr more ↦ ground (arith, more, h)
]

offset_is {ℓ} :
    {Segment : Type ℓ} (s : Snapshot Segment) (n : ℕ)
    → s.segment_level < 31
    → get_offset_from_doc_id n s ≡ done (n % 2 ^ (64 - s.segment_level))
unfolding get_offset_from_doc_id
offset_is s n h =
    let masked =
      ap (bit_and n) (offset_mask s.segment_level (omega (arith, h)))
      ∙ bit_and-mask n (64 - s.segment_level) in
    rw masked (ground (arith, h))

doc_id_small :
    (k segment offset : ℕ)
    → k ≤ 64
    → segment < 2 ^ k
    → offset < 2 ^ (64 - k)
    → segment * 2 ^ (64 - k) + offset < u64_mod
doc_id_small k segment offset h l m =
    let room = mul-le-mul_right (2 ^ (64 - k)) l in rw (split_word k h) (omega (arith, m, room))

segment_small : (k n : ℕ) → k ≤ 64 → n < u64_mod → n / 2 ^ (64 - k) < 2 ^ k
segment_small k n h small =
    (div-lt_iff_lt-mul (pow-positive (64 - k))).1
      (subst (λ m. n < m) (split_word k h ∙ mul_comm (2 ^ (64 - k)) (2 ^ k)) small)

joined-segment :
    (size segment offset : ℕ) → offset < size → (segment * size + offset) / size ≡ segment
joined-segment size segment offset small = div-eq_of_lt-le size (omega arith) (omega (arith, small))

joined-offset :
    (size segment offset : ℕ) → offset < size → (segment * size + offset) % size ≡ offset
joined-offset size segment offset small =
    mul-add-mod_self_right segment size offset ∙ mod-eq_of_lt small

pub div_mod-IsPlace {ℓ} :
    {Segment : Type ℓ} (s : Snapshot Segment) (n : ℕ)
    → s.segment_level ≤ 64
    → n < u64_mod
    → IsPlace s (n / 2 ^ (64 - s.segment_level), n % 2 ^ (64 - s.segment_level))
div_mod-IsPlace s n h small =
    (segment_small s.segment_level n h small, mod-lt n (pow-positive (64 - s.segment_level)))

-- The segment and the offset of an id, for a level that has so many.
unfoldable pub place_of {ℓ} :
    {Segment : Type ℓ} (s : Snapshot Segment) → s.segment_level ≤ 64 → DocId → SegmentPlace s
place_of s h d =
    let size = 2 ^ (64 - s.segment_level) in ((d.0 / size, d.0 % size), div_mod-IsPlace s d.0 h d.1)

-- The id of a place.
doc_id_of {ℓ} :
    {Segment : Type ℓ} (s : Snapshot Segment) → s.segment_level ≤ 64 → SegmentPlace s → DocId
doc_id_of s h p = (
  p.0.0 * 2 ^ (64 - s.segment_level) + p.0.1,
  doc_id_small s.segment_level p.0.0 p.0.1 h p.1.0 p.1.1,
)

place_of-Iso {ℓ} :
    {Segment : Type ℓ} (s : Snapshot Segment) → s.segment_level ≤ 64 → Iso DocId (SegmentPlace s)
unfolding place_of doc_id_of
place_of-Iso s h =
    let size = 2 ^ (64 - s.segment_level) in
    record {
      fun = place_of s h;
      inv = doc_id_of s h;
      rinv = λ p.
          Σ_prop_path (λ q. ×_prop le_prop le_prop)
            (ap₂ (λ a b. (a, b)) (joined-segment size p.0.0 p.0.1 p.1.1)
              (joined-offset size p.0.0 p.0.1 p.1.1));
      linv = λ d. Σ_prop_path (λ n. le_prop) (div-add-mod' d.0 size);
    }

pub is_level : (level : ℕ) → level < 31 → level ≤ 64
is_level level h = omega (arith, h)

-- What the source computes of an id, together.
unfoldable pub located {ℓ} : {Segment : Type ℓ} → Snapshot Segment → ℕ → Run (ℕ × ℕ)
located s doc_id = get_segment_id_from_doc_id doc_id s >>= λ segment.
    get_offset_from_doc_id doc_id s >>= λ offset. done (segment, offset)

-- In a snapshot of a level below 31, no shift is out of range: the segment and the offset of each document id are a place
-- in one of the segments that are counted, and every such place is that of exactly one document id.
pub place_of-IsEquiv {ℓ} :
    {Segment : Type ℓ} (s : Snapshot Segment) (h : s.segment_level < 31)
    → (get_segment_count s ≡ done (2 ^ s.segment_level))
      × ((d : DocId) → located s d.0 ≡ done (place_of s (is_level s.segment_level h) d).0)
      × IsEquiv (place_of s (is_level s.segment_level h))
unfolding get_segment_count located place_of place_of-Iso
place_of-IsEquiv s h =
    let level = is_level s.segment_level h in
    (
      ground (arith, h),
      (λ d. rw (segment_is s d.0 level d.1, offset_is s d.0 h) refl),
      (iso_to_equiv (place_of-Iso s level)).1,
    )
