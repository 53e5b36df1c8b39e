-- ===== src/Snapshot.antt =====
-- The document ids of kernel/snapshot/snapshot.h: the highest bits name a segment, the others a place in it.
pub mod Places
mod Tests
use ad_index.Base.{
  ℕ, ◌-◌, ◌/◌, ◌^◌, ◌==◌, Option, none, List, bit_and, leb, ltb, if◌then◌else◌, length, get_elem?,
  u64_mod, Run, done, fault,
}

-- `segment_level_`, the bit pattern of an int32_t, and `segment_vec_`.
pub record Snapshot {ℓ} (Segment : Type ℓ) : Type ℓ where
  pub segment_level : ℕ
  pub segment_vec : List Segment

module _ {ℓ} {Segment : Type ℓ} where
  -- `1 << segment_level_`, of an int32_t: a shift whose result it does not hold is a fault.
  unfoldable pub get_segment_count : Snapshot Segment → Run ℕ
  get_segment_count s = if ltb s.segment_level 31 then done (2 ^ s.segment_level) else fault

  -- For an id that is not negative; `none` is nullptr.
  unfoldable pub get_segment : ℕ → Snapshot Segment → Option Segment
  get_segment segment_id s =
      if leb (length s.segment_vec) segment_id then none else get_elem? s.segment_vec segment_id

  -- A shift by a negative number is a fault.
  unfoldable pub get_segment_id_from_doc_id : ℕ → Snapshot Segment → Run ℕ
  get_segment_id_from_doc_id doc_id s =
      if s.segment_level == 0
      then done 0
      else if leb s.segment_level 64
      then done (doc_id / 2 ^ (64 - s.segment_level))
      else fault

  -- A shift by 64 bits or more is a fault.
  unfoldable pub get_offset_from_doc_id : ℕ → Snapshot Segment → Run ℕ
  get_offset_from_doc_id doc_id s =
      if ltb s.segment_level 64
      then done (bit_and doc_id ((u64_mod - 1) / 2 ^ s.segment_level))
      else fault
