-- ===== src/Snapshot/Tests.antt =====
-- The theorem on a snapshot of four segments.
use std.Equiv.{IsEquiv}
use ad_index.Base.{ℕ, ◌<◌, ◌≡◌, [], ◌∷◌, done, arith}
use ad_index.Snapshot.{Snapshot, get_segment_count}
use ad_index.Snapshot.Places.{DocId, place_of, is_level, located, place_of-IsEquiv}

abbrev four : Snapshot ℕ
four = record { segment_level = 2; segment_vec = 10 ∷ 11 ∷ 12 ∷ 13 ∷ [] }

four-level : four.segment_level < 31
four-level = omega arith

place_of-IsEquiv_example :
    (get_segment_count four ≡ done 4)
    × ((d : DocId) → located four d.0 ≡ done (place_of four (is_level 2 four-level) d).0)
    × IsEquiv (place_of four (is_level 2 four-level))
place_of-IsEquiv_example = place_of-IsEquiv four four-level
