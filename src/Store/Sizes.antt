-- ===== src/Store/Sizes.antt =====
-- `size_` of a `FileStore` is the size of its file, unless the file is truncated.
use ad_index.Base.{
  ℕ, ◌+◌, ◌-◌, ◌%◌, ◌^◌, ◌<◌, ◌≡◌, ◌⊎◌, inl, inr, refl, Bool, true, false, not, ◌||◌, List, [], ◌∷◌,
  none, some, ◌==◌, length, u64_mod, if_ind, option_ind, Bool-cases, arith,
}
use ad_index.Store.File.{
  StatusCode, Disk, file_at, set_file, written, System, FileStore, opened, open_file, close_file,
  get_file_size, write_at, write_file, append_file, expand_file, negative,
}
use ad_index.Store.Reading.{take-all, written-HasWritten, file_at-set_file}

-- The calls that change a store, but `Truncate`.
pub data Call : Type 0 where
  opens : List ℕ → Bool → Call
  closes : Call
  writes : ℕ → List ℕ → Call
  appends : List ℕ → Call
  expands : ℕ → Call

module _ (os : System) (s : FileStore) (disk : Disk) where
  unfoldable pub run_call : Call → StatusCode × FileStore × Disk
  run_call (opens name read_only) = open_file os s disk name read_only
  run_call closes = let r = close_file s in (r.0, r.1, disk)
  run_call (writes pos content) = write_file os s disk pos content
  run_call (appends content) = append_file os s disk content
  run_call (expands size) = expand_file os s disk size

-- The data is not empty, and the size is no more than a size_t.
abbrev pub Fits : Call → FileStore → Type 0
Fits (opens name read_only) s = Unit {0}
Fits closes s = Unit {0}
Fits (writes pos content) s = (0 < length content) × (pos + length content < u64_mod)
Fits (appends content) s = (0 < length content) × (s.size + length content < u64_mod)
Fits (expands size) s = s.size + size < u64_mod

-- `size_` is the size of the file, if one is open.
abbrev pub Tracks : FileStore → Disk → Type 0
Tracks s disk = (r : Bool) → s.fd ≡ some r → s.size ≡ (file_at disk s.name).size

abbrev TracksAfter : StatusCode × FileStore × Disk → Type 0
TracksAfter r = Tracks r.1 r.2

-- The system writes all bytes or fails.
abbrev pub Whole : System → Type 0
Whole os = (pos n : ℕ) → (os.writes pos n ≡ none) ⊎ (os.writes pos n ≡ some n)

opened-Tracks :
    (os : System) (s : FileStore) (disk : Disk) (name : List ℕ) (read_only : Bool)
    → TracksAfter (opened os s disk name read_only)
unfolding opened get_file_size
opened-Tracks os s disk name read_only r e = refl

open_file-Tracks :
    (os : System) (s : FileStore) (disk : Disk) (name : List ℕ) (read_only : Bool)
    → Tracks s disk
    → TracksAfter (open_file os s disk name read_only)
unfolding open_file
open_file-Tracks os s disk name read_only t =
    option_ind TracksAfter s.fd _ _
      (if_ind TracksAfter (os.opens name read_only) _ _
        (option_ind TracksAfter (disk name) _ _
          (if_ind TracksAfter read_only _ _ t (opened-Tracks os s disk name read_only))
          (λ f. opened-Tracks os s disk name read_only))
        t)
      (λ r. t)

write_at-cases :
    (os : System)
    → Whole os
    → (s : FileStore) (read_only : Bool) (disk : Disk) (pos : ℕ) (content : List ℕ)
    → (write_at os s read_only disk pos content ≡ none)
      ⊎ (write_at os s read_only disk pos content
          ≡ some (length content, set_file disk s.name (written (file_at disk s.name) pos content)))
unfolding write_at
write_at-cases os w s true disk pos content = inl refl
write_at-cases os w s false disk pos content = elim (w pos (length content)) [
  | inl fails ↦ inl (rw fails refl)
  | inr all ↦ inr (rw all (rw (take-all content) refl))
]

write_file-Tracks :
    (os : System)
    → Whole os
    → (s : FileStore) (disk : Disk) (pos b : ℕ) (bs : List ℕ) → Tracks s disk
    → pos + length (b ∷ bs) < u64_mod
    → TracksAfter (write_file os s disk pos (b ∷ bs))
unfolding write_file
write_file-Tracks os w s disk pos b bs t small = option_ind TracksAfter s.fd _ _ t (λ read_only.
    if_ind TracksAfter (negative pos || not (os.seeks pos)) _ _ t
      (elim (write_at-cases os w s read_only disk pos (b ∷ bs)) [
        | inl fails ↦ rw fails t
        | inr all ↦ rw all (λ r e.
            rw (file_at-set_file disk s.name (written (file_at disk s.name) pos (b ∷ bs))) (
              ground
                (arith, small, t r e, (written-HasWritten (file_at disk s.name) pos b bs).ends)))
      ]))

expand_file-Tracks :
    (os : System)
    → Whole os
    → (s : FileStore) (disk : Disk) (size : ℕ) → Tracks s disk
    → s.size + size < u64_mod
    → TracksAfter (expand_file os s disk size)
unfolding expand_file
expand_file-Tracks os w s disk size t small =
    let f = file_at disk s.name in
    let pos : ℕ = (f.size + (size - 1)) % u64_mod in
    let b : ℕ = size % 2 ^ 8 in
    elim (Bool-cases (size == 0)) [
      | inl zero_size ↦ rw zero_size t
      | inr some_size ↦ rw some_size (
          option_ind TracksAfter s.fd _ _ t (λ read_only.
            if_ind TracksAfter (negative pos || not (os.seeks pos)) _ _ t
              (elim (write_at-cases os w s read_only disk pos (b ∷ [])) [
                | inl fails ↦ rw fails t
                | inr all ↦ rw all (λ r e.
                    rw (file_at-set_file disk s.name (written f pos (b ∷ []))) (
                      ground
                        (arith, small, some_size, t r e, (written-HasWritten f pos b []).ends)))
              ])))
    ]

append_file-Tracks :
    (os : System)
    → Whole os
    → (s : FileStore) (disk : Disk) (b : ℕ) (bs : List ℕ) → Tracks s disk
    → s.size + length (b ∷ bs) < u64_mod
    → TracksAfter (append_file os s disk (b ∷ bs))
unfolding append_file
append_file-Tracks os w s disk b bs t small =
    if_ind TracksAfter (negative s.size) _ _ t (write_file-Tracks os w s disk s.size b bs t small)

close_file-Tracks : (s : FileStore) (disk : Disk) → Tracks s disk → Tracks (close_file s).1 disk
unfolding close_file
close_file-Tracks s disk t =
    option_ind (λ (r : StatusCode × FileStore). Tracks r.1 disk) s.fd _ _ t
      (λ read_only r e. absurd (ground (arith, e)))

-- On a system that writes all bytes or fails, `size_` stays the size of the open file, whatever call but
-- Truncate is made, also if it fails; the data written is not empty, and sizes are below 2^64.
pub run_call-Tracks :
    (os : System)
    → Whole os
    → (s : FileStore) (disk : Disk) (call : Call) → Fits call s
    → Tracks s disk
    → Tracks (run_call os s disk call).1 (run_call os s disk call).2
unfolding run_call
run_call-Tracks os w s disk (opens name read_only) h t = open_file-Tracks os s disk name read_only t
run_call-Tracks os w s disk closes h t = close_file-Tracks s disk t
run_call-Tracks os w s disk (writes pos []) h t = absurd (omega (arith, h.0))
run_call-Tracks os w s disk (writes pos (b ∷ bs)) h t = write_file-Tracks os w s disk pos b bs t h.1
run_call-Tracks os w s disk (appends []) h t = absurd (omega (arith, h.0))
run_call-Tracks os w s disk (appends (b ∷ bs)) h t = append_file-Tracks os w s disk b bs t h.1
run_call-Tracks os w s disk (expands size) h t = expand_file-Tracks os w s disk size t h
