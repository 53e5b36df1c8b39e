-- ===== src/Store/Reading.antt =====
-- What a `FileStore` wrote is what it reads, and what its `size_` is.
use mathlib.Core.Path.{subst}
use ad_index.Base.{
  ℕ, ◌+◌, ◌^◌, ◌<◌, ◌≤◌, ◌≡◌, refl, sym, ap, ◌∙◌, Bool, true, false, List, [], ◌∷◌, some, ltb,
  if◌then◌else◌, length, take, same_text_iff, get_bytes, get_bytes-put_bytes, put_outside, arith,
}
use ad_index.Store.File.{
  success, File, Disk, file_at, set_file, padded, written, System, FileStore, write_at, write_file,
  read_file,
}

-- A system with room: a file opens to write, and all bytes are moved, up to the end of the offsets.
pub record Works (os : System) : Type 0 where
  pub opens_all : (name : List ℕ) → os.opens name false ≡ true
  pub seeks_all : (pos : ℕ) → pos < 2 ^ 63 → os.seeks pos ≡ true
  pub writes_all : (pos n : ℕ) → pos + n < 2 ^ 63 → os.writes pos n ≡ some n
  pub reads_all : (pos n : ℕ) → pos + n < 2 ^ 63 → os.reads pos n ≡ some n

pub file_at-set_file :
    (disk : Disk) (name : List ℕ) (f : File) → file_at (set_file disk name f) name ≡ f
unfolding set_file
file_at-set_file disk name f = rw ((same_text_iff name name).1 refl) refl

pub take-all : (xs : List ℕ) → take (length xs) xs ≡ xs
take-all [] = refl
take-all (x ∷ xs) = ap (λ l. x ∷ l) (take-all xs)

-- What is written is in the file, and the bytes around it stay.
pub record HasWritten (f f' : File) (pos : ℕ) (content : List ℕ) : Type 0 where
  pub there : get_bytes f'.bytes pos (length content) ≡ content
  pub ends : f'.size ≡ (if ltb f.size (pos + length content) then pos + length content else f.size)
  pub before : (j : ℕ) → j < pos → j < f.size → f'.bytes j ≡ f.bytes j
  pub behind : (j : ℕ) → pos + length content ≤ j → j < f.size → f'.bytes j ≡ f.bytes j

pub written-HasWritten :
    (f : File) (pos : ℕ) (b : ℕ) (bs : List ℕ) → HasWritten f (written f pos (b ∷ bs)) pos (b ∷ bs)
unfolding written padded
written-HasWritten f pos b bs = record {
  there = get_bytes-put_bytes (padded f) pos (b ∷ bs);
  ends = refl;
  before = λ j l m. (put_outside (padded f) pos j (b ∷ bs)).0 l ∙ ground (arith, m);
  behind = λ j l m. (put_outside (padded f) pos j (b ∷ bs)).1 l ∙ ground (arith, m);
}

-- A write of all bytes.
pub write_file-all :
    (os : System)
    → Works os
    → (s : FileStore) (disk : Disk) (pos : ℕ) (content : List ℕ) → s.fd ≡ some false
    → pos + length content < 2 ^ 63
    → write_file os s disk pos content ≡ (
      success,
      record s {
        size = if ltb s.size (pos + length content) then pos + length content else s.size;
      },
      set_file disk s.name (written (file_at disk s.name) pos content),
    )
unfolding write_file write_at
write_file-all os w s disk pos content is_open small = ground (
  arith,
  w.seeks_all pos (omega (arith, small)),
  w.writes_all pos (length content) small,
  is_open,
  small,
  take-all content,
)

pub read_file-all :
    (os : System)
    → Works os
    → (s : FileStore) (disk : Disk) (pos n : ℕ) (r : Bool) → s.fd ≡ some r
    → pos + n ≤ (file_at disk s.name).size
    → pos + n < 2 ^ 63
    → read_file os s disk pos n ≡ (success, get_bytes (file_at disk s.name).bytes pos n)
unfolding read_file
read_file-all os w s disk pos n r is_open inside small =
    ground (
      arith,
      w.seeks_all pos (omega (arith, small)),
      w.reads_all pos n small,
      is_open,
      inside,
      small,
    )

-- Data written to a file that was opened for writing, at an offset, is what is read there, and no other
-- byte of the file changes.
pub write_file-read_file :
    (os : System)
    → Works os
    → (s : FileStore) (disk : Disk) (pos : ℕ) (content : List ℕ) → s.fd ≡ some false
    → 0 < length content
    → pos + length content < 2 ^ 63
    → (s' : FileStore) × (disk' : Disk) × (write_file os s disk pos content ≡ (success, s', disk'))
      × (read_file os s' disk' pos (length content) ≡ (success, content))
      × HasWritten (file_at disk s.name) (file_at disk' s.name) pos content
write_file-read_file os w s disk pos [] is_open some_bytes small =
    absurd (omega (arith, some_bytes))
write_file-read_file os w s disk pos (b ∷ bs) is_open some_bytes small =
    let f' = written (file_at disk s.name) pos (b ∷ bs) in
    let at : file_at (set_file disk s.name f') s.name ≡ f' = file_at-set_file disk s.name f' in
    let has = written-HasWritten (file_at disk s.name) pos b bs in
    let s' : FileStore = record s {
      size = if ltb s.size (pos + length (b ∷ bs)) then pos + length (b ∷ bs) else s.size;
    } in
    (
      s',
      set_file disk s.name f',
      write_file-all os w s disk pos (b ∷ bs) is_open small,
      read_file-all os w s' (set_file disk s.name f') pos (length (b ∷ bs)) false is_open
            (rw at (ground (arith, has.ends))) small
          ∙ ap (λ (f : File). (success, get_bytes f.bytes pos (length (b ∷ bs)))) at
          ∙ ap (λ c. (success, c)) has.there,
      subst (λ f. HasWritten (file_at disk s.name) f pos (b ∷ bs)) (sym at) has,
    )
