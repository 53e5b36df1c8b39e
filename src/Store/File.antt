-- ===== src/Store/File.antt =====
-- `FileStore` of kernel/store/file_store.{h,cc}, on files of bytes. A size_t and an off_t are bit patterns.
use ad_index.Base.{
  ℕ, ◌+◌, ◌-◌, ◌%◌, ◌^◌, Bool, true, false, not, ◌&&◌, ◌||◌, List, [], ◌∷◌, Option, none, some, ltb,
  leb, ◌==◌, if◌then◌else◌, length, take, min, u64_mod, same_text, Bytes, put_bytes, get_bytes,
}

-- `StatusCode` of kernel/common/data/status.h; the reason is text for the log.
pub data StatusCode : Type 0 where
  success : StatusCode
  exception : StatusCode
  operator_forbidden : StatusCode

unfoldable pub operate : StatusCode → Bool
operate success = true
operate exception = false
operate operator_forbidden = false

-- The bytes of a file; what `bytes` says from the size on is not part of it.
pub record File : Type 0 where
  pub size : ℕ
  pub bytes : Bytes

abbrev pub new_file : File
new_file = record { size = 0; bytes = λ j. 0 }

-- The files by their names.
abbrev pub Disk : Type 0
Disk = List ℕ → Option File

abbrev pub or_new : Option File → File
or_new none = new_file
or_new (some f) = f

abbrev pub file_at : Disk → List ℕ → File
file_at disk name = or_new (disk name)

unfoldable pub set_file : Disk → List ℕ → File → Disk
set_file disk name f n = if same_text name n then some f else disk n

-- A byte of a file, and zero behind its end, as a file reads that has grown.
unfoldable pub padded : File → Bytes
padded f j = if ltb j f.size then f.bytes j else 0

-- The file after `write(2)` of these bytes, and after `ftruncate(2)`.
unfoldable pub written : File → ℕ → List ℕ → File
written f pos [] = f
written f pos (b ∷ bs) = record {
  size = if ltb f.size (pos + length (b ∷ bs)) then pos + length (b ∷ bs) else f.size;
  bytes = put_bytes (padded f) pos (b ∷ bs);
}

unfoldable pub truncated : File → ℕ → File
truncated f size = record { size = size; bytes = padded f }

-- What the system decides: whether a file opens, which offsets `lseek` takes, how many bytes `write` and
-- `read` move at an offset, if they do not fail, and whether `ftruncate` succeeds.
pub record System : Type 0 where
  pub opens : List ℕ → Bool → Bool
  pub seeks : ℕ → Bool
  pub writes : ℕ → ℕ → Option ℕ
  pub reads : ℕ → ℕ → Option ℕ
  pub truncates : ℕ → Bool

-- `fd_` with the flag that the file was opened for reading only, `none` if it is negative.
pub record FileStore : Type 0 where
  pub fd : Option Bool
  pub size : ℕ
  pub name : List ℕ

abbrev pub new_store : FileStore
new_store = record { fd = none; size = 0; name = [] }

-- A negative off_t.
abbrev pub negative : ℕ → Bool
negative pos = leb (2 ^ 63) pos

unfoldable pub get_file_size : FileStore → Disk → ℕ
get_file_size s disk = elim s.fd [
  | none ↦ u64_mod - 1
  | some read_only ↦ (file_at disk s.name).size
]

unfoldable pub close_file : FileStore → StatusCode × FileStore
close_file s = elim s.fd [ none ↦ (success, s) | some read_only ↦ (success, new_store) ]

module _ (os : System) where
  -- A file opened to write is made if it is missing.
  unfoldable pub opened : FileStore → Disk → List ℕ → Bool → StatusCode × FileStore × Disk
  unfolding get_file_size
  opened s disk name read_only =
      let s' : FileStore = record { fd = some read_only; size = 0; name = name } in
      let disk' = if read_only then disk else set_file disk name (file_at disk name) in
      (success, record s' { size = get_file_size s' disk' }, disk')

  unfoldable pub open_file : FileStore → Disk → List ℕ → Bool → StatusCode × FileStore × Disk
  open_file s disk name read_only = elim s.fd [
    | some r ↦ (exception, s, disk)
    | none ↦
        if os.opens name read_only
        then elim (disk name) [
          | none ↦ if read_only then (exception, s, disk) else opened s disk name read_only
          | some f ↦ opened s disk name read_only
        ]
        else (exception, s, disk)
  ]

  -- `write(2)` fails on a file opened for reading only.
  unfoldable pub write_at : FileStore → Bool → Disk → ℕ → List ℕ → Option (ℕ × Disk)
  write_at s read_only disk pos content =
      if read_only then none else elim (os.writes pos (length content)) [
        | none ↦ none
        | some n ↦
            some (n, set_file disk s.name (written (file_at disk s.name) pos (take n content)))
      ]

  -- That fewer bytes are written is not noticed.
  unfoldable pub write_file : FileStore → Disk → ℕ → List ℕ → StatusCode × FileStore × Disk
  write_file s disk pos content = elim s.fd [
    | none ↦ (exception, s, disk)
    | some read_only ↦
        if negative pos || not (os.seeks pos)
        then (exception, s, disk)
        else elim (write_at s read_only disk pos content) [
          | none ↦ (exception, s, disk)
          | some r ↦
              let end = (pos + length content) % u64_mod in
              (success, record s { size = if ltb s.size end then end else s.size }, r.1)
        ]
  ]

  unfoldable pub append_file : FileStore → Disk → List ℕ → StatusCode × FileStore × Disk
  append_file s disk content =
      if negative s.size then (exception, s, disk) else write_file s disk s.size content

  -- The bytes that get into the buffer, no more than there are behind the offset.
  unfoldable pub read_file : FileStore → Disk → ℕ → ℕ → StatusCode × List ℕ
  read_file s disk pos len = elim s.fd [
    | none ↦ (exception, [])
    | some read_only ↦
        let f = file_at disk s.name in
        if not (negative pos) && ltb f.size pos
        then (exception, [])
        else if negative pos || not (os.seeks pos)
        then (exception, [])
        else let read_len = min len (f.size - pos) in
          elim (os.reads pos read_len) [
            | none ↦ (exception, [])
            | some n ↦
                if n == read_len
                then (success, get_bytes f.bytes pos n)
                else (exception, get_bytes f.bytes pos n)
          ]
  ]

  -- The lowest byte of the size is written at the new end.
  unfoldable pub expand_file : FileStore → Disk → ℕ → StatusCode × FileStore × Disk
  expand_file s disk size = if size == 0 then (success, s, disk) else elim s.fd [
    | none ↦ (exception, s, disk)
    | some read_only ↦
        let pos = ((file_at disk s.name).size + (size - 1)) % u64_mod in
        if negative pos || not (os.seeks pos)
        then (exception, s, disk)
        else elim (write_at s read_only disk pos (size % 2 ^ 8 ∷ [])) [
          | none ↦ (exception, s, disk)
          | some r ↦ (success, record s { size = (s.size + size) % u64_mod }, r.1)
        ]
  ]

  -- `size_` stays.
  unfoldable pub truncate_file : FileStore → Disk → ℕ → StatusCode × Disk
  truncate_file s disk size = elim s.fd [
    | none ↦ (exception, disk)
    | some read_only ↦
        if read_only || negative size || not (os.truncates size)
        then (exception, disk)
        else (success, set_file disk s.name (truncated (file_at disk s.name) size))
  ]
