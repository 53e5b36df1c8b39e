-- ===== src/Arena/Section.antt =====
-- `SectionMemTable` of kernel/pool/arena_buddy_pool/section_mem_table.{h,cc}: a mebibyte, given out from its start on.
use ad_index.Base.{ℕ, ◌+◌, ◌*◌, ◌%◌, Bool, true, Option, none, some, ltb, if◌then◌else◌, u64_mod}
use ad_index.Arena.Levels.{invalid_addr}

-- `SectionMemTableHead`, of 40 bytes.
pub record Section : Type 0 where
  pub begin : ℕ
  pub end : ℕ
  pub current : ℕ
  pub next : ℕ
  pub valid_flag : Bool

unfoldable pub init_section : ℕ → Section
init_section addr = record {
  begin = addr;
  end = addr + 1024 * 1024;
  current = addr + 40;
  next = invalid_addr;
  valid_flag = true;
}

-- The offset of the data from `begin_`; `none` is ERROR_ALLOC_ADDR.
unfoldable pub alloc_section : ℕ → Section → Option ℕ × Section
alloc_section len s =
    if s.valid_flag
    then if ltb s.end ((s.current + len) % u64_mod)
      then (none, s)
      else (some s.current, record s { current = (s.current + len) % u64_mod })
    else (none, s)
