-- ===== src/SortTable/Shifting.antt =====
-- What moving records up in a block, and copying them to another, does to each record.
use ad_index.Base.{
  ℕ, zero, suc, ◌+◌, ◌-◌, ◌<◌, ◌≤◌, ◌≡◌, refl, ◌∙◌, ◌&&◌, List, arith, ltb, leb, if◌then◌else◌,
  length, get_or, set, length-set, get_or-set,
}
use ad_index.SortTable.{Record, cleared}
use ad_index.SortTable.Table.{shift_up, copy_from}

abbrev pub record_at : List Record → ℕ → Record
record_at records i = get_or records i cleared

pub length-shift_up :
    (n : ℕ) (records : List Record) (p : ℕ) → length (shift_up n records p) ≡ length records
unfolding shift_up
length-shift_up zero records p = refl
length-shift_up (suc n) records p = length-shift_up n _ p ∙ length-set records (p + n + 1) _

pub shift_up-get_or :
    (n : ℕ) (records : List Record) (p j : ℕ)
    → p + n < length records
    → record_at (shift_up n records p) j
      ≡ (if ltb p j && leb j (p + n) then record_at records (j - 1) else record_at records j)
unfolding shift_up
shift_up-get_or zero records p j h = ground arith
shift_up-get_or (suc n) records p j h =
    let v = record_at records (p + n) in
    let records' = set records (p + n + 1) v in
    ground (
      arith,
      length-set records (p + n + 1) v,
      shift_up-get_or n records' p j,
      get_or-set records (p + n + 1) (j - 1) v cleared,
      get_or-set records (p + n + 1) j v cleared,
    )

pub length-copy_from :
    (n : ℕ) (new old : List Record) (i back : ℕ) → length (copy_from n new old i back) ≡ length new
unfolding copy_from
length-copy_from zero new old i back = refl
length-copy_from (suc n) new old i back = length-copy_from n _ old (i + 1) back ∙ length-set new i _

pub copy_from-get_or :
    (n : ℕ) (new old : List Record) (i back j : ℕ)
    → i + n ≤ length new
    → record_at (copy_from n new old i back) j
      ≡ (if leb i j && ltb j (i + n) then record_at old (j - back) else record_at new j)
unfolding copy_from
copy_from-get_or zero new old i back j h = ground arith
copy_from-get_or (suc n) new old i back j h =
    let v = record_at old (i - back) in
    ground (
      arith,
      length-set new i v,
      copy_from-get_or n (set new i v) old (i + 1) back j,
      get_or-set new i j v cleared,
    )
