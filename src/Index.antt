-- ===== src/Index.antt =====
-- kernel/index/index.h: what the tables take and give back.
pub mod Magic
pub mod Made
mod Tests
use ad_index.Base.{ℕ, Option, List, [], ◌∷◌, ◌<◌, none, some, Bool, true, false, ◌-◌, u64_mod}

-- A `KvPair`, with the `len` bytes at `key`; `none` is nullptr.
pub record KvPair : Type 0 where
  pub key : Option (List ℕ)
  pub value : ℕ
  pub payload_len : ℕ

-- The bytes of a key.
abbrev pub IsBytes : List ℕ → Type 0
IsBytes [] = Unit {0}
IsBytes (b ∷ bs) = (b < 256) × IsBytes bs

-- What `Search` tells of a value that the table holds, or not: -1 if it does not.
abbrev pub answer : Option ℕ → Bool × ℕ
answer none = (false, u64_mod - 1)
answer (some v) = (true, v)
