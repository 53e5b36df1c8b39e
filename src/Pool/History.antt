-- ===== src/Pool/History.antt =====
-- The pool in use: which blocks are given out, and which wait to be freed. `Free` runs at once, or, if
-- there is a time to wait, by the one thread of `delay_free_thread_pool_`, in the order of the calls.
use ad_index.Base.{
  ℕ, ◌+◌, ◌≤◌, ◌≡◌, Bool, ◌&&◌, List, [], ◌∷◌, ◌++◌, Option, none, some, ltb, leb, if◌then◌else◌,
}
use ad_index.Pool.FreeList.{FreeList}
use ad_index.Pool.FilePool.{FilePool, do_alloc, do_free}
use ad_index.Pool.Cover.{covers, cover_free, cover_blocks}

-- The blocks given out and those that wait to be freed, with the sizes asked for.
pub record History : Type 0 where
  pub pool : FilePool
  pub live : List (ℕ × ℕ)
  pub pending : List (ℕ × ℕ)

module _ (aligned : ℕ → ℕ) (expands : ℕ → ℕ → Bool) where
  pub data Step : History → History → Type 0 where
    allocates :
        (h : History) (size a : ℕ) (p : FilePool)
        → do_alloc aligned expands h.pool size ≡ (some a, p)
        → Step h (record { pool = p; live = (a, size) ∷ h.live; pending = h.pending })
    refuses :
        (h : History) (size : ℕ) (p : FilePool)
        → do_alloc aligned expands h.pool size ≡ (none, p)
        → Step h (record { pool = p; live = h.live; pending = h.pending })
    frees_now :
        (h : History) (bs cs : List (ℕ × ℕ)) (a size : ℕ)
        → h.live ≡ bs ++ (a, size) ∷ cs
        → Step h
            (record { pool = do_free aligned h.pool a size; live = bs ++ cs; pending = h.pending })
    frees_later :
        (h : History) (bs cs : List (ℕ × ℕ)) (a size : ℕ)
        → h.live ≡ bs ++ (a, size) ∷ cs
        → Step h (record { pool = h.pool; live = bs ++ cs; pending = h.pending ++ (a, size) ∷ [] })
    runs_task :
        (h : History) (rest : List (ℕ × ℕ)) (a size : ℕ)
        → h.pending ≡ (a, size) ∷ rest
        → Step h (record { pool = do_free aligned h.pool a size; live = h.live; pending = rest })

  -- What can happen from a history on.
  pub data Reaches (start : History) : History → Type 0 where
    begins : Reaches start start
    goes_on : (h h' : History) → Reaches start h → Step h h' → Reaches start h'

  -- How often an address lies in a block: given out, waiting, or free.
  unfoldable pub cover : ℕ → History → ℕ
  cover x h =
      cover_blocks aligned x h.live
      + cover_blocks aligned x h.pending
      + cover_free x h.pool.free_list

  -- No address lies in two blocks, and none beyond the store lies in any.
  pub record Apart (h : History) : Type 0 where
    pub size : ℕ
    pub is_open : h.pool.store ≡ some size
    pub once : (x : ℕ) → cover x h ≤ 1
    pub inside : (x : ℕ) → size ≤ x → cover x h ≡ 0

  -- The cover by the block that was given, if one was.
  abbrev gain : Option ℕ → ℕ → ℕ → ℕ
  gain none n x = 0
  gain (some a) n x = covers x a n

  -- A request takes a block out of the free list, or from behind the end of the store.
  abbrev Grows : FilePool → ℕ → ℕ → Option ℕ × FilePool → Type 0
  Grows p end n (given, p') =
      (end' : ℕ) × (p'.store ≡ some end')
      × (end ≤ end')
      × ((x : ℕ)
          → gain given n x + cover_free x p'.free_list
            ≤ cover_free x p.free_list + (if leb end x && ltb x end' then 1 else 0))
