-- ===== src/Pool/Dumping.antt =====
-- What `DumpFreeList` writes.
use mathlib.Core.Path.{subst}
use ad_index.Base.{
  ℕ, zero, suc, ◌+◌, ◌*◌, ◌%◌, ◌^◌, ◌<◌, ◌≤◌, ◌≡◌, refl, ap, ◌∙◌, Bool, true, false, List, [], ◌∷◌,
  ◌++◌, some, ltb, if◌then◌else◌, length, length-append, u32_mod, u64_mod, bytes_of, get_bytes,
  done, arith, inl,
}
use ad_index.Store.File.{File, file_at, set_file, written, System, operate}
use ad_index.Store.Reading.{Works, HasWritten, written-HasWritten, write_file-all, file_at-set_file}
use ad_index.Pool.FreeList.{FreeList}
use ad_index.Pool.Saved.{Writing, block_bytes, offset_of, write_block, write_queue, write_list}
use ad_index.Pool.Totals.{queue_blocks, list_blocks}
use ad_index.Pool.Blocks.{Holds, Holds-Keeps, Holds-append}

module _ (stamp : ℕ → ℕ) (base : ℕ) (os : System) where
  abbrev pub file_of : Writing → File
  file_of w = file_at w.disk w.store.name

  -- The writer has its file open, and goes on behind these blocks.
  pub record Wrote (w w' : Writing) (blocks : List (ℕ × ℕ)) : Type 0 where
    pub is_open : w'.store.fd ≡ some false
    pub same_name : w'.store.name ≡ w.store.name
    pub further : w'.pos ≡ w.pos + 16 * length blocks
    pub counted : w'.count ≡ w.count + length blocks
    pub grows : (file_of w).size ≤ (file_of w').size
    pub keeps :
        (j : ℕ) → j < w.pos → j < (file_of w).size → (file_of w').bytes j ≡ (file_of w).bytes j
    pub holds : Holds stamp base os (file_of w') w.pos blocks

  Wrote-none : (w : Writing) → w.store.fd ≡ some false → Wrote w w []
  Wrote-none w e = record {
    is_open = e;
    same_name = refl;
    further = omega arith;
    counted = omega arith;
    grows = omega arith;
    keeps = λ j l m. refl;
    holds = record {};
  }

  Wrote-append :
      (w w' w'' : Writing) (bs cs : List (ℕ × ℕ))
      → Wrote w w' bs
      → Wrote w' w'' cs
      → Wrote w w'' (bs ++ cs)
  Wrote-append w w' w'' bs cs r q = record {
    is_open = q.is_open;
    same_name = q.same_name ∙ r.same_name;
    further = omega (arith, q.further, r.further, length-append bs cs);
    counted = omega (arith, q.counted, r.counted, length-append bs cs);
    grows = omega (arith, q.grows, r.grows);
    keeps = λ j l m.
        q.keeps j (omega (arith, l, r.further)) (omega (arith, m, r.grows)) ∙ r.keeps j l m;
    holds =
        Holds-append stamp base os (file_of w'') w.pos bs cs
          (Holds-Keeps stamp base os (file_of w') (file_of w'') 0 (w.pos + 16 * length bs) w.pos bs
            (inl q.grows, λ j l m n. q.keeps j (omega (arith, m, r.further)) n) (omega arith)
            (omega arith) r.holds)
          (subst (λ k. Holds stamp base os (file_of w'') k cs) r.further q.holds);
  }

  length-block_bytes : (size a : ℕ) → length (block_bytes os stamp base size a) ≡ 16
  unfolding block_bytes bytes_of
  length-block_bytes size a = refl

  abbrev written_block : Writing → ℕ → ℕ → Writing
  written_block w size a = record w {
    store = record w.store {
      size = if ltb w.store.size (w.pos + 16) then w.pos + 16 else w.store.size;
    };
    disk = set_file w.disk w.store.name (
        written (file_of w) w.pos
          (block_bytes os stamp base (size % u32_mod) (offset_of os stamp base a)));
    count = (w.count + 1) % u64_mod;
    pos = (w.pos + 16) % u64_mod;
  }

  has_block :
      (f : File) (pos size a : ℕ)
      → HasWritten f
          (written f pos (block_bytes os stamp base size a))
          pos
          (block_bytes os stamp base size a)
  unfolding block_bytes bytes_of
  has_block f pos size a = written-HasWritten f pos _ _

  block-Wrote :
      (w : Writing) (size a : ℕ) (f' : File)
      → file_of (written_block w size a) ≡ f'
      → HasWritten
          (file_of w)
          f'
          w.pos
          (block_bytes os stamp base (size % u32_mod) (offset_of os stamp base a))
      → w.store.fd ≡ some false
      → w.pos + 16 < 2 ^ 63
      → w.count < 2 ^ 63
      → Wrote w (written_block w size a) ((size, a) ∷ [])
  block-Wrote w size a f' at has e room few =
      let size_block = length-block_bytes (size % u32_mod) (offset_of os stamp base a) in
      let ends : f'.size
          ≡ (if ltb (file_of w).size (w.pos + 16) then w.pos + 16 else (file_of w).size) =
        subst
          (λ n.
            f'.size ≡ (if ltb (file_of w).size (w.pos + n) then w.pos + n else (file_of w).size))
          size_block has.ends in
      record {
        is_open = e;
        same_name = refl;
        further = omega (arith, room);
        counted = omega (arith, few);
        grows = rw at (ground (arith, ends));
        keeps = λ j l m. rw at (has.before j l m);
        holds = rw at (
          subst
              (λ n.
                get_bytes f'.bytes w.pos n
                ≡ block_bytes os stamp base (size % u32_mod) (offset_of os stamp base a))
              size_block has.there,
          ground (arith, ends),
          record {},
        );
      }

  module _ (works : Works os) where
    write_block-Wrote :
        (w : Writing) (size a : ℕ)
        → w.store.fd ≡ some false
        → w.pos + 16 < 2 ^ 63
        → w.count < 2 ^ 63
        → (w' : Writing) × (write_block os stamp base (size % u32_mod) w a ≡ (true, w'))
          × Wrote w w' ((size, a) ∷ [])
    unfolding write_block operate block_bytes bytes_of
    write_block-Wrote w size a e room few = (
      written_block w size a,
      rw
          (write_file-all os works w.store w.disk w.pos
            (block_bytes os stamp base (size % u32_mod) (offset_of os stamp base a)) e room)
          refl,
      block-Wrote w size a _ (file_at-set_file w.disk w.store.name _)
          (has_block (file_of w) w.pos (size % u32_mod) (offset_of os stamp base a)) e room few,
    )

    write_queue-step :
        (fuel size a : ℕ) (w w' : Writing) (queue : List ℕ)
        → write_block os stamp base size w a ≡ (true, w')
        → write_queue os stamp base (suc fuel) size w (a ∷ queue)
          ≡ write_queue os stamp base fuel size w' queue
    unfolding write_queue
    write_queue-step fuel size a w w' queue eq =
        ap
          (λ (r : Bool × Writing). elim r.0 [
            | true ↦ write_queue os stamp base fuel size r.1 queue
            | false ↦ write_queue os stamp base fuel size r.1 (a ∷ queue)
          ])
          eq

    write_queue-Wrote :
        (fuel : ℕ) (w : Writing) (size : ℕ) (queue : List ℕ)
        → w.store.fd ≡ some false
        → length queue ≤ fuel
        → w.pos + 16 * length queue < 2 ^ 63
        → w.count + length queue < 2 ^ 63
        → (w' : Writing) × (write_queue os stamp base fuel (size % u32_mod) w queue ≡ done w')
          × Wrote w w' (queue_blocks size queue)
    unfolding write_queue
    write_queue-Wrote fuel w size [] e enough room few = (w, refl, Wrote-none w e)
    write_queue-Wrote zero w size (a ∷ queue) e enough room few = absurd (omega (arith, enough))
    write_queue-Wrote (suc fuel) w size (a ∷ queue) e enough room few =
        let (w', eq, r) = write_block-Wrote w size a e (omega (arith, room)) (omega (arith, few)) in
        let (w'', eq', q) =
          write_queue-Wrote fuel w' size queue r.is_open (omega (arith, enough))
            (omega (arith, room, r.further)) (omega (arith, few, r.counted)) in
        (
          w'',
          write_queue-step fuel (size % u32_mod) a w w' queue eq ∙ eq',
          Wrote-append w w' w'' ((size, a) ∷ []) (queue_blocks size queue) r q,
        )

    length-queue_blocks :
        (size : ℕ) (queue : List ℕ) → length (queue_blocks size queue) ≡ length queue
    length-queue_blocks size [] = refl
    length-queue_blocks size (a ∷ queue) = ap suc (length-queue_blocks size queue)

    pub write_list-Wrote :
        (fuel : ℕ) (w : Writing) (fl : FreeList)
        → w.store.fd ≡ some false
        → length (list_blocks fl) ≤ fuel
        → w.pos + 16 * length (list_blocks fl) < 2 ^ 63
        → w.count + length (list_blocks fl) < 2 ^ 63
        → (w' : Writing) × (write_list os stamp base fuel w fl ≡ done w')
          × Wrote w w' (list_blocks fl)
    unfolding write_list
    write_list-Wrote fuel w [] e enough room few = (w, refl, Wrote-none w e)
    write_list-Wrote fuel w ((size, queue) ∷ rest) e enough room few =
        let both = length-append (queue_blocks size queue) (list_blocks rest) in
        let one = length-queue_blocks size queue in
        let (w', eq, r) =
          write_queue-Wrote fuel w size queue e (omega (arith, enough, both, one))
            (omega (arith, room, both, one)) (omega (arith, few, both, one)) in
        let (w'', eq', q) =
          write_list-Wrote fuel w' rest r.is_open (omega (arith, enough, both))
            (omega (arith, room, both, r.further)) (omega (arith, few, both, r.counted)) in
        (w'', rw eq eq', Wrote-append w w' w'' (queue_blocks size queue) (list_blocks rest) r q)
