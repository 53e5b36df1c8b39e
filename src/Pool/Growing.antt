-- ===== src/Pool/Growing.antt =====
-- The loop of `AllocFromStore` ends, and the block that is given lies in the file.
use ad_index.Base.{
  ℕ, zero, suc, ◌+◌, ◌-◌, ◌%◌, ◌^◌, ◌<◌, ◌≤◌, ◌≡◌, refl, ap, ◌∙◌, Bool, true, false, [], ◌∷◌, some,
  ltb, ◌==◌, if◌then◌else◌, u64_mod, number, get_bytes-same, Run, done, arith, ltb→lt, lt→ltb,
  Bool-cases, inl, inr,
}
use ad_index.Store.File.{
  StatusCode, success, operate, File, Disk, file_at, set_file, written, System, FileStore, write_at,
  expand_file,
}
use ad_index.Store.Reading.{Works, written-HasWritten, file_at-set_file}
use ad_index.Pool.Mapped.{used_of, get_used_size, grow}

-- The store has its file open to write, and knows its size.
pub record IsOpen (s : FileStore) (disk : Disk) : Type 0 where
  pub writes : s.fd ≡ some false
  pub tracks : s.size ≡ (file_at disk s.name).size

-- The store after its file has grown.
pub record Grew (s : FileStore) (disk : Disk) (s' : FileStore) (disk' : Disk) : Type 0 where
  pub stays_open : IsOpen s' disk'
  pub same_name : s'.name ≡ s.name
  pub longer : s.size ≤ s'.size
  pub keeps : (j : ℕ) → j < s.size → (file_at disk' s'.name).bytes j ≡ (file_at disk s.name).bytes j

Grew-none : (s : FileStore) (disk : Disk) → IsOpen s disk → Grew s disk s disk
Grew-none s disk o = record {
  stays_open = o;
  same_name = refl;
  longer = omega arith;
  keeps = λ j l. refl;
}

Grew-Grew :
    (s s' s'' : FileStore) (disk disk' disk'' : Disk)
    → Grew s disk s' disk'
    → Grew s' disk' s'' disk''
    → Grew s disk s'' disk''
Grew-Grew s s' s'' disk disk' disk'' g h = record {
  stays_open = h.stays_open;
  same_name = h.same_name ∙ g.same_name;
  longer = omega (arith, g.longer, h.longer);
  keeps = λ j l. h.keeps j (omega (arith, l, g.longer)) ∙ g.keeps j l;
}

expand_file-all :
    (os : System)
    → Works os
    → (s : FileStore) (disk : Disk) (n : ℕ) → IsOpen s disk
    → 0 < n
    → s.size + n < 2 ^ 63
    → expand_file os s disk n ≡ (
      success,
      record s { size = s.size + n },
      set_file disk s.name
          (written (file_at disk s.name) ((file_at disk s.name).size + (n - 1)) (n % 2 ^ 8 ∷ [])),
    )
unfolding expand_file write_at
expand_file-all os works s disk n o some_bytes small =
    let f = file_at disk s.name in
    let in_range : (f.size + (n - 1)) % u64_mod ≡ f.size + (n - 1) =
      omega (arith, small, o.tracks) in
    ground (
      arith,
      some_bytes,
      small,
      o.writes,
      o.tracks,
      in_range,
      works.seeks_all (f.size + (n - 1)) (omega (arith, small, o.tracks)),
      works.writes_all (f.size + (n - 1)) 1 (omega (arith, small, o.tracks, some_bytes)),
    )

-- An expansion of the file.
expand_file-Grew :
    (os : System)
    → Works os
    → (s : FileStore) (disk : Disk) (n : ℕ) → IsOpen s disk
    → 0 < n
    → s.size + n < 2 ^ 63
    → (disk' : Disk) × (expand_file os s disk n ≡ (success, record s { size = s.size + n }, disk'))
      × Grew s disk (record s { size = s.size + n }) disk'
expand_file-Grew os works s disk n o some_bytes small =
    let f = file_at disk s.name in
    let b : ℕ = n % 2 ^ 8 in
    let f' = written f (f.size + (n - 1)) (b ∷ []) in
    let has = written-HasWritten f (f.size + (n - 1)) b [] in
    let at = file_at-set_file disk s.name f' in
    (
      set_file disk s.name f',
      expand_file-all os works s disk n o some_bytes small,
      record {
        stays_open = record {
          writes = o.writes;
          tracks = rw at (ground (arith, has.ends, o.tracks, some_bytes));
        };
        same_name = refl;
        longer = omega arith;
        keeps = λ j l.
            rw at
              (has.before j (omega (arith, l, o.tracks, some_bytes)) (omega (arith, l, o.tracks)));
      },
    )

pub used_of-same :
    (f f' : File) → ((j : ℕ) → j < 8 → f'.bytes j ≡ f.bytes j) → used_of f' ≡ used_of f
unfolding used_of
used_of-same f f' h =
    ap number (get_bytes-same f'.bytes f.bytes 0 8 (λ j l m. h j (omega (arith, m))))

-- What the loop leaves: a file that has room.
abbrev pub Grows : Run (Bool × FileStore × Disk) → FileStore → Disk → ℕ → Type 0
Grows r s disk room =
    (s' : FileStore) × (disk' : Disk) × (r ≡ done (true, s', disk'))
    × (room < s'.size)
    × Grew s disk s' disk'

module _ (os : System) (works : Works os) (begin min_expand_size size : ℕ) where
  abbrev pub needs : FileStore → Disk → ℕ
  needs s disk = (get_used_size begin s disk + size) % u64_mod

  grow-done :
      (fuel : ℕ) (s : FileStore) (disk : Disk)
      → ltb (needs s disk) s.size ≡ true
      → grow os (suc fuel) begin min_expand_size size s disk ≡ done (true, s, disk)
  unfolding grow
  grow-done fuel s disk e = rw e refl

  grow-again :
      (fuel : ℕ) (s s' : FileStore) (disk disk' : Disk)
      → ltb (needs s disk) s.size ≡ false
      → expand_file os s disk min_expand_size ≡ (success, s', disk')
      → grow os (suc fuel) begin min_expand_size size s disk
        ≡ grow os fuel begin min_expand_size size s' disk'
  unfolding grow operate
  grow-again fuel s s' disk disk' e eq = rw e (
      ap
        (λ (r : StatusCode × FileStore × Disk). elim (operate r.0) [
          | true ↦ grow os fuel begin min_expand_size size r.1 r.2
          | false ↦ done (false, r.1, r.2)
        ])
        eq)

  needs-Grew :
      (s s' : FileStore) (disk disk' : Disk)
      → 8 ≤ s.size
      → Grew s disk s' disk'
      → needs s' disk' ≡ needs s disk
  unfolding get_used_size
  needs-Grew s s' disk disk' long g =
      ap (λ u. ((if begin == 0 then 0 else u) + size) % u64_mod)
        (used_of-same (file_at disk s.name) (file_at disk' s'.name)
          (λ j l. g.keeps j (omega (arith, l, long))))

  pub grow-Grows :
      (fuel : ℕ) (s : FileStore) (disk : Disk)
      → IsOpen s disk
      → 8 ≤ s.size
      → 0 < min_expand_size
      → needs s disk + min_expand_size < 2 ^ 63
      → needs s disk < s.size + fuel
      → Grows (grow os (suc fuel) begin min_expand_size size s disk) s disk (needs s disk)
  grow-Grows zero s disk o long some_bytes small enough = (
    s,
    disk,
    grow-done zero s disk (lt→ltb (needs s disk) s.size (omega (arith, enough))),
    omega (arith, enough),
    Grew-none s disk o,
  )
  grow-Grows (suc fuel) s disk o long some_bytes small enough =
      elim (Bool-cases (ltb (needs s disk) s.size)) [
        | inl room ↦ (
          s,
          disk,
          grow-done (suc fuel) s disk room,
          ltb→lt (needs s disk) s.size room,
          Grew-none s disk o,
        )
        | inr full ↦
            let le : s.size ≤ needs s disk = ground (arith, full) in
            let (disk', eq, g) =
              expand_file-Grew os works s disk min_expand_size o some_bytes
                (omega (arith, small, le)) in
            let s' : FileStore = record s { size = s.size + min_expand_size } in
            let same = needs-Grew s s' disk disk' long g in
            let (s'', disk'', eq', room, h) =
              grow-Grows fuel s' disk' g.stays_open (omega (arith, long)) some_bytes
                (omega (arith, small, same)) (omega (arith, enough, same, some_bytes)) in
            (
              s'',
              disk'',
              grow-again (suc fuel) s s' disk disk' full eq ∙ eq',
              omega (arith, room, same),
              Grew-Grew s s' s'' disk disk' disk'' g h,
            )
      ]
