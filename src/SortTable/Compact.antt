-- ===== src/SortTable/Compact.antt =====
-- The loop of `BatchDelete` leaves the difference in front.
use mathlib.Core.List.{append_assoc}
use ad_index.Base.{
  ℕ, zero, suc, ◌+◌, ◌-◌, ◌<◌, ◌≡◌, refl, ap, ◌∙◌, sym, List, [], ◌∷◌, ◌++◌, arith, inl, inr, ◌==◌,
  length, get_or, set, lt_i64, Bool-cases, length-append,
}
use ad_index.SortTable.{Record, cleared}
use ad_index.SortTable.Batch.{keep, delete_loop}
use ad_index.SortTable.Difference.{difference}

get_or-middle :
    (ps qs : List Record) (i : ℕ) (x : Record) → i ≡ length ps → get_or (ps ++ x ∷ qs) i cleared ≡ x
get_or-middle [] qs zero x e = refl
get_or-middle [] qs (suc i) x e = absurd (omega arith)
get_or-middle (p ∷ ps) qs zero x e = absurd (omega arith)
get_or-middle (p ∷ ps) qs (suc i) x e = get_or-middle ps qs i x (omega arith)

set-middle :
    (ps qs : List Record) (i : ℕ) (x y : Record)
    → i ≡ length ps
    → set (ps ++ x ∷ qs) i y ≡ (ps ++ y ∷ qs)
set-middle [] qs zero x y e = refl
set-middle [] qs (suc i) x y e = absurd (omega arith)
set-middle (p ∷ ps) qs zero x y e = absurd (omega arith)
set-middle (p ∷ ps) qs (suc i) x y e = ap (λ l. p ∷ l) (set-middle ps qs i x y (omega arith))

-- One record moves down to the end of what is kept; the gap `js` keeps its length.
keep-append :
    (ps js qs : List Record) (x : Record) (write read : ℕ)
    → write ≡ length ps
    → read ≡ length ps + length js
    → (js' : List Record) × (keep (ps ++ (js ++ x ∷ qs)) write read ≡ (ps ++ x ∷ []) ++ (js' ++ qs))
      × (length js' ≡ length js)
keep-append ps [] qs x write read ew er = ([], ground (arith, append_assoc ps (x ∷ []) qs), refl)
keep-append ps (j ∷ js) qs x write read ew er = (
  js ++ x ∷ [],
  ground (
    arith,
    here,
    set-middle ps (js ++ x ∷ qs) write j x ew,
    append_assoc ps (x ∷ []) ((js ++ x ∷ []) ++ qs),
    append_assoc js (x ∷ []) qs,
  ),
  omega (arith, length-append js (x ∷ [])),
)
  where
    here : get_or (ps ++ (j ∷ js ++ x ∷ qs)) read cleared ≡ x
    here =
        rw (← append_assoc ps (j ∷ js) (x ∷ qs))
          (get_or-middle (ps ++ j ∷ js) qs read x (omega (arith, length-append ps (j ∷ js))))

-- What the loop has done when it ends: behind the records kept before stands the difference, and
-- `deleted` has grown by the number of records that are gone.
pub record Leaves (ps ds : List Record) (count size : ℕ) (r : ℕ × List Record) : Type 0 where
  pub rest : List Record
  pub records : r.1 ≡ ps ++ (ds ++ rest)
  pub deleted : r.0 + length ds ≡ count
  pub kept_size : length r.1 ≡ size

Leaves-cons :
    (ps ds : List Record) (x : Record) (count size : ℕ) (r : ℕ × List Record)
    → Leaves (ps ++ x ∷ []) ds (count - 1) size r
    → 0 < count
    → Leaves ps (x ∷ ds) count size r
Leaves-cons ps ds x count size r l h = record {
  rest = l.rest;
  records = l.records ∙ append_assoc ps (x ∷ []) (ds ++ l.rest);
  deleted = omega (arith, l.deleted);
  kept_size = l.kept_size;
}

length-gap :
    (ps js qs : List Record) → length (ps ++ (js ++ qs)) ≡ length ps + length js + length qs
length-gap ps js qs = omega (arith, length-append ps (js ++ qs), length-append js qs)

pub delete_loop-Leaves :
    (ss : List Record) (ks : List ℕ) (ps js qs : List Record) (read write deleted count size : ℕ)
    → write ≡ length ps
    → read ≡ length ps + length js
    → deleted + length ss ≡ count
    → length ps + length js + length (ss ++ qs) ≡ size
    → Leaves ps
        (difference ss ks)
        count
        size
        (delete_loop (length ss) ks read write deleted (ps ++ (js ++ (ss ++ qs))))
unfolding delete_loop difference
delete_loop-Leaves [] ks ps js qs read write deleted count size ew er ec es = record {
  rest = js ++ qs;
  records = refl;
  deleted = omega arith;
  kept_size = omega (arith, length-gap ps js qs);
}
delete_loop-Leaves (x ∷ ss) [] ps js qs read write deleted count size ew er ec es =
    let (js', e, l) = keep-append ps js (ss ++ qs) x write read ew er in
    rw (e, delete_loop)
      (Leaves-cons ps _ x count size _
        (delete_loop-Leaves ss [] (ps ++ x ∷ []) js' qs (read + 1) (write + 1) deleted (count - 1)
          size (omega (arith, length-append ps (x ∷ []))) (omega (arith, length-append ps (x ∷ [])))
          (omega arith) (omega (arith, length-append ps (x ∷ []))))
        (omega arith))
delete_loop-Leaves (x ∷ ss) (k ∷ ks) ps js qs read write deleted count size ew er ec es =
    elim (Bool-cases (x.key == k)) [
      | inl hit ↦
          rw (ap (λ (y : Record). y.key == k) here ∙ hit, hit, delete_loop, difference)
            (rw (sym (append_assoc js (x ∷ []) (ss ++ qs))) (
              delete_loop-Leaves ss ks ps (js ++ x ∷ []) qs (read + 1) write (deleted + 1) count
                size ew (omega (arith, length-append js (x ∷ []))) (omega arith)
                (omega (arith, length-append js (x ∷ [])))))
      | inr miss ↦ elim (Bool-cases (lt_i64 x.key k)) [
        | inl less ↦
            rw (ap (λ (y : Record). y.key == k) here ∙ miss, miss, delete_loop, difference)
              (rw (ap (λ (y : Record). lt_i64 y.key k) here ∙ less, less, delete_loop, difference)
                (let (js', e, l) = keep-append ps js (ss ++ qs) x write read ew er in
                  rw e (
                    Leaves-cons ps _ x count size _
                      (delete_loop-Leaves ss (k ∷ ks) (ps ++ x ∷ []) js' qs (read + 1) (write + 1)
                        deleted (count - 1) size (omega (arith, length-append ps (x ∷ [])))
                        (omega (arith, length-append ps (x ∷ []))) (omega arith)
                        (omega (arith, length-append ps (x ∷ []))))
                      (omega arith))))
        | inr more ↦
            rw (ap (λ (y : Record). y.key == k) here ∙ miss, miss, delete_loop, difference)
              (rw (ap (λ (y : Record). lt_i64 y.key k) here ∙ more, more, delete_loop, difference)
                (delete_loop-Leaves (x ∷ ss) ks ps js qs read write deleted count size ew er ec es))
      ]
    ]
  where
    here : get_or (ps ++ (js ++ x ∷ (ss ++ qs))) read cleared ≡ x
    here =
        rw (← append_assoc ps js (x ∷ (ss ++ qs)))
          (get_or-middle (ps ++ js) (ss ++ qs) read x (omega (arith, length-append ps js)))
