-- ===== src/Utils/Strip.antt =====
-- `Strip` takes the blanks off both ends, and no more.
use ad_index.Base.{
  ℕ, ◌≡◌, refl, ap, ◌∙◌, Bool, true, false, ◌&&◌, List, [], ◌∷◌, ◌++◌, if◌then◌else◌, Bool-cases,
  inl, inr,
}
use ad_index.Utils.Text.{is_empty, is_blank, trim_start, trim_end, strip}

abbrev pub Blanks : List ℕ → Type 0
Blanks [] = Unit {0}
Blanks (c ∷ cs) = (is_blank c ≡ true) × Blanks cs

-- The text starts, or ends, with a character that is not blank, or is empty.
abbrev pub StartsFull : List ℕ → Type 0
StartsFull [] = Unit {0}
StartsFull (c ∷ cs) = is_blank c ≡ false

abbrev pub EndsFull : List ℕ → Type 0
EndsFull [] = Unit {0}
EndsFull (c ∷ []) = is_blank c ≡ false
EndsFull (c ∷ d ∷ cs) = EndsFull (d ∷ cs)

trim_start_lem :
    (str : List ℕ)
    → (l : List ℕ) × Blanks l × (str ≡ l ++ trim_start str) × StartsFull (trim_start str)
unfolding trim_start
trim_start_lem [] = ([], tt, refl, tt)
trim_start_lem (c ∷ cs) = elim (Bool-cases (is_blank c)) [
  | inl blank ↦
      let (l, b, e, s) = trim_start_lem cs in rw blank (c ∷ l, (blank, b), ap (λ t. c ∷ t) e, s)
  | inr full ↦ rw full ([], tt, refl, full)
]

trim_end_lem :
    (str : List ℕ) → (r : List ℕ) × Blanks r × (str ≡ trim_end str ++ r) × EndsFull (trim_end str)
unfolding trim_end
trim_end_lem [] = ([], tt, refl, tt)
trim_end_lem (c ∷ cs) = let (r, b, e, s) = trim_end_lem cs in go (trim_end cs) r b e s
  where
    go :
        (rest r : List ℕ)
        → Blanks r
        → cs ≡ rest ++ r
        → EndsFull rest
        → (r' : List ℕ) × Blanks r'
          × (c ∷ cs ≡ (if is_empty rest && is_blank c then [] else c ∷ rest) ++ r')
          × EndsFull (if is_empty rest && is_blank c then [] else c ∷ rest)
    go [] r b e s = elim (Bool-cases (is_blank c)) [
      | inl blank ↦ rw blank (c ∷ r, (blank, b), ap (λ t. c ∷ t) e, tt)
      | inr full ↦ rw full (r, b, ap (λ t. c ∷ t) e, full)
    ]
    go (d ∷ ds) r b e s = (r, b, ap (λ t. c ∷ t) e, s)

trim_end-StartsFull : (str : List ℕ) → StartsFull str → StartsFull (trim_end str)
unfolding trim_end
trim_end-StartsFull [] s = tt
trim_end-StartsFull (c ∷ cs) s = go (is_empty (trim_end cs)) (trim_end cs)
  where
    go : (b : Bool) (rest : List ℕ) → StartsFull (if b && is_blank c then [] else c ∷ rest)
    go true rest = rw s s
    go false rest = s

-- `Strip` takes blanks off the start and the end of a text, and what is left neither starts nor ends
-- with a blank.
pub strip_lem :
    (str : List ℕ)
    → (l : List ℕ) × (r : List ℕ) × (str ≡ l ++ (strip str ++ r))
      × Blanks l
      × Blanks r
      × StartsFull (strip str)
      × EndsFull (strip str)
unfolding strip
strip_lem str =
    let (l, bl, el, sl) = trim_start_lem str in
    let (r, br, er, sr) = trim_end_lem (trim_start str) in
    (l, r, el ∙ ap (λ t. l ++ t) er, bl, br, trim_end-StartsFull (trim_start str) sl, sr)
