-- ===== src/Rag/Split/Chunks.antt =====
-- What the chunks of `SplitText` in agent/rag/rag.go are.
use gude_agents.Prelude.{
  ℕ, zero, suc, ◌+◌, ◌-◌, ◌≤◌, ◌<◌, ◌≡◌, refl, sym, ap, ◌∙◌, subst, false, List, [], ◌∷◌, ◌++◌, ok,
  All, length, take, drop, take-append-drop, length-drop, length-take, ltb, leb, arith, ltb→lt,
  Bool-cases, inl, inr,
}
use gude_agents.Words.{two63, is_neg, slt, slt_pos, sle_pos, add64_exact, sub64_exact}
use gude_agents.Rag.Split.{Runes, slice, chunk_end, chunks_from, capacity_panics, split_text}

-- The runes before the step of each chunk, put together.
abbrev pub heads : ℕ → List Runes → Runes
heads step [] = []
heads step (c ∷ cs) = take step c ++ heads step cs

-- A chunk's runes behind the step are the next chunk's first ones, up to the overlap.
abbrev pub Continues : ℕ → ℕ → Runes → List Runes → Type 0
Continues step overlap c [] = Unit
Continues step overlap c (d ∷ cs) = drop step c ≡ take overlap d

abbrev pub Shares : ℕ → ℕ → List Runes → Type 0
Shares step overlap [] = Unit
Shares step overlap (c ∷ cs) = Continues step overlap c cs × Shares step overlap cs

abbrev pub IsSized : ℕ → Runes → Type 0
IsSized chunk_size c = (0 < length c) × (length c ≤ chunk_size)

take-take : (m n : ℕ) (xs : Runes) → m ≤ n → take m (take n xs) ≡ take m xs
take-take zero n xs h = refl
take-take (suc m) zero xs h = absurd (none_below h)
  where
    none_below : suc m ≤ 0 → ⊥
    none_below h = omega (arith, h)
take-take (suc m) (suc n) [] h = refl
take-take (suc m) (suc n) (x ∷ xs) h = ap (λ rest. x ∷ rest) (take-take m n xs (omega (arith, h)))

suc_add : (m n : ℕ) → suc m + n ≡ suc (m + n)
suc_add m n = omega arith

zero_add : (n : ℕ) → 0 + n ≡ n
zero_add n = omega arith

take_nil : (n : ℕ) → take {A = ℕ} n [] ≡ []
take_nil zero = refl
take_nil (suc n) = refl

drop_nil : (n : ℕ) → drop {A = ℕ} n [] ≡ []
drop_nil zero = refl
drop_nil (suc n) = refl

drop-take : (m k : ℕ) (xs : Runes) → drop m (take (m + k) xs) ≡ take k (drop m xs)
drop-take zero k xs = rw (zero_add k)
drop-take (suc m) k [] = rw (suc_add m k, take_nil k)
drop-take (suc m) k (x ∷ xs) = rw (suc_add m k) (drop-take m k xs)

drop-drop : (i m : ℕ) (xs : Runes) → drop (i + m) xs ≡ drop m (drop i xs)
drop-drop zero m xs = rw (zero_add m)
drop-drop (suc i) m [] = rw (suc_add i m, drop_nil m)
drop-drop (suc i) m (x ∷ xs) = rw (suc_add i m) (drop-drop i m xs)

drop_all : (n : ℕ) (xs : Runes) → length xs ≤ n → drop n xs ≡ []
drop_all zero [] h = refl
drop_all zero (x ∷ xs) h = absurd (too_long h)
  where
    too_long : suc (length xs) ≤ 0 → ⊥
    too_long h = omega (arith, h)
drop_all (suc n) [] h = refl
drop_all (suc n) (x ∷ xs) h = drop_all n xs (omega (arith, h))

take_all : (n : ℕ) (xs : Runes) → length xs ≤ n → take n xs ≡ xs
take_all zero [] h = refl
take_all zero (x ∷ xs) h = absurd (too_long h)
  where
    too_long : suc (length xs) ≤ 0 → ⊥
    too_long h = omega (arith, h)
take_all (suc n) [] h = refl
take_all (suc n) (x ∷ xs) h = ap (λ rest. x ∷ rest) (take_all n xs (omega (arith, h)))

module _ (runes : Runes) (chunk_size step : ℕ) where
  -- The slices of the loop, by their positions.
  abbrev pub IsChunked : ℕ → List Runes → Type 0
  IsChunked i [] = length runes ≤ i
  IsChunked i (c ∷ cs) =
      (i < length runes) × (c ≡ take chunk_size (drop i runes)) × IsChunked (i + step) cs

  -- The slice of a round is the next runes up to the chunk size.
  slice-chunk_end :
      (i : ℕ)
      → length runes + chunk_size < two63
      → i < length runes
      → slice runes i (chunk_end (length runes) chunk_size i) ≡ take chunk_size (drop i runes)
  slice-chunk_end i small inside =
      let end =
        add64_exact i chunk_size (omega (arith, small, inside)) (omega (arith, small))
          (omega (arith, small, inside)) in
      let test =
        slt_pos (length runes) (i + chunk_size) (omega (arith, small))
          (omega (arith, small, inside)) in
      elim (Bool-cases (ltb (length runes) (i + chunk_size))) [
        | inl beyond ↦
            rw (end, test, beyond)
              (take_all (length runes - i) (drop i runes) (omega (arith, length-drop i runes))
                ∙ sym (
                    take_all chunk_size (drop i runes) (
                      omega (
                        arith,
                        length-drop i runes,
                        ltb→lt (length runes) (i + chunk_size) beyond,
                      ))))
        | inr fits ↦ rw (end, test, fits, added_back) refl
      ]
    where
      added_back : i + chunk_size - i ≡ chunk_size
      added_back = omega arith

  slt-chunk_end :
      (i : ℕ)
      → length runes + chunk_size < two63
      → i < length runes
      → slt (chunk_end (length runes) chunk_size i) i ≡ false
  unfolding slt
  slt-chunk_end i small inside =
      let end =
        add64_exact i chunk_size (omega (arith, small, inside)) (omega (arith, small))
          (omega (arith, small, inside)) in
      rw end (ground arith)

  stopped : (i : ℕ) → length runes ≤ i + 0 → ltb i (length runes) ≡ false
  stopped i h = ground arith

  module _ (small : length runes + chunk_size < two63) (forward : 0 < step)
      (inside : step ≤ chunk_size) where
    chunks_from-IsChunked :
        (fuel i : ℕ)
        → i < length runes + chunk_size
        → length runes ≤ i + fuel
        → (cs : List Runes) × (chunks_from fuel runes chunk_size step i ≡ ok cs) × IsChunked i cs
    unfolding chunks_from
    chunks_from-IsChunked zero i near enough =
        let here = slt_pos i (length runes) (omega (arith, small, near)) (omega (arith, small)) in
        let past = stopped i enough in ([], rw (here, past), omega (arith, enough))
    chunks_from-IsChunked (suc fuel) i near enough =
        let here = slt_pos i (length runes) (omega (arith, small, near)) (omega (arith, small)) in
        elim (Bool-cases (ltb i (length runes))) [
          | inr no_more ↦ ([], rw (here, no_more), ground arith)
          | inl more ↦
              let lt = ltb→lt i (length runes) more in
              let next =
                chunks_from-IsChunked fuel (i + step) (omega (arith, lt, inside))
                  (omega (arith, enough, forward)) in
              let add =
                add64_exact i step (omega (arith, small, near)) (omega (arith, small, inside))
                  (omega (arith, small, lt, inside)) in
              (
                take chunk_size (drop i runes) ∷ next.0,
                rw (slt-chunk_end i small lt, here, more, add, next.1, slice-chunk_end i small lt),
                (lt, refl, next.2),
              )
        ]

module _ (runes : Runes) (step overlap : ℕ) where
  IsChunked-heads :
      (i : ℕ) (cs : List Runes)
      → IsChunked runes (step + overlap) step i cs
      → heads step cs ≡ drop i runes
  IsChunked-heads i [] h = sym (drop_all i runes h)
  IsChunked-heads i (c ∷ cs) h =
      rw
        (
          h.1,
          take-take step (step + overlap) (drop i runes) (omega arith),
          IsChunked-heads (i + step) cs h.2,
          drop-drop i step runes,
        )
        (take-append-drop step (drop i runes))

  IsChunked-Shares :
      (i : ℕ) (cs : List Runes)
      → IsChunked runes (step + overlap) step i cs
      → Shares step overlap cs
  IsChunked-Shares i [] h = tt
  IsChunked-Shares i (c ∷ []) h = (tt, tt)
  IsChunked-Shares i (c ∷ d ∷ cs) h = (
    rw
        (
          h.1,
          h.2.1,
          drop-drop i step runes,
          take-take overlap (step + overlap) (drop step (drop i runes)) (omega arith),
        )
        (drop-take step overlap (drop i runes)),
    IsChunked-Shares (i + step) (d ∷ cs) h.2,
  )

  IsChunked-IsSized :
      0 < step
      → (i : ℕ) (cs : List Runes) → IsChunked runes (step + overlap) step i cs
      → All (IsSized (step + overlap)) cs
  IsChunked-IsSized forward i [] h = tt
  IsChunked-IsSized forward i (c ∷ cs) h = (
    rw h.1 (
      omega (arith, h.0, forward, length-take (step + overlap) (drop i runes), length-drop i runes),
      omega (arith, length-take (step + overlap) (drop i runes)),
    ),
    IsChunked-IsSized forward (i + step) cs h.2,
  )

capacity_fits :
    (n chunk_size : ℕ)
    → 0 < chunk_size
    → n + chunk_size < two63
    → capacity_panics n chunk_size ≡ false
unfolding capacity_panics is_neg
capacity_fits n chunk_size pos small =
    rw (add64_exact n chunk_size (omega (arith, small)) (omega (arith, small)) small) (
      rw (sub64_exact (n + chunk_size) 1 (omega (arith, small)) (omega arith) (omega (arith, pos)))
        (ground arith))

split_text-IsChunked :
    (runes : Runes) (chunk_size overlap : ℕ)
    → overlap < chunk_size
    → length runes + chunk_size < two63
    → (cs : List Runes) × (split_text runes chunk_size overlap ≡ ok cs)
      × IsChunked runes chunk_size (chunk_size - overlap) 0 cs
unfolding split_text
split_text-IsChunked runes chunk_size overlap less small =
    let positive = slt_pos chunk_size 1 (omega (arith, small)) (omega arith) in
    let not_negative = slt_pos overlap 0 (omega (arith, less, small)) (omega arith) in
    let below = sle_pos chunk_size overlap (omega (arith, small)) (omega (arith, less, small)) in
    let step =
      sub64_exact chunk_size overlap (omega (arith, small)) (omega (arith, less, small))
        (omega (arith, less)) in
    let loop =
      chunks_from-IsChunked runes chunk_size (chunk_size - overlap) small (omega (arith, less))
        (omega arith) (length runes) 0 (omega (arith, less)) (omega arith) in
    let a = size_ok in
    let b = overlap_ok in
    let c = order_ok in
    elim (Bool-cases (leb (length runes) 0)) [
      | inl empty ↦ ([], rw (positive, a, not_negative, b, below, c, empty), ground arith)
      | inr some_text ↦ (
        loop.0,
        rw
            (
              positive,
              a,
              not_negative,
              b,
              below,
              c,
              some_text,
              capacity_fits (length runes) chunk_size (omega (arith, less)) small,
            )
            (ap (λ next. chunks_from (length runes) runes chunk_size next 0) step ∙ loop.1),
        loop.2,
      )
    ]
  where
    size_ok : ltb chunk_size 1 ≡ false
    size_ok = ground arith

    overlap_ok : ltb overlap 0 ≡ false
    overlap_ok = ground arith

    order_ok : leb chunk_size overlap ≡ false
    order_ok = ground arith

-- For a positive chunk size, an overlap below it and a text whose length and the chunk size together
-- fit an `int`, `SplitText` ends without a panic or an error. Every chunk has a rune at least and the
-- chunk size at most, each one starts with the last `overlap` runes of the one before, as far as it
-- reaches, and the chunks without what the next one repeats are the text.
pub split_text-chunks :
    (runes : Runes) (chunk_size overlap : ℕ)
    → overlap < chunk_size
    → length runes + chunk_size < two63
    → (cs : List Runes) × (split_text runes chunk_size overlap ≡ ok cs)
      × All (IsSized chunk_size) cs
      × Shares (chunk_size - overlap) overlap cs
      × (heads (chunk_size - overlap) cs ≡ runes)
unfolding split_text
split_text-chunks runes chunk_size overlap less small =
    let run = split_text-IsChunked runes chunk_size overlap less small in
    let sum = split_sum in
    let chunked = subst (λ size. IsChunked runes size (chunk_size - overlap) 0 run.0) sum run.2 in
    let sized =
      IsChunked-IsSized runes (chunk_size - overlap) overlap (omega (arith, less)) 0 run.0
        chunked in
    (
      run.0,
      run.1,
      subst (λ size. All (IsSized size) run.0) (sym sum) sized,
      IsChunked-Shares runes (chunk_size - overlap) overlap 0 run.0 chunked,
      IsChunked-heads runes (chunk_size - overlap) overlap 0 run.0 chunked,
    )
  where
    split_sum : chunk_size ≡ chunk_size - overlap + overlap
    split_sum = omega (arith, less)
