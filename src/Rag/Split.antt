-- ===== src/Rag/Split.antt =====
-- `SplitText` of agent/rag/rag.go, on a text as its list of runes. The loop runs on fuel, one unit for
-- each round and one to leave; a slice whose end lies before its start is a panic of the program.
pub mod Chunks
use gude_agents.Prelude.{
  ℕ, zero, suc, ◌+◌, ◌-◌, List, [], ◌∷◌, Result, ok, err, length, take, drop, ltb, leb, Bool, ◌&&◌,
  if◌then◌else◌,
}
use gude_agents.Words.{Int64, two64, add64, sub64, is_neg, slt, sle}

abbrev pub Runes : Type 0
Runes = List ℕ

pub data SplitError : Type 0 where
  bad_chunk_size bad_overlap overlap_too_large panicked out_of_fuel : SplitError

-- `runes[i:end]`, for bounds within the slice.
abbrev pub slice : Runes → ℕ → ℕ → Runes
slice runes i end = take (end - i) (drop i runes)

-- `end` after its correction.
abbrev pub chunk_end : ℕ → Int64 → Int64 → Int64
chunk_end n chunk_size i = let end = add64 i chunk_size in if slt n end then n else end

unfoldable pub chunks_from : ℕ → Runes → Int64 → Int64 → Int64 → Result SplitError (List Runes)
chunks_from zero runes chunk_size step i = if slt i (length runes) then err out_of_fuel else ok []
chunks_from (suc fuel) runes chunk_size step i =
    let rest = chunks_from fuel runes chunk_size step (add64 i step) in
    let end = chunk_end (length runes) chunk_size i in
    if slt i (length runes)
    then (if slt end i
        then err panicked
        else elim rest [ err e ↦ err e | ok chunks ↦ ok (slice runes i end ∷ chunks) ])
    else ok []

-- `make([]string, 0, (n+chunkSize-1)/chunkSize)` panics: the quotient, rounded to zero, is negative.
unfoldable pub capacity_panics : ℕ → Int64 → Bool
capacity_panics n chunk_size =
    let sum = sub64 (add64 n chunk_size) 1 in is_neg sum && leb chunk_size (two64 - sum)

unfoldable pub split_text : Runes → Int64 → Int64 → Result SplitError (List Runes)
split_text runes chunk_size overlap =
    if slt chunk_size 1
    then err bad_chunk_size
    else if slt overlap 0
    then err bad_overlap
    else if sle chunk_size overlap
    then err overlap_too_large
    else if leb (length runes) 0
    then ok []
    else if capacity_panics (length runes) chunk_size
    then err panicked
    else chunks_from (length runes) runes chunk_size (sub64 chunk_size overlap) 0
