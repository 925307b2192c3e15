-- ===== src/Dict.antt =====
-- Go maps with string keys, as association lists. A map is iterated in the order of its list: the
-- language leaves the order open, and the theorems range over all lists.
use gude_agents.Prelude.{
  String, ◌≡◌, refl, Option, none, some, List, [], ◌∷◌, arith, ◌==◌, eq_iff, if◌then◌else◌,
}

abbrev pub Dict {ℓ} : Type ℓ → Type ℓ
Dict V = List (String × V)

module _ {ℓ} {V : Type ℓ} where
  -- m[k]
  unfoldable pub lookup : String → Dict V → Option V
  lookup k [] = none
  lookup k ((j, v) ∷ m) = if j == k then some v else lookup k m

  -- m[k] = v
  unfoldable pub insert : String → V → Dict V → Dict V
  insert key new [] = (key, new) ∷ []
  insert key new (entry ∷ entries) =
      let rest = insert key new entries in
      if entry.0 == key then (entry.0, new) ∷ entries else entry ∷ rest

  -- delete(m, k)
  unfoldable pub erase : String → Dict V → Dict V
  erase k [] = []
  erase k ((j, v) ∷ m) = let rest = erase k m in if j == k then rest else (j, v) ∷ rest

  -- A read behind a write: the written value at its key, the old one elsewhere.
  pub lookup-insert :
      (written : String) (read : String) (value : V) (entries : Dict V)
      → lookup read (insert written value entries)
        ≡ (if written == read then some value else lookup read entries)
  unfolding lookup insert
  lookup-insert written read value [] = refl
  lookup-insert written read value ((first, old) ∷ entries) =
      let behind = lookup-insert written read value entries in
      ground (behind, arith, eq_iff first written, eq_iff first read, eq_iff written read)

  pub lookup-erase :
      (k j : String) (m : Dict V) → lookup j (erase k m) ≡ (if k == j then none else lookup j m)
  unfolding lookup erase
  lookup-erase k j [] = ground arith
  lookup-erase k j ((i, w) ∷ m) =
      ground (arith, eq_iff k j, eq_iff i k, eq_iff i j, lookup-erase k j m)

pub ruleset dict_laws = (lookup-insert, lookup-erase)
