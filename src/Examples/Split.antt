-- ===== src/Examples/Split.antt =====
-- A round of split of a bucket whose entry moves to the new bucket.
use recovery_stencil.Prelude.{[], ◌∷◌, some, ◌≡◌, refl, arith}
use recovery_stencil.Hash.Table.{HashTable, Divided, divide}
use recovery_stencil.Hash.Table.Divide.{IsDivision, divide_lem}
use recovery_stencil.Examples.{five_seven, blank_page, one_entry, one_entry-Holds, constant_hash}

-- the bucket is on page 1, for the odd hashes
abbrev two_places : HashTable
two_places = record { global_depth = 1; buckets = 0 ∷ 1 ∷ [] }

divide_lem_example :
    (d : Divided constant_hash 100) × (divide constant_hash 100 two_places
        (blank_page ∷ one_entry.page ∷ [])
        blank_page
        []
        one_entry
        1
        0
      ≡ some d)
    × IsDivision constant_hash 100 two_places
        (blank_page ∷ one_entry.page ∷ [])
        one_entry
        1
        2
        (five_seven ∷ [])
        d
divide_lem_example =
    divide_lem constant_hash 100 two_places (blank_page ∷ one_entry.page ∷ []) blank_page []
      one_entry 1 0 (five_seven ∷ []) one_entry-Holds refl (omega arith) (λ b. omega arith)
      (omega arith) (omega arith) refl
