-- ===== src/Examples/Indices.antt =====
-- Runs of the index table (peony-object/src/model.rs).
use peony.Base.{◌≡◌, refl, [], ◌∷◌, some, arith, ◌==◌, if◌then◌else◌}
use peony.Base.Map.{insert}
use peony.Object.Index.{IndexLookup, dense, sparse, put, position, position-put}

-- An index beyond the vector turns it into a map, which keeps the old entries.
abbrev small_table : IndexLookup
small_table = dense (7 ∷ 8 ∷ [])

put_outside : put small_table 5 9 ≡ sparse ((0, 7) ∷ (1, 8) ∷ (5, 9) ∷ [])
unfolding put peony.Object.Index.collect insert
put_outside = refl

position-put_example :
    position (put small_table 5 9) 1 ≡ (if 5 == 1 then some 9 else position small_table 1)
position-put_example = position-put small_table 5 9 1 (λ e. omega arith)
