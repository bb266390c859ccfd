-- ===== src/Target/Tests.antt =====
-- util.c, `valid_hash`: a run, and the theorem at it.
use soj_civic_light.Prelude.{◌≤◌, ◌≡◌, ◌↔◌, refl, true, arith}
use soj_civic_light.Target.{Hash, valid_hash, valid_hash_128, value, valid_hash_iff}

abbrev hash : Hash
hash = record { w0 = 9; w1 = 4; w2 = 7; w3 = 1 }

abbrev target : Hash
target = record { w0 = 3; w1 = 5; w2 = 7; w3 = 1 }

hash_valid : valid_hash hash target ≡ true
unfolding valid_hash
hash_valid = refl

valid_hash_iff_example :
    ((valid_hash hash target ≡ true) ↔ (value hash ≤ value target))
    × ((valid_hash_128 hash target ≡ true) ↔ (value hash ≤ value target))
valid_hash_iff_example = valid_hash_iff hash target (omega arith) (omega arith)
