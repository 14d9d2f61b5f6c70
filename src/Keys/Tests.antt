-- ===== src/Keys/Tests.antt =====
-- Witnesses for the theorems on signing keys.
use accelerator_pack_auth_se.Prelude.{◌≤◌, String, [], ◌∷◌, arith, select, length}
use accelerator_pack_auth_se.Samples.{now, db, fresh_key}
use accelerator_pack_auth_se.Keys.{Keys, has_kid}
use accelerator_pack_auth_se.Keys.Rotation.{rotate, IsValid, run, run-IsValid}

abbrev keys : Keys
keys = db.signing_keys

one_key : (kid : String) → length (select (has_kid kid) keys.rows) ≤ 1
unfolding select
one_key kid = ground arith

keys-IsValid : IsValid keys
unfolding select
keys-IsValid = record { unique = one_key; single = omega arith }

run-IsValid_example : IsValid (run keys (rotate fresh_key now ∷ []))
run-IsValid_example = run-IsValid keys (rotate fresh_key now ∷ []) keys-IsValid
