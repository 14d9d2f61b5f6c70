-- ===== src/Sessions/Tests.antt =====
-- Witnesses for the theorems on refresh tokens.
use accelerator_pack_auth_se.Prelude.{String, arith, select}
use accelerator_pack_auth_se.Samples.{db}
use accelerator_pack_auth_se.Sessions.{Sessions}
use accelerator_pack_auth_se.Sessions.Limit.{IsBounded}

abbrev sessions : Sessions
sessions = db.refresh_tokens

abbrev same : String → String
same s = s

bounded : IsBounded 1 sessions
unfolding select
bounded user_id = ground arith
