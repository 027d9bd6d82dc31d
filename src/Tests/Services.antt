-- ===== src/Tests/Services.antt =====
-- The monitor, the sessions, the business log and the table hash on small inputs.
use game_server.Common.{◌≡◌, ◌≢◌, refl, true, false, none, some, [], ◌∷◌}
use game_server.Monitor.{Monitor}
use game_server.BusiLogger.{
  BusiLogger, null, stdout, day, create, open_file, renew, update_name, busilogger_init, log_all,
  release, release-busilogger_init, stdout-log_all,
}
use game_server.LuaHash.{integer, string, table, done, pair, hashcode}
use game_server.LuaHash.Order.{swap, hashcode-Reordered}

abbrev watched : Monitor
watched = record { version = 4; check_version = 4; source = 8; destination = 9 }

-- a log at the standard output, since its file could not be opened
abbrev fallen_back : BusiLogger
fallen_back = record { handle = stdout; close = 0; log_create_time = 100000 }

release-busilogger_init_example :
    ((log_all day fallen_back ((true, 200000) ∷ [])).handle ≢ null)
    × (release (log_all day fallen_back ((true, 200000) ∷ [])) ≡ none)
unfolding busilogger_init update_name renew open_file create
release-busilogger_init_example =
    release-busilogger_init day 7 (some 3) false 100000 fallen_back ((true, 200000) ∷ []) refl

stdout-log_all_example : (log_all day fallen_back ((true, 200000) ∷ [])).handle ≡ stdout
stdout-log_all_example = stdout-log_all day fallen_back ((true, 200000) ∷ []) refl

hashcode-Reordered_example :
    hashcode (table (pair (integer 1) (string (97 ∷ [])) (pair (integer 2) (integer 3) done)))
    ≡ hashcode (table (pair (integer 2) (integer 3) (pair (integer 1) (string (97 ∷ [])) done)))
hashcode-Reordered_example =
    hashcode-Reordered (swap (integer 1) (string (97 ∷ [])) (integer 2) (integer 3) done)
