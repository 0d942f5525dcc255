-- ===== src/Deadman/Daemon/Destroys.antt =====
-- The daemon gets to the destruction once a trigger has fired and nobody stops it.
use tgcryptfs.Deadman.Daemon.{DeadmanConfig, Seen, check_triggers}
use tgcryptfs.Deadman.Daemon.Grace.{is_fired}
use tgcryptfs.Common.{◌≡◌, ◌⊎◌, false}

-- Nothing stops the daemon, and either the switch is not armed or no trigger fires.
abbrev pub IsQuiet : DeadmanConfig → Seen → Type 0
IsQuiet config s =
    (s.stop ≡ false) × ((s.armed_now ≡ false) ⊎ (is_fired (check_triggers config s) ≡ false))
