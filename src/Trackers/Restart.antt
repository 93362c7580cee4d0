-- ===== src/Trackers/Restart.antt =====
-- A tracker that is stopped or told to save, and the one that starts next.
use trakx.Common.{Bool, true, false}
use trakx.Trackers.Signals.{Signal, interrupt, sigterm, sigusr1, other_signal}

-- The signals that save.
abbrev pub saves : Signal → Bool
saves interrupt = true
saves sigterm = true
saves sigusr1 = true
saves other_signal = false
