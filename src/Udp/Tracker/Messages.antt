-- ===== src/Udp/Tracker/Messages.antt =====
-- The texts of the errors that the UDP tracker sends.
use trakx.Common.{[], ◌∷◌}
use trakx.Common.Bytes.{Bytes}

abbrev pub internal_err : Bytes
internal_err =
    b'i' ∷ b'n' ∷ b't' ∷ b'e' ∷ b'r' ∷ b'n' ∷ b'a' ∷ b'l' ∷ b' ' ∷ b'e' ∷ b'r' ∷ b'r' ∷ []

abbrev pub bad_port : Bytes
bad_port = b'b' ∷ b'a' ∷ b'd' ∷ b' ' ∷ b'p' ∷ b'o' ∷ b'r' ∷ b't' ∷ []

abbrev pub too_many : Bytes
too_many =
    b'7' ∷ b'4' ∷ b' ' ∷ b'h' ∷ b'a' ∷ b's' ∷ b'h' ∷ b'e' ∷ b's' ∷ b' ' ∷ b'm' ∷ b'a' ∷ b'x' ∷ []

abbrev pub bad_hash : Bytes
bad_hash = b'b' ∷ b'a' ∷ b'd' ∷ b' ' ∷ b'h' ∷ b'a' ∷ b's' ∷ b'h' ∷ []

abbrev pub bad_action : Bytes
bad_action = b'b' ∷ b'a' ∷ b'd' ∷ b' ' ∷ b'a' ∷ b'c' ∷ b't' ∷ b'i' ∷ b'o' ∷ b'n' ∷ []

abbrev pub bad_connection_id : Bytes
bad_connection_id =
    b'b' ∷ b'a' ∷ b'd' ∷ b' ' ∷ b'c' ∷ b'o' ∷ b'n' ∷ b'n' ∷ b'e' ∷ b'c' ∷ b't' ∷ b'i' ∷ b'o' ∷ b'n'
    ∷ b' ' ∷ b'i' ∷ b'd' ∷ []

abbrev pub bad_announce_size : Bytes
bad_announce_size =
    b'b' ∷ b'a' ∷ b'd' ∷ b' ' ∷ b'a' ∷ b'n' ∷ b'n' ∷ b'o' ∷ b'u' ∷ b'n' ∷ b'c' ∷ b'e' ∷ b' ' ∷ b's'
    ∷ b'i' ∷ b'z' ∷ b'e' ∷ []
