-- ===== src/BitChannel/Tests.antt =====
-- Runs of the transmission.
use mipt_informatics.Base.{ℕ, ◌+◌, ◌*◌, ◌≡◌, true, false, List, [], ◌∷◌, length, arith}
use mipt_informatics.Base.Run.{done}
use mipt_informatics.BitChannel.{byte, failed, transmit}
use mipt_informatics.BitChannel.Transmit.{AreBytes, reads, transmit-reads, transmit-failed}

abbrev two_bytes : List ℕ
two_bytes = 165 ∷ 255 ∷ []

two_bytes-AreBytes : AreBytes two_bytes
two_bytes-AreBytes = (omega arith, (omega arith, tt))

transmit-reads_example :
    transmit (8 * length two_bytes + 1) (reads two_bytes [])
    ≡ done (record { output = two_bytes; rcv_errors = false; snd_errors = false })
transmit-reads_example = transmit-reads two_bytes two_bytes-AreBytes

transmit-failed_example :
    transmit (8 * length two_bytes + 1) (reads two_bytes (failed ∷ byte 3 ∷ []))
    ≡ done (record { output = two_bytes; rcv_errors = false; snd_errors = true })
transmit-failed_example = transmit-failed two_bytes (byte 3 ∷ []) two_bytes-AreBytes
