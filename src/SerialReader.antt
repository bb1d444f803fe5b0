-- ===== src/SerialReader.antt =====
-- isales_telephony/modem_controller/platforms/windows_serial_at.py: the thread that reads a serial
-- port and hands whole lines to the event loop. What `ser.read` returns is the argument.
pub mod Reassembly
mod Samples
use isales_telephony.Base.{
  ℕ, zero, suc, Bool, Option, none, some, List, [], ◌∷◌, ◌++◌, ◌==◌, if◌then◌else◌, length,
}
use isales_telephony.RingBuffer.{Bytes}

abbrev pub with_byte : ℕ → Option (Bytes × Bytes) → Option (Bytes × Bytes)
with_byte b none = none
with_byte b (some (line, rest)) = some (b ∷ line, rest)

-- `buf.find(b"\n")`, with what stands up to the newline and behind it
unfoldable pub cut_line : Bytes → Option (Bytes × Bytes)
cut_line [] = none
cut_line (b ∷ buf) =
    let later = cut_line buf in if b == 10 then some (b ∷ [], buf) else with_byte b later

abbrev pub emit_line :
    (Bytes → List Bytes → Bytes × List Bytes)
    → Bytes
    → List Bytes
    → Option (Bytes × Bytes)
    → Bytes × List Bytes
emit_line again buf queue none = (buf, queue)
emit_line again buf queue (some (line, rest)) = again rest (queue ++ line ∷ [])

-- the inner loop: every complete line goes to the queue
unfoldable pub emit_lines : ℕ → Bytes → List Bytes → Bytes × List Bytes
emit_lines zero buf queue = (buf, queue)
emit_lines (suc fuel) buf queue = emit_line (emit_lines fuel) buf queue (cut_line buf)

-- one read that returned `chunk`; a timeout returns none of a byte, and changes nothing
unfoldable pub on_chunk : Bytes → Bytes × List Bytes → Bytes × List Bytes
on_chunk chunk (buf, queue) = let more = buf ++ chunk in emit_lines (length more) more queue

-- `_run` on the chunks read until the stop flag is set or `read` raises, then the sentinel
unfoldable pub read_chunks : List Bytes → Bytes × List Bytes → Bytes × List Bytes
read_chunks [] s = s
read_chunks (chunk ∷ chunks) s = read_chunks chunks (on_chunk chunk s)

unfoldable pub run_reader : List Bytes → List Bytes
run_reader chunks = (read_chunks chunks ([], [])).1 ++ [] ∷ []
