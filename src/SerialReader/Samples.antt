-- ===== src/SerialReader/Samples.antt =====
-- Lines that arrive in pieces.
use isales_telephony.Base.{◌≡◌, refl, List, [], ◌∷◌, codes, join}
use isales_telephony.RingBuffer.{Bytes}
use isales_telephony.SerialReader.{run_reader, read_chunks, on_chunk, emit_lines, cut_line}
use isales_telephony.SerialReader.Reassembly.{IsSplit, read_chunks-IsSplit}

abbrev chunks : List Bytes
chunks = codes "O" ∷ codes "K\nRI" ∷ [] ∷ codes "NG\n\nhalf" ∷ []

reader_runs : run_reader chunks ≡ codes "OK\n" ∷ codes "RING\n" ∷ codes "\n" ∷ [] ∷ []
unfolding run_reader read_chunks on_chunk emit_lines cut_line
reader_runs = refl

nothing-IsSplit : IsSplit [] ([], [])
nothing-IsSplit = record { bytes_kept = refl; lines = tt; rest = refl }

read_chunks-IsSplit_example : IsSplit (join chunks) (read_chunks chunks ([], []))
read_chunks-IsSplit_example = read_chunks-IsSplit chunks [] ([], []) nothing-IsSplit
