-- ===== src/SerialReader/Reassembly.antt =====
-- The lines that the reader thread of windows_serial_at.py makes of the chunks it reads.
use isales_telephony.Base.{
  All-snoc, ℕ, zero, suc, ◌≤◌, ◌<◌, ◌≡◌, refl, sym, ap, ◌∙◌, Bool, false, Option, none, some, List,
  [], ◌∷◌, ◌++◌, ◌==◌, arith, length, join, All, Bool-cases, inl, inr, some_of, append_assoc,
  append-nil,
}
use isales_telephony.RingBuffer.{Bytes}
use isales_telephony.SerialReader.{
  cut_line, with_byte, emit_line, emit_lines, on_chunk, read_chunks,
}

abbrev has_newline : Bytes → Bool
has_newline buf = some_of (λ b. b == 10) buf

-- Some bytes without a newline, and then one.
abbrev IsLine : Bytes → Type 0
IsLine line = (before : Bytes) × (line ≡ before ++ 10 ∷ []) × (has_newline before ≡ false)

-- The lines and what is left are the input, and what is left has no newline.
pub record IsSplit (input : Bytes) (s : Bytes × List Bytes) : Type 0 where
  pub bytes_kept : join s.1 ++ s.0 ≡ input
  pub lines : All IsLine s.1
  pub rest : has_newline s.0 ≡ false

-- What `cut_line` finds in a buffer.
Cut : Bytes → Option (Bytes × Bytes) → Type 0
Cut buf none = has_newline buf ≡ false
Cut buf (some (line, rest)) = (line ++ rest ≡ buf) × IsLine line × (length rest < length buf)

cut_line-Cut : (buf : Bytes) → Cut buf (cut_line buf)
unfolding Cut cut_line
cut_line-Cut [] = refl
cut_line-Cut (b ∷ buf) = elim (Bool-cases (b == 10)) [
  | inl o ↦
      let ten : b ≡ 10 = ground (arith, o) in
      rw o (refl, ([], ap (λ x. x ∷ []) ten, refl), omega arith)
  | inr o ↦ rw o (later o (cut_line buf) (cut_line-Cut buf))
]
  where
    later :
        (b == 10) ≡ false → (o : Option (Bytes × Bytes)) → Cut buf o → Cut (b ∷ buf) (with_byte b o)
    later q none c = rw q c
    later q (some (line, rest)) (e, (before, f, g), lt) =
        (ap (λ l. b ∷ l) e, (b ∷ before, ap (λ l. b ∷ l) f, rw q g), omega arith)

join_snoc : (lines : List Bytes) (line : Bytes) → join (lines ++ line ∷ []) ≡ join lines ++ line
join_snoc [] line = append-nil line
join_snoc (l ∷ lines) line =
    ap (λ x. l ++ x) (join_snoc lines line) ∙ sym (append_assoc l (join lines) line)

-- one turn, where the next ones split what they are given
emit_line-IsSplit :
    (again : Bytes → List Bytes → Bytes × List Bytes) (buf : Bytes) (queue : List Bytes)
    → All IsLine queue
    → ((rest line : Bytes)
        → length rest < length buf
        → IsLine line
        → IsSplit (join (queue ++ line ∷ []) ++ rest) (again rest (queue ++ line ∷ [])))
    → (o : Option (Bytes × Bytes)) → Cut buf o
    → IsSplit (join queue ++ buf) (emit_line again buf queue o)
unfolding Cut
emit_line-IsSplit again buf queue h ih none c = record { bytes_kept = refl; lines = h; rest = c }
emit_line-IsSplit again buf queue h ih (some (line, rest)) (e, l, lt) =
    let same : join (queue ++ line ∷ []) ++ rest ≡ join queue ++ buf =
      ap (λ x. x ++ rest) (join_snoc queue line)
      ∙ append_assoc (join queue) line rest
      ∙ ap (λ x. join queue ++ x) e in
    rw (← same) (ih rest line lt l)

emit_lines-IsSplit :
    (fuel : ℕ) (buf : Bytes) (queue : List Bytes)
    → length buf ≤ fuel
    → All IsLine queue
    → IsSplit (join queue ++ buf) (emit_lines fuel buf queue)
unfolding emit_lines
emit_lines-IsSplit zero [] queue le h = record { bytes_kept = refl; lines = h; rest = refl }
emit_lines-IsSplit zero (b ∷ buf) queue le h = absurd (omega arith)
emit_lines-IsSplit (suc fuel) buf queue le h =
    emit_line-IsSplit (emit_lines fuel) buf queue h
      (λ rest line lt l.
        emit_lines-IsSplit fuel rest (queue ++ line ∷ []) (omega arith)
          (All-snoc IsLine queue line h l))
      (cut_line buf) (cut_line-Cut buf)

on_chunk-IsSplit :
    (chunk input : Bytes) (s : Bytes × List Bytes)
    → IsSplit input s
    → IsSplit (input ++ chunk) (on_chunk chunk s)
unfolding on_chunk
on_chunk-IsSplit chunk input (buf, queue) h =
    rw (← h.bytes_kept, append_assoc)
      (emit_lines-IsSplit (length (buf ++ chunk)) (buf ++ chunk) queue (omega arith) h.lines)

-- However the bytes of the port are cut into reads: the lines handed over, with what is held back,
-- are the bytes read, in order and once; each line ends with its only newline; and nothing that is
-- held back has one.
pub read_chunks-IsSplit :
    (chunks : List Bytes) (input : Bytes) (s : Bytes × List Bytes)
    → IsSplit input s
    → IsSplit (input ++ join chunks) (read_chunks chunks s)
unfolding read_chunks
read_chunks-IsSplit [] input s h = rw append-nil h
read_chunks-IsSplit (chunk ∷ chunks) input s h = rw (← append_assoc) (
    read_chunks-IsSplit chunks (input ++ chunk) (on_chunk chunk s)
      (on_chunk-IsSplit chunk input s h))
