-- ===== src/Terminal/Exec/Drain.antt =====
-- crates/zyris-capkit/src/terminal/mod.rs: what is kept of a pipe that is read to its end.
use zyris_protocol.Prelude.{
  ℕ, ◌-◌, min, ◌≡◌, sym, ap, ◌∙◌, true, false, List, [], ◌∷◌, ◌++◌, arith, ltb, if◌then◌else◌,
  Bytes, length, length-append, take, length-take, take-append, take_all, take_cong, take-min,
  if-cases,
}
use zyris_protocol.Terminal.Exec.{OutputAcc, no_output, drain_capped}
use mathlib.Core.List.{append-nil, append_assoc}

abbrev pub all_of : List Bytes → Bytes
all_of [] = []
all_of (chunk ∷ reads) = chunk ++ all_of reads

-- What is kept when `seen` was read.
unfoldable kept : ℕ → Bytes → OutputAcc
kept cap seen = record { buf = take cap seen; truncated = ltb cap (length seen) }

drained :
    (cap : ℕ) (reads : List Bytes) (seen : Bytes)
    → drain_capped cap reads (kept cap seen) ≡ kept cap (seen ++ all_of reads)
unfolding drain_capped kept
drained cap [] seen = ap (kept cap) (sym (append-nil seen))
drained cap (chunk ∷ reads) seen =
    ap (drain_capped cap reads) (one_read cap seen chunk)
    ∙ drained cap reads (seen ++ chunk)
    ∙ ap (kept cap) (append_assoc seen chunk (all_of reads))
  where
    one_buf :
        (cap : ℕ) (seen chunk : Bytes)
        → (if ltb 0 (cap - length (take cap seen))
            then take cap seen ++ take (min (cap - length (take cap seen)) (length chunk)) chunk
            else take cap seen)
          ≡ take cap (seen ++ chunk)
    one_buf cap seen chunk =
        if-cases (λ t. t ≡ take cap (seen ++ chunk)) (ltb 0 (cap - length (take cap seen)))
          (λ room.
            ap (λ t. take cap seen ++ t)
              (take_cong chunk (omega (arith, length-take cap seen))
                ∙ take-min (cap - length seen) chunk)
            ∙ sym (take-append cap seen chunk))
          (λ full.
            sym (append-nil (take cap seen))
            ∙ ap (λ t. take cap seen ++ t)
                (sym (take_cong {m = 0} chunk (ground (arith, length-take cap seen, full))))
            ∙ sym (take-append cap seen chunk))

    one_flag :
        (cap : ℕ) (seen chunk : Bytes)
        → (if ltb (cap - length (take cap seen)) (length chunk)
            then true
            else ltb cap (length seen))
          ≡ ltb cap (length (seen ++ chunk))
    one_flag cap seen chunk = ground (arith, length-take cap seen, length-append seen chunk)

    one_read :
        (cap : ℕ) (seen chunk : Bytes)
        → record {
          buf =
              if ltb 0 (cap - length (take cap seen))
              then take cap seen ++ take (min (cap - length (take cap seen)) (length chunk)) chunk
              else take cap seen;
          truncated =
              if ltb (cap - length (take cap seen)) (length chunk)
              then true
              else ltb cap (length seen);
        }
          ≡ kept cap (seen ++ chunk)
    one_read cap seen chunk i = record {
      buf = one_buf cap seen chunk i;
      truncated = one_flag cap seen chunk i;
    }

-- A pipe that is read to its end gives its first `cap` bytes, and says whether there were more.
pub drain_capped_lem :
    (cap : ℕ) (reads : List Bytes)
    → drain_capped cap reads no_output
      ≡ record { buf = take cap (all_of reads); truncated = ltb cap (length (all_of reads)) }
unfolding kept
drain_capped_lem cap reads = ap (drain_capped cap reads) (none_yet cap) ∙ drained cap reads []
  where
    nowhere : (cap : ℕ) → ltb cap 0 ≡ false
    nowhere cap = ground arith

    none_yet : (cap : ℕ) → no_output ≡ kept cap []
    none_yet cap i = record {
      buf = sym (take_all {A = ℕ} cap [] (omega arith)) i;
      truncated = sym (nowhere cap) i;
    }
