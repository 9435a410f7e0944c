-- ===== src/SampleLog/Drained.antt =====
-- The fuel of `flush` is enough: src/sample_log.rs.
use rpc_latency_monitor.Prelude.{
  ℕ, zero, suc, ◌<◌, ◌≡◌, refl, true, false, inl, inr, List, [], ◌∷◌, arith, length, length-drop,
  min, is_empty, Bool-cases,
}
use rpc_latency_monitor.SampleLog.{
  Sample, Flusher, accepted, Answers, flush_rows, flush_chunk, flush, flush_all,
}

nothing_left : (xs : List Sample) → is_empty xs ≡ true → xs ≡ []
nothing_left [] h = refl
nothing_left (x ∷ xs) h = cc

some_left : (xs : List Sample) → is_empty xs ≡ false → 0 < length xs
some_left [] h = cc
some_left (x ∷ xs) h = omega arith

-- A batch that is accepted shortens the buffer.
shorter :
    (f : Flusher) → 0 < length f.buffer → length (flush_chunk accepted f).1.buffer < length f.buffer
unfolding flush_chunk
shorter f h = omega (arith, length-drop (min (length f.buffer) flush_rows) f.buffer)

drains :
    (fuel : ℕ) (answers : Answers) (f : Flusher) (n : ℕ)
    → ((k : ℕ) → answers k ≡ accepted)
    → length f.buffer < fuel
    → (flush fuel answers (f, n)).0.buffer ≡ []
unfolding flush
drains zero answers f n ok h = elim h [ ]
drains (suc fuel) answers f n ok h = elim (Bool-cases (is_empty f.buffer)) [
  | inl done ↦ rw done (nothing_left f.buffer done)
  | inr more ↦
      rw (more, ok n)
        (drains fuel answers (flush_chunk accepted f).1 (suc n) ok
          (let less = shorter f (some_left f.buffer more) in omega arith))
]

-- When every batch is accepted, one flush empties the buffer, whatever its length: its loop ends.
pub flush_all-drains :
    (answers : Answers) (f : Flusher) (n : ℕ)
    → ((k : ℕ) → answers k ≡ accepted)
    → (flush_all answers (f, n)).0.buffer ≡ []
flush_all-drains answers f n ok = drains (suc (length f.buffer)) answers f n ok (omega arith)
