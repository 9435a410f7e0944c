-- ===== src/SampleLog/Bounded.antt =====
-- The buffer of src/sample_log.rs stays within its limit, and a batch that fails loses nothing.
use rpc_latency_monitor.Prelude.{
  ℕ, zero, suc, ◌+◌, ◌≤◌, ◌<◌, ◌∙◌, String, ◌≡◌, ◌≢◌, refl, Bool, true, false, inl, inr, List, [],
  ◌∷◌, ◌++◌, arith, leb, length, sym, if◌then◌else◌, length-append, length-take, length-drop,
  take-append-drop, take, drop, min, is_empty, Bool-cases,
}
use rpc_latency_monitor.Metrics.{Metrics}
use rpc_latency_monitor.SampleLog.{
  Sample, Flusher, Posted, accepted, rejected, failed, Answers, Wake, received, closed, ticked,
  flush_rows, max_buffered, flush_chunk, put_back, flush, flush_step, flush_loop,
}

split_length : (n : ℕ) (xs : List Sample) → length (take n xs) + length (drop n xs) ≡ length xs
split_length n xs = omega (arith, length-take n xs, length-drop n xs)

abbrev no_rows : List Sample
no_rows = []

drop-nil : (n : ℕ) → drop n no_rows ≡ no_rows
drop-nil zero = refl
drop-nil (suc n) = refl

drop-min : (n : ℕ) (xs : List Sample) → drop (min (length xs) n) xs ≡ drop n xs
drop-min n [] = drop-nil (min (length no_rows) n) ∙ sym (drop-nil n)
drop-min zero (x ∷ xs) = let none_left : min (length (x ∷ xs)) 0 ≡ 0 = omega arith in rw none_left
drop-min (suc n) (x ∷ xs) =
    let one_more : min (suc (length xs)) (suc n) ≡ suc (min (length xs) n) = omega arith in
    rw one_more (drop-min n xs)

-- The rows that are sent and the rows that stay.
whole :
    (f : Flusher)
    → take (min (length f.buffer) flush_rows) f.buffer
        ++ drop (min (length f.buffer) flush_rows) f.buffer
      ≡ f.buffer
whole f = take-append-drop (min (length f.buffer) flush_rows) f.buffer

module _ (outcome : String) (rows rest : List Sample) (metrics : Metrics) where
  put_back-room :
      length rows + length rest ≤ max_buffered
      → (put_back outcome rows rest metrics).1.buffer ≡ rows ++ rest
  put_back-room h = ground arith

  put_back-full :
      max_buffered < length rows + length rest
      → (put_back outcome rows rest metrics).1.buffer ≡ rest
  put_back-full h = ground arith

abbrev Refused : Posted → String → Flusher → Type 0
Refused posted outcome f =
    let n = min (length f.buffer) flush_rows in
    let after = (put_back outcome (take n f.buffer) (drop n f.buffer) f.metrics).1.buffer in
    (posted ≡ accepted → after ≡ drop flush_rows f.buffer)
    × (posted ≢ accepted → length f.buffer ≤ max_buffered → after ≡ f.buffer)
    × (posted ≢ accepted → max_buffered < length f.buffer → after ≡ drop flush_rows f.buffer)

Refused-buffer :
    (posted : Posted) (outcome : String) (f : Flusher)
    → posted ≢ accepted
    → Refused posted outcome f
Refused-buffer posted outcome f ne =
    let n = min (length f.buffer) flush_rows in
    let both = split_length n f.buffer in
    (
      (λ e. absurd (ne e)),
      (λ _ h.
          put_back-room outcome (take n f.buffer) (drop n f.buffer) f.metrics (omega arith)
          ∙ whole f),
      (λ _ h.
          put_back-full outcome (take n f.buffer) (drop n f.buffer) f.metrics (omega arith)
          ∙ drop-min flush_rows f.buffer),
    )

-- A batch that is refused or not sent leaves the buffer exactly as it was, if it has 10,000 rows at
-- most; otherwise its first 500 rows are dropped, and the others keep their order. A batch that is
-- accepted takes those rows out.
pub flush_chunk-buffer :
    (f : Flusher) (posted : Posted)
    → (posted ≡ accepted → (flush_chunk posted f).1.buffer ≡ drop flush_rows f.buffer)
      × (posted ≢ accepted
          → length f.buffer ≤ max_buffered
          → (flush_chunk posted f).1.buffer ≡ f.buffer)
      × (posted ≢ accepted
          → max_buffered < length f.buffer
          → (flush_chunk posted f).1.buffer ≡ drop flush_rows f.buffer)
unfolding flush_chunk
flush_chunk-buffer f accepted =
    ((λ _. drop-min flush_rows f.buffer), (λ ne h. absurd (ne refl)), λ ne h. absurd (ne refl))
flush_chunk-buffer f rejected = Refused-buffer rejected "rejected" f (λ e. cc)
flush_chunk-buffer f failed = Refused-buffer failed "failed" f (λ e. cc)

refused-le :
    (outcome : String) (f : Flusher)
    → length f.buffer ≤ suc max_buffered
    → length
        (put_back outcome
          (take (min (length f.buffer) flush_rows) f.buffer)
          (drop (min (length f.buffer) flush_rows) f.buffer)
          f.metrics).1.buffer
      ≤ max_buffered
refused-le outcome f h =
    let n = min (length f.buffer) flush_rows in
    let rows = take n f.buffer in
    let rest = drop n f.buffer in
    elim (Bool-cases (leb (length rows + length rest) max_buffered)) [
      | inl room ↦ rw room (ground (arith, length-append rows rest))
      | inr full ↦ rw full (omega (arith, length-drop n f.buffer))
    ]

-- One batch brings a buffer that is one row too long back within the limit.
chunk-le :
    (f : Flusher) (a : Posted)
    → length f.buffer ≤ suc max_buffered
    → length (flush_chunk a f).1.buffer ≤ max_buffered
unfolding flush_chunk
chunk-le f accepted h = omega (arith, length-drop (min (length f.buffer) flush_rows) f.buffer)
chunk-le f rejected h = refused-le "rejected" f h
chunk-le f failed h = refused-le "failed" f h

flush-le :
    (fuel : ℕ) (answers : Answers) (f : Flusher) (n : ℕ)
    → length f.buffer ≤ max_buffered
    → length (flush fuel answers (f, n)).0.buffer ≤ max_buffered
unfolding flush
flush-le zero answers f n h = h
flush-le (suc fuel) answers f n h = elim (Bool-cases (is_empty f.buffer)) [
  | inl done ↦ rw done h
  | inr more ↦
      let below = chunk-le f (answers n) (omega arith) in
      elim (Bool-cases (flush_chunk (answers n) f).0) [
        | inl sent ↦
            rw (more, sent) (flush-le fuel answers (flush_chunk (answers n) f).1 (suc n) below)
        | inr kept ↦ rw (more, kept) below
      ]
]

-- The first round of a flush mends a buffer that is one row too long.
flush_mends :
    (fuel : ℕ) (answers : Answers) (f : Flusher) (n : ℕ)
    → length f.buffer ≤ suc max_buffered
    → length (flush (suc fuel) answers (f, n)).0.buffer ≤ max_buffered
unfolding flush
flush_mends fuel answers f n h = elim (Bool-cases (is_empty f.buffer)) [
  | inl done ↦ rw done (ground arith)
  | inr more ↦
      let below = chunk-le f (answers n) h in
      elim (Bool-cases (flush_chunk (answers n) f).0) [
        | inl sent ↦
            rw (more, sent) (flush-le fuel answers (flush_chunk (answers n) f).1 (suc n) below)
        | inr kept ↦ rw (more, kept) below
      ]
]

either_way : {A : Type 0} (P : A → Type 0) (b : Bool) {x y : A} → P x → P y → P (if b then x else y)
either_way P true p q = p
either_way P false p q = q

step-le :
    (answers : Answers) (w : Wake) (f : Flusher) (n : ℕ)
    → length f.buffer ≤ max_buffered
    → length (flush_step answers w (f, n)).0.buffer ≤ max_buffered
unfolding flush_step
step-le answers (received sample) f n h =
    let longer : length (f.buffer ++ sample ∷ []) ≡ length f.buffer + 1 =
      length-append f.buffer (sample ∷ []) in
    elim (Bool-cases (leb flush_rows (length (f.buffer ++ sample ∷ [])))) [
      | inl many ↦ rw many (
          flush_mends (length (f.buffer ++ sample ∷ [])) answers
            (record f { buffer = f.buffer ++ sample ∷ [] }) n (omega arith))
      | inr few ↦ rw few (ground arith)
    ]
step-le answers closed f n h = flush-le (suc (length f.buffer)) answers f n h
step-le answers ticked f n h =
    either_way (λ (s : Flusher × ℕ). length s.0.buffer ≤ max_buffered) (is_empty f.buffer) h
      (flush-le (suc (length f.buffer)) answers f n h)

-- Whatever rows come in and whatever the answers to the batches are, a buffer that starts within 10,000
-- rows is within 10,000 rows whenever the loop waits again, and when it ends.
pub flush_loop-le :
    (answers : Answers) (ws : List Wake) (f : Flusher) (n : ℕ)
    → length f.buffer ≤ 10000
    → length (flush_loop answers ws (f, n)).0.buffer ≤ 10000
unfolding flush_loop
flush_loop-le answers [] f n h = h
flush_loop-le answers (closed ∷ ws) f n h = step-le answers closed f n h
flush_loop-le answers (received sample ∷ ws) f n h =
    let s = flush_step answers (received sample) (f, n) in
    flush_loop-le answers ws s.0 s.1 (step-le answers (received sample) f n h)
flush_loop-le answers (ticked ∷ ws) f n h =
    let s = flush_step answers ticked (f, n) in
    flush_loop-le answers ws s.0 s.1 (step-le answers ticked f n h)
