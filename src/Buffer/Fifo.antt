-- ===== src/Buffer/Fifo.antt =====
-- A buffer is a queue of at most as many bytes as its vector holds, oldest first: no sequence of
-- calls tells them apart.
use qhttp.Base.{
  ℕ, ◌-◌, ◌^◌, ◌≡◌, ◌<◌, refl, List, [], ◌∷◌, ◌++◌, min, length, take, drop, ok, ◌>>=◌, IoResult,
}
use qhttp.Buffer.{Buffer, write, read, progress}
use qhttp.Buffer.Contents.{IsValid, contents, capacity}
use qhttp.Buffer.Fill.{write_lem}
use qhttp.Buffer.Drain.{read_lem, progress_lem}

-- What a client asks, and what it is told.
pub data Op : Type 0 where
  put : List ℕ → Op
  get : ℕ → Op
  skip : ℕ → Op

pub data Reply : Type 0 where
  written : ℕ → Reply
  bytes : List ℕ → Reply
  skipped : Reply

abbrev pub step : Buffer → Op → IoResult (Buffer × Reply)
step b (put xs) = write b xs >>= λ r. ok (r.0, written r.1)
step b (get len) = read b len >>= λ r. ok (r.0, bytes r.1)
step b (skip amount) = ok (progress b amount, skipped)

pub run : Buffer → List Op → IoResult (List Reply)
run b [] = ok []
run b (op ∷ ops) = step b op >>= λ r. run r.0 ops >>= λ replies. ok (r.1 ∷ replies)

-- The queue.
abbrev pub queue_step : ℕ → List ℕ → Op → List ℕ × Reply
queue_step cap q (put xs) = let n = min (cap - length q) (length xs) in (q ++ take n xs, written n)
queue_step cap q (get len) = (drop len q, bytes (take len q))
queue_step cap q (skip amount) = (drop amount q, skipped)

pub queue_run : ℕ → List ℕ → List Op → List Reply
queue_run cap q [] = []
queue_run cap q (op ∷ ops) = let (q', reply) = queue_step cap q op in reply ∷ queue_run cap q' ops

-- Amounts to skip are below 2^63, so that no pointer wraps.
abbrev pub Fits : List Op → Type 0
Fits [] = Unit
Fits (put xs ∷ ops) = Fits ops
Fits (get len ∷ ops) = Fits ops
Fits (skip amount ∷ ops) = (amount < 2 ^ 63) × Fits ops

-- No sequence of reads, writes and skips, each skip of less than 2^63 bytes, panics or fails on a
-- valid buffer, and its replies are those of the queue of the unread bytes with the buffer's
-- capacity.
pub run_refines :
    (ops : List Op) {b : Buffer}
    → IsValid b
    → Fits ops
    → run b ops ≡ ok (queue_run (capacity b) (contents b) ops)
unfolding run queue_run
run_refines [] v h = refl
run_refines (put xs ∷ ops) v h =
    let (b', e, v', c, k) = write_lem xs v in rw e (rw (run_refines ops v' h, c, k))
run_refines (get len ∷ ops) v h =
    let (b', e, v', c, k) = read_lem len v in rw e (rw (run_refines ops v' h, c, k))
run_refines (skip amount ∷ ops) v h =
    let (v', c, k) = progress_lem amount v h.0 in rw (run_refines ops v' h.1, c, k)
