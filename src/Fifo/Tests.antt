-- ===== src/Fifo/Tests.antt =====
-- A ring of the standard length with one item, and the empty one.
use tmpi.Fifo.{Fifo, fifo_enqueue, take_item, fifo_dequeue, waits}
use tmpi.Fifo.Refine.{IsFifo, Does, fifo_enqueue-IsFifo, fifo_dequeue-IsFifo}
use tmpi.Base.{ℕ, ◌≡◌, refl, true, false, List, [], ◌∷◌, arith}

abbrev fresh : Fifo
fresh = record { buf_size = 1024; header = 0; tail = 0; queue = λ i. 0 }

abbrev one : Fifo
one = record { buf_size = 1024; header = 1023; tail = 0; queue = λ i. 7 }

fresh-IsFifo : IsFifo fresh []
fresh-IsFifo = record { header_in = omega arith; room = omega arith; tail_at = refl; holds = refl }

one-IsFifo : IsFifo one (7 ∷ [])
one-IsFifo = record { header_in = omega arith; room = omega arith; tail_at = refl; holds = refl }

-- the ring with its last place taken gets its item back at its first
fifo_enqueue-IsFifo_example : Does false (λ r q. IsFifo q (7 ∷ 5 ∷ [])) (fifo_enqueue true one 5)
fifo_enqueue-IsFifo_example = fifo_enqueue-IsFifo one (7 ∷ []) 5 one-IsFifo

fifo_dequeue-IsFifo_example :
    Does false
      (λ r q. (rest : List ℕ) × (7 ∷ [] ≡ r ∷ rest) × IsFifo q rest)
      (fifo_dequeue true one)
fifo_dequeue-IsFifo_example = fifo_dequeue-IsFifo one (7 ∷ []) one-IsFifo

dequeue_waits : fifo_dequeue true fresh ≡ waits
unfolding fifo_dequeue take_item
dequeue_waits = refl
