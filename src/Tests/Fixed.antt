-- ===== src/Tests/Fixed.antt =====
-- Examples for hex-net-core/src/fixed.rs.
use hex_net.Common.{ℕ, ◌≡◌, refl, Bool, List, [], ◌∷◌, arith, ltb}
use hex_net.Fixed.Vec.{FixedVec, IsValid}
use hex_net.Fixed.Ring.{RingQueue, push, pop}
use hex_net.Fixed.Ring.Refine.{view, put, take_oldest, push_refines, pop_refines}

abbrev vector : FixedVec ℕ
vector = record { items = 4 ∷ 9 ∷ 6 ∷ 0 ∷ []; len = 3 }

vector-IsValid : IsValid 4 vector
vector-IsValid = record { storage = refl; within = omega arith }

abbrev small : ℕ → Bool
small x = ltb x 7

abbrev two : List ℕ
two = 1 ∷ 2 ∷ []

-- A full queue whose oldest entry stands in the last slot.
abbrev queue : RingQueue ℕ
queue = record { items = 20 ∷ 10 ∷ []; head = 1; len = 2; dropped = 5 }

queue-IsValid : hex_net.Fixed.Ring.IsValid 2 queue
queue-IsValid = record { storage = refl; head_in = omega arith; len_in = omega arith }

push_refines_example :
    hex_net.Fixed.Ring.IsValid 2 (push 2 queue 30)
    × (view 2 0 (push 2 queue 30) ≡ put 2 (view 2 0 queue) 30)
push_refines_example = push_refines 2 0 1 queue 30 refl queue-IsValid

pop_refines_example :
    hex_net.Fixed.Ring.IsValid 2 (pop 2 queue).1
    × ((pop 2 queue).0 ≡ (take_oldest 2 (view 2 0 queue)).0)
    × (view 2 0 (pop 2 queue).1 ≡ (take_oldest 2 (view 2 0 queue)).1)
pop_refines_example = pop_refines 2 0 1 queue refl queue-IsValid
