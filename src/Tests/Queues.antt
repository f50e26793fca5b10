-- ===== src/Tests/Queues.antt =====
-- The queue at concrete inputs: four slots, of which three can be filled.
use ec_systemcore.Base.{ℕ, ◌+◌, ◌<◌, ◌≡◌, refl, ◌⊎◌, [], ◌∷◌, ◌++◌, none, some, arith, length}
use ec_systemcore.Daemon.SpscQueue.{SpscQueue, try_pop, try_push}
use ec_systemcore.Daemon.SpscQueue.Fifo.{IsQueue, contents, try_push-appends, try_pop-uncons}

-- Two elements, in the last slot and in the first.
abbrev around_the_end : SpscQueue ℕ
around_the_end = record { values = 8 ∷ 0 ∷ 0 ∷ 7 ∷ []; read = 3; write = 1 }

around_the_end-IsQueue : IsQueue 0 4 around_the_end
around_the_end-IsQueue = record {
  read_fits = omega arith;
  write_fits = omega arith;
  size_is = refl;
}

try_push-appends_example :
    ((try_push 4 around_the_end 9 ≡ none) × (length (contents 0 4 around_the_end) + 1 ≡ 4))
    ⊎ ((q' : SpscQueue ℕ) × (try_push 4 around_the_end 9 ≡ some q')
        × (length (contents 0 4 around_the_end) + 1 < 4)
        × IsQueue 0 4 q'
        × (contents 0 4 q' ≡ contents 0 4 around_the_end ++ (9 ∷ [])))
try_push-appends_example =
    try_push-appends 0 4 around_the_end 9 (omega arith) around_the_end-IsQueue

try_pop-uncons_example :
    ((try_pop 0 4 around_the_end ≡ none) × (contents 0 4 around_the_end ≡ []))
    ⊎ ((value : ℕ) × (q' : SpscQueue ℕ) × (try_pop 0 4 around_the_end ≡ some (value, q'))
        × IsQueue 0 4 q'
        × (contents 0 4 around_the_end ≡ value ∷ contents 0 4 q'))
try_pop-uncons_example = try_pop-uncons 0 4 around_the_end around_the_end-IsQueue
