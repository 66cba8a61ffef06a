-- ===== src/Examples/Pipes.antt =====
-- Pipe links at concrete inputs: src/link_impls/pipe_link.rs.
use link_set.Prelude.{ℕ, List, [], ◌∷◌, Option, none, some, ◌≡◌, refl, leb, if◌then◌else◌, arith}
use link_set.Pipe.Hub.{PipeLinkBuilder, PipeLinkHub, Drawn, listen, new_with_size, new_link}
use link_set.Pipe.Connecting.{answers, arrivals, connect_all, listening, connect_all-listen}

abbrev percent : ℕ → Option ℕ
percent p = if leb p 100 then some p else none

abbrev half : PipeLinkBuilder ℕ
half = record { max_size = 64; reliability = 50; expiration = none; latency = some 5 }

abbrev hub : PipeLinkHub ℕ ℕ
hub = new_with_size half 1

abbrev two_draws : List Drawn
two_draws =
    record { now1 = 10; now2 = 11; id1 = 3; id2 = 4 }
    ∷ record { now1 = 20; now2 = 21; id1 = 5; id2 = 6 }
    ∷ []

-- The channel has room for one link: the second to connect gets none.
second_refused : answers {D = ℕ} half 50 1 two_draws ≡ some (new_link half 50 10 3) ∷ none ∷ []
second_refused = refl

first_waits : arrivals {D = ℕ} half 50 1 two_draws ≡ new_link half 50 11 4 ∷ []
first_waits = refl

connect_all-listen_example :
    (listen (104 ∷ []) hub ≡ some (listening (104 ∷ []) 1 [] hub))
    × (connect_all percent (104 ∷ []) two_draws (listening (104 ∷ []) 1 [] hub)
        ≡ some (
          answers half 50 1 two_draws,
          listening (104 ∷ []) 1 (arrivals half 50 1 two_draws) hub,
        ))
unfolding new_with_size
connect_all-listen_example =
    connect_all-listen percent (104 ∷ []) 50 hub two_draws refl (omega arith)
