-- ===== src/Routing/Tests/Caches.antt =====
-- The theorems of the TTL cache at concrete inputs.
use crime_prevention_and_per.Prelude.{ℕ_eq, ℕ, ◌≡◌, refl, [], ◌∷◌, arith}
use crime_prevention_and_per.OrderedDict.{make_room, lookup, remove, put, IsDistinct}
use crime_prevention_and_per.Routing.TtlCache.{TtlCache, get, set, get_or_create}
use crime_prevention_and_per.Routing.TtlCache.Bounds.{IsValid}
use crime_prevention_and_per.Routing.TtlCache.Flight.{Loop, single_flight}
use crime_prevention_and_per.Routing.TtlCache.Flight

abbrev full : TtlCache ℕ ℕ
full = record {
  maxsize = 2;
  ttl = 60;
  entries = (1, (70, 10)) ∷ (2, (80, 20)) ∷ [];
  inflight = [];
  next_task = 0;
  stats = record { hits = 0; misses = 0; evictions = 0 };
}

full-IsValid : IsValid full
full-IsValid = record {
  positive = omega arith;
  bounded = omega arith;
  distinct = (unfold lookup in refl, (unfold lookup in refl, tt));
}

set_pushes_out_the_oldest : (set full 3 30 25).entries ≡ (2, (80, 20)) ∷ (3, (85, 30)) ∷ []
unfolding set remove put make_room
set_pushes_out_the_oldest = refl

abbrev empty_cache : TtlCache ℕ ℕ
empty_cache = record full { entries = [] }

-- One caller is waiting when another comes.
abbrev one_waiting : Loop ℕ ℕ
one_waiting = record {
  cache = (get_or_create empty_cache 1 5).1;
  running = Flight.began 1 (get_or_create empty_cache 1 5).0 [];
}

single_flight_example :
    IsDistinct one_waiting.running
    × ((get_or_create one_waiting.cache 1 6).0
        ≡ Flight.expected
            (get one_waiting.cache 1 6).0
            (lookup 1 one_waiting.running)
            one_waiting.cache.next_task)
single_flight_example =
    single_flight empty_cache one_waiting 1 6 refl (Flight.next Flight.here (Flight.call 1 5))
