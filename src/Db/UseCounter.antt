-- ===== src/Db/UseCounter.antt =====
-- UseCounter of internal/db/usecounter.go. The mutex makes each access to the map one step, so a run
-- is a sequence of steps: increments by the handlers, and the swap and the updates of the one
-- goroutine that flushes.
use golink_url_shortener.Base.{◌==◌, if◌then◌else◌, ℕ, ◌+◌, Bool, true, false, List, [], ◌∷◌}
use golink_url_shortener.Db.Sql.{Db}
use golink_url_shortener.Db.LinkRepo.{add_uses}

-- map[int64]int64
abbrev pub Counts : Type 0
Counts = List (ℕ × ℕ)

-- counts[id], 0 on a missing key
unfoldable pub pending : ℕ → Counts → ℕ
pending id [] = 0
pending id ((k, n) ∷ cs) = let rest = pending id cs in if k == id then n else rest

-- counts[id]++
unfoldable pub bump : ℕ → Counts → Counts
bump id [] = (id, 1) ∷ []
bump id ((k, n) ∷ cs) = let rest = bump id cs in if k == id then (k, n + 1) ∷ cs else (k, n) ∷ rest

-- The loop over the map that was swapped out. The order of a Go map is any; an error is ignored.
unfoldable pub write_counts : Counts → Db → Db
write_counts [] db = db
write_counts ((id, n) ∷ cs) db = write_counts cs (add_uses n id db).1

-- The goroutine holds in `taken` what it has swapped out and not yet written.
pub record UseCounter : Type 0 where
  pub counts : Counts
  pub taken : Counts
  pub nudged : Bool
  pub closed : Bool
  pub done : Bool

unfoldable pub new_use_counter : UseCounter
new_use_counter = record { counts = []; taken = []; nudged = false; closed = false; done = false }

unfoldable pub increment : ℕ → UseCounter → UseCounter
increment id uc = record uc { counts = bump id uc.counts; nudged = true }

-- Shutdown closes the channel and waits for `done`.
unfoldable pub begin_shutdown : UseCounter → UseCounter
begin_shutdown uc = record uc { closed = true }

-- The first half of flush: the map is swapped for an empty one.
unfoldable pub swap_counts : UseCounter → UseCounter
swap_counts uc = record uc { counts = []; taken = uc.counts; nudged = false }

-- One statement of the loop of flush.
unfoldable pub write_taken : UseCounter → Db → UseCounter × Db
write_taken uc db = elim uc.taken [
  | [] ↦ (uc, db)
  | (id, n) ∷ cs ↦ (record uc { taken = cs }, (add_uses n id db).1)
]
