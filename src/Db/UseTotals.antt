-- ===== src/Db/UseTotals.antt =====
-- No use is lost or counted twice by internal/db/usecounter.go, in whatever order the handlers'
-- increments and the flushes are interleaved.
use golink_url_shortener.Base.{
  ◌==◌, if◌then◌else◌, ==_iff, Bool-cases, any, ℕ, ◌+◌, ◌≡◌, refl, ap, ◌∙◌, inl, inr, Bool, true,
  false, some, List, [], ◌∷◌, arith,
}
use golink_url_shortener.Db.Models.{Link}
use golink_url_shortener.Db.Sql.{Db, exec, Tables}
use golink_url_shortener.Db.Rows.{has_id, update_where}
use golink_url_shortener.Db.LinkRepo.{add_uses}
use golink_url_shortener.Db.UseCounter.{
  Counts, bump, UseCounter, increment, swap_counts, write_taken,
}

-- What may happen next: a handler counts a use, or the goroutine swaps the map out (which it does
-- only when it has written all that it took before), or writes one count.
pub data Event : Type 0 where
  used : ℕ → Event
  swap write : Event

unfoldable pub happen : Event → UseCounter × Db → UseCounter × Db
happen (used id) (uc, db) = (increment id uc, db)
happen swap (uc, db) = elim uc.taken [ [] ↦ (swap_counts uc, db) | c ∷ cs ↦ (uc, db) ]
happen write (uc, db) = write_taken uc db

unfoldable pub happen_all : List Event → UseCounter × Db → UseCounter × Db
happen_all [] st = st
happen_all (e ∷ es) st = happen_all es (happen e st)

-- The uses that a list of counts adds to a link.
unfoldable pub owed : ℕ → Counts → ℕ
owed id [] = 0
owed id ((k, n) ∷ cs) = (if k == id then n else 0) + owed id cs

-- The use count in the row of a link.
unfoldable pub uses : ℕ → List Link → ℕ
uses id [] = 0
uses id (l ∷ ls) = let rest = uses id ls in if has_id id l then l.use_count else rest

unfoldable pub times_used : ℕ → List Event → ℕ
times_used id [] = 0
times_used id (used k ∷ es) = (if k == id then 1 else 0) + times_used id es
times_used id (swap ∷ es) = times_used id es
times_used id (write ∷ es) = times_used id es

-- All uses of a link that are known somewhere: in its row, taken or pending.
abbrev pub ledger : ℕ → UseCounter × Db → ℕ
ledger id (uc, db) = uses id db.tables.links + owed id uc.taken + owed id uc.counts

owed-bump : (id k : ℕ) (cs : Counts) → owed id (bump k cs) ≡ owed id cs + (if k == id then 1 else 0)
unfolding owed bump
owed-bump id k [] = omega arith
owed-bump id k ((j, n) ∷ cs) =
    ground (arith, owed-bump id k cs, ==_iff j k, ==_iff j id, ==_iff k id)

-- A write to a row adds to the uses of that row.
uses-add :
    (n k id : ℕ) (now : ℕ) (ls : List Link)
    → any (has_id id) ls ≡ true
    → uses id (
        update_where
          (has_id k)
          (λ l. record l { use_count = l.use_count + n; last_used_at = some now })
          ls)
      ≡ uses id ls + (if k == id then n else 0)
unfolding uses update_where
uses-add n k id now [] h = cc
uses-add n k id now (l ∷ ls) h = elim (Bool-cases (l.id == id)) [
  | inl here ↦ ground (arith, ==_iff l.id k, ==_iff l.id id, ==_iff k id)
  | inr there ↦
      ground
        (arith, uses-add n k id now ls (rw there at h), ==_iff l.id k, ==_iff l.id id, ==_iff k id)
]

-- The row of a link stays.
stays :
    (n k id : ℕ) (now : ℕ) (ls : List Link)
    → any (has_id id) ls ≡ true
    → any (has_id id) (
        update_where
          (has_id k)
          (λ l. record l { use_count = l.use_count + n; last_used_at = some now })
          ls)
      ≡ true
unfolding update_where
stays n k id now [] h = h
stays n k id now (l ∷ ls) h = elim (Bool-cases (l.id == id)) [
  | inl here ↦ ground (arith)
  | inr there ↦ ground (arith, stays n k id now ls (rw there at h))
]

-- A database none of whose statements fails.
abbrev pub fault_free : Tables → Db
fault_free t = record { tables = t; faults = [] }

-- A state of the program follows another in which the uses of a link were as many, less some.
abbrev Follows : ℕ → ℕ → UseCounter → Tables → UseCounter × Db → Type 0
Follows id more uc t st =
    (uc' : UseCounter) × (t' : Tables) × (st ≡ (uc', fault_free t'))
    × (any (has_id id) t'.links ≡ true)
    × (ledger id (uc', fault_free t') ≡ ledger id (uc, fault_free t) + more)

happen-ledger :
    (e : Event) (id : ℕ) (uc : UseCounter) (t : Tables)
    → any (has_id id) t.links ≡ true
    → Follows id (times_used id (e ∷ [])) uc t (happen e (uc, fault_free t))
unfolding happen times_used owed increment swap_counts write_taken add_uses exec
happen-ledger (used k) id uc t there =
    (increment k uc, t, refl, there, omega (arith, owed-bump id k uc.counts))
happen-ledger swap id uc t there = go uc.taken uc.counts uc.nudged uc.closed uc.done
  where
    go :
        (taken counts : Counts) (nudged closed done : Bool)
        → let c : UseCounter = record {
          counts = counts;
          taken = taken;
          nudged = nudged;
          closed = closed;
          done = done;
        } in
          Follows id 0 c t (happen swap (c, fault_free t))
    go [] counts nudged closed done = (
      record { counts = []; taken = counts; nudged = false; closed = closed; done = done },
      t,
      refl,
      there,
      omega arith,
    )
    go (c ∷ cs) counts nudged closed done = (
      record { counts = counts; taken = c ∷ cs; nudged = nudged; closed = closed; done = done },
      t,
      refl,
      there,
      omega arith,
    )
happen-ledger write id uc t there = go uc.taken uc.counts uc.nudged uc.closed uc.done
  where
    go :
        (taken counts : Counts) (nudged closed done : Bool)
        → let c : UseCounter = record {
          counts = counts;
          taken = taken;
          nudged = nudged;
          closed = closed;
          done = done;
        } in
          Follows id 0 c t (happen write (c, fault_free t))
    go [] counts nudged closed done = (
      record { counts = counts; taken = []; nudged = nudged; closed = closed; done = done },
      t,
      refl,
      there,
      omega arith,
    )
    go ((k, n) ∷ cs) counts nudged closed done = (
      record { counts = counts; taken = cs; nudged = nudged; closed = closed; done = done },
      (add_uses n k (fault_free t)).1.tables,
      refl,
      stays n k id t.now t.links there,
      omega (arith, uses-add n k id t.now t.links there),
    )

happen_all-Follows :
    (es : List Event) (id : ℕ) (uc : UseCounter) (t : Tables)
    → any (has_id id) t.links ≡ true
    → Follows id (times_used id es) uc t (happen_all es (uc, fault_free t))
unfolding happen_all times_used
happen_all-Follows [] id uc t there = (uc, t, refl, there, omega arith)
happen_all-Follows (e ∷ es) id uc t there =
    let (uc', t', same, there', grown) = happen-ledger e id uc t there in
    let (uc'', t'', same', there'', grown') = happen_all-Follows es id uc' t' there' in
    (
      uc'',
      t'',
      ap (happen_all es) same ∙ same',
      there'',
      omega (arith, grown, grown', split_off e es),
    )
  where
    split_off :
        (e : Event) (es : List Event)
        → times_used id (e ∷ es) ≡ times_used id (e ∷ []) + times_used id es
    split_off (used k) es = omega arith
    split_off swap es = omega arith
    split_off write es = omega arith

-- Where no statement fails, the uses of a link in its row, taken and pending are at any time those
-- it started with and those counted since, however increments and flushes interleave.
pub happen_all-ledger :
    (es : List Event) (id : ℕ) (uc : UseCounter) (t : Tables)
    → any (has_id id) t.links ≡ true
    → ledger id (happen_all es (uc, fault_free t)) ≡ ledger id (uc, fault_free t) + times_used id es
happen_all-ledger es id uc t there =
    let (uc', t', same, there', grown) = happen_all-Follows es id uc t there in
    ap (ledger id) same ∙ grown

-- The flush: a swap, and a write for each count taken.
unfoldable pub writes : Counts → List Event
writes [] = []
writes (c ∷ cs) = write ∷ writes cs

-- The flush with which the goroutine ends, when it has written all it took before.
unfoldable pub final_flush : UseCounter → List Event
final_flush uc = swap ∷ writes uc.counts

writes-none : (id : ℕ) (cs : Counts) → times_used id (writes cs) ≡ 0
unfolding times_used writes
writes-none id [] = refl
writes-none id (c ∷ cs) = writes-none id cs

writes-drain :
    (cs : Counts) (nudged closed done : Bool) (db : Db)
    → let uc : UseCounter = record {
      counts = [];
      taken = cs;
      nudged = nudged;
      closed = closed;
      done = done;
    } in
      let end = (happen_all (writes cs) (uc, db)).0 in (end.taken ≡ []) × (end.counts ≡ [])
unfolding happen_all happen write_taken writes
writes-drain [] nudged closed done db = (refl, refl)
writes-drain ((k, n) ∷ cs) nudged closed done db =
    writes-drain cs nudged closed done (add_uses n k db).1

final_flush-drain :
    (uc : UseCounter) (db : Db)
    → uc.taken ≡ []
    → let end = (happen_all (final_flush uc) (uc, db)).0 in (end.taken ≡ []) × (end.counts ≡ [])
unfolding happen_all happen final_flush swap_counts
final_flush-drain uc db idle = rw idle (writes-drain uc.counts false uc.closed uc.done db)

-- The last flush leaves nothing behind: where no statement fails, it adds to the row of a link all
-- the uses of it that were pending.
pub final_flush-uses :
    (id : ℕ) (uc : UseCounter) (t : Tables)
    → any (has_id id) t.links ≡ true
    → uc.taken ≡ []
    → uses id (happen_all (final_flush uc) (uc, fault_free t)).1.tables.links
      ≡ uses id t.links + owed id uc.counts
unfolding owed times_used final_flush
final_flush-uses id uc t there idle =
    let (taken, counts) = final_flush-drain uc (fault_free t) idle in
    let total = happen_all-ledger (final_flush uc) id uc t there in
    omega (
      arith,
      total,
      writes-none id uc.counts,
      ap (owed id) taken,
      ap (owed id) counts,
      ap (owed id) idle,
    )
