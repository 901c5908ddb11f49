-- ===== src/Pdh/Worker.antt =====
-- internal/pdh/collector.go: `collectWorkerRaw` and `collectWorkerFormatted`, one request: the arrays of every
-- instance of every counter, read by GetRawCounterArray or GetFormattedCounterArrayDouble into a buffer
-- that is kept. What PDH answers is given: `reply i n` is its answer to the i-th call for an instance, for
-- a buffer of n bytes. The checks by reflection of what the caller passes are left out.
use windows_exporter.Base.{
  ℕ, zero, suc, ◌+◌, ◌≤◌, ◌<◌, ◌≡◌, refl, ◌∙◌, List, [], ◌∷◌, arith, ◌==◌, nat_eq, if◌then◌else◌,
  leb, Option, none, some, Bool-cases, inl, inr, Str, Map, All, sym, ap, ◌≢◌,
}
use windows_exporter.Errors.{Error, pdh_error}
use windows_exporter.Collection.{no_data_code}
use windows_exporter.Pdh.{
  Item, CounterDef, Row, Settings, Table, add_items, is_known_counter_data_error,
}
use windows_exporter.Pdh.Rows.{
  IsTable, IsMade, IsMade-add_items, CanWrite, IsTable-empty, row_names,
}
use windows_exporter.Perflib.RawData.{two_32}

pub data Reply : Type 0 where
  items_written : List Item → Reply
  -- ErrorMoreData, with bytesNeeded
  more_data : ℕ → Reply
  -- another code, and the items that the buffer shows then
  failure : ℕ → List Item → Reply

abbrev pub Source : Type 0
Source = ℕ → ℕ → Reply

abbrev pub more_data_code : ℕ
more_data_code = 0x800007D2

pub data Array : Type 0 where
  -- the items, and the size of the buffer
  items : List Item → ℕ → Array
  failed : Error → Array
  out_of_fuel : Array

-- The `for` loop of one instance, from call i on.
unfoldable pub read_array : Source → ℕ → ℕ → ℕ → Array
read_array reply zero i capacity = out_of_fuel
read_array reply (suc fuel) i capacity = elim (reply i capacity) [
  | items_written xs ↦ items xs capacity
  | failure code xs ↦
      if is_known_counter_data_error (pdh_error code ∷ [])
      then items xs capacity
      else failed (pdh_error code ∷ [])
  | more_data needed ↦
      let rest = read_array reply fuel (suc i) needed in
      if leb needed capacity then failed (pdh_error more_data_code ∷ []) else rest
]

pub data Progress : Type 0 where
  going : Table → ℕ → Progress
  stopped : Error → Progress
  panicked unfinished : Progress

abbrev pub add_array : Settings → CounterDef → Array → Table → Progress
add_array settings c (items xs capacity) t = elim (add_items settings c xs t) [
  | none ↦ panicked
  | some u ↦ going u capacity
]
add_array settings c (failed err) t = stopped err
add_array settings c out_of_fuel t = unfinished

module _ (settings : Settings) (fuel : ℕ) where
  -- The instances of a counter.
  unfoldable pub read_instances : CounterDef → List Source → Table → ℕ → Progress
  read_instances c [] t capacity = going t capacity
  read_instances c (reply ∷ instances) t capacity =
      elim (add_array settings c (read_array reply fuel 0 capacity) t) [
        | going u next ↦ read_instances c instances u next
        | stopped err ↦ stopped err
        | panicked ↦ panicked
        | unfinished ↦ unfinished
      ]

  -- The counters, in the order of this round.
  unfoldable pub read_counters : List (CounterDef × List Source) → Table → ℕ → Progress
  read_counters [] t capacity = going t capacity
  read_counters ((c, instances) ∷ counters) t capacity =
      elim (read_instances c instances t capacity) [
        | going u next ↦ read_counters counters u next
        | stopped err ↦ stopped err
        | panicked ↦ panicked
        | unfinished ↦ unfinished
      ]

-- What a request is answered: rows, or an error. `panics` where the worker does, which ends the process,
-- `unanswered` if the fuel ends first.
pub data Answer : Type 0 where
  rows : List Row → Answer
  error : Error → Answer
  panics unanswered : Answer

abbrev answer_rows : List Row → Answer
answer_rows [] = error (pdh_error no_data_code ∷ [])
answer_rows (row ∷ more) = rows (row ∷ more)

answer_of : Progress → Answer
answer_of (going t capacity) = answer_rows t.rows
answer_of (stopped err) = error err
answer_of panicked = panics
answer_of unfinished = unanswered

abbrev pub empty_table : Table
empty_table = record { rows = []; index_map = []; string_map = [] }

-- One turn of the worker's loop; `query_status` is what CollectQueryData returns.
unfoldable pub collect_worker : Settings → ℕ → ℕ → List (CounterDef × List Source) → ℕ → Answer
unfolding answer_of
collect_worker settings fuel query_status counters capacity =
    if query_status == 0
    then answer_of (read_counters settings fuel counters empty_table capacity)
    else error (pdh_error query_status ∷ [])

-- `bytesNeeded` is a uint32.
abbrev pub Bounded : Source → Type 0
Bounded reply = (i n needed : ℕ) → reply i n ≡ more_data needed → needed < two_32

abbrev IsRead : Array → Type 0
IsRead (items xs n) = Unit
IsRead (failed err) = Unit
IsRead out_of_fuel = ⊥

IsRead-read_array :
    (reply : Source) (fuel i capacity : ℕ)
    → Bounded reply
    → 0 < fuel
    → two_32 ≤ fuel + capacity
    → IsRead (read_array reply fuel i capacity)
unfolding read_array
IsRead-read_array reply zero i capacity b p q = omega arith
IsRead-read_array reply (suc fuel) i capacity b p q =
    go (reply i capacity) refl (λ needed. IsRead-read_array reply fuel (suc i) needed b)
  where
    go :
        (r : Reply)
        → reply i capacity ≡ r
        → ((needed : ℕ)
            → 0 < fuel
            → two_32 ≤ fuel + needed
            → IsRead (read_array reply fuel (suc i) needed))
        → IsRead (read_array reply (suc fuel) i capacity)
    go (items_written xs) e again = rw (e, IsRead) tt
    go (failure code xs) e again =
        elim (Bool-cases (is_known_counter_data_error (pdh_error code ∷ []))) [
          | inl k ↦ rw (e, k, IsRead) tt
          | inr k ↦ rw (e, k, IsRead) tt
        ]
    go (more_data needed) e again = elim (Bool-cases (leb needed capacity)) [
      | inl k ↦ rw (e, k, IsRead) tt
      | inr k ↦
          rw (e, k, IsRead)
            (let small = b i capacity needed e in again needed (ground arith) (ground arith))
    ]

IsProgress : Settings → Progress → Type 0
IsProgress settings (going t n) = IsTable settings t
IsProgress settings (stopped err) = Unit
IsProgress settings panicked = ⊥
IsProgress settings unfinished = ⊥

IsProgress-add_array :
    (settings : Settings) (c : CounterDef) (a : Array) (t : Table)
    → IsRead a
    → CanWrite c
    → IsTable settings t
    → IsProgress settings (add_array settings c a t)
unfolding IsProgress
IsProgress-add_array settings c (items xs n) t r w h =
    go (add_items settings c xs t) refl (IsMade-add_items settings c xs t w h)
  where
    go :
        (o : Option Table)
        → add_items settings c xs t ≡ o
        → IsMade settings o
        → IsProgress settings (add_array settings c (items xs n) t)
    go none e made = absurd made
    go (some u) e made = rw (e, IsProgress) made
IsProgress-add_array settings c (failed err) t r w h = tt
IsProgress-add_array settings c out_of_fuel t r w h = r

module _ (settings : Settings) (fuel : ℕ) (enough : two_32 ≤ fuel) where
  IsProgress-read_instances :
      (c : CounterDef) (instances : List Source) (t : Table) (capacity : ℕ)
      → All Bounded instances
      → CanWrite c
      → IsTable settings t
      → IsProgress settings (read_instances settings fuel c instances t capacity)
  unfolding IsProgress read_instances
  IsProgress-read_instances c [] t capacity b w h = h
  IsProgress-read_instances c (reply ∷ instances) t capacity (b, bs) w h =
      go (add_array settings c (read_array reply fuel 0 capacity) t) refl
        (λ u next. IsProgress-read_instances c instances u next bs w)
        (IsProgress-add_array settings c (read_array reply fuel 0 capacity) t
          (IsRead-read_array reply fuel 0 capacity b (omega arith) (omega arith)) w h)
    where
      go :
          (r : Progress)
          → add_array settings c (read_array reply fuel 0 capacity) t ≡ r
          → ((u : Table) (next : ℕ)
              → IsTable settings u
              → IsProgress settings (read_instances settings fuel c instances u next))
          → IsProgress settings r
          → IsProgress settings (read_instances settings fuel c (reply ∷ instances) t capacity)
      go (going u next) e again k = rw (e, IsProgress) (again u next k)
      go (stopped err) e again k = rw (e, IsProgress) tt
      go panicked e again k = absurd k
      go unfinished e again k = absurd k

  IsProgress-read_counters :
      (counters : List (CounterDef × List Source)) (t : Table) (capacity : ℕ)
      → All (λ c. CanWrite c.0 × All Bounded c.1) counters
      → IsTable settings t
      → IsProgress settings (read_counters settings fuel counters t capacity)
  unfolding IsProgress read_counters
  IsProgress-read_counters [] t capacity b h = h
  IsProgress-read_counters ((c, instances) ∷ counters) t capacity ((w, b), bs) h =
      go (read_instances settings fuel c instances t capacity) refl
        (λ u next. IsProgress-read_counters counters u next bs)
        (IsProgress-read_instances c instances t capacity b w h)
    where
      go :
          (r : Progress)
          → read_instances settings fuel c instances t capacity ≡ r
          → ((u : Table) (next : ℕ)
              → IsTable settings u
              → IsProgress settings (read_counters settings fuel counters u next))
          → IsProgress settings r
          → IsProgress settings (read_counters settings fuel ((c, instances) ∷ counters) t capacity)
      go (going u next) e again k = rw (e, IsProgress) (again u next k)
      go (stopped err) e again k = rw (e, IsProgress) tt
      go panicked e again k = absurd k
      go unfinished e again k = absurd k

-- An answer with rows has a row, and its rows stand for distinct instances that are to be shown.
pub IsAnswer : Settings → Answer → Type 0
IsAnswer settings (rows rs) =
    (rs ≢ [])
    × (m : Map Str ℕ) × IsTable settings (record { rows = rs; index_map = m; string_map = [] })
IsAnswer settings (error err) = Unit
IsAnswer settings panics = ⊥
IsAnswer settings unanswered = ⊥

IsAnswer-answer_of :
    (settings : Settings) (p : Progress) → IsProgress settings p → IsAnswer settings (answer_of p)
unfolding IsAnswer IsProgress answer_of
IsAnswer-answer_of settings (stopped err) h = tt
IsAnswer-answer_of settings panicked h = h
IsAnswer-answer_of settings unfinished h = h
IsAnswer-answer_of settings (going t n) h = go t.rows refl
  where
    go : (rs : List Row) → t.rows ≡ rs → IsAnswer settings (answer_of (going t n))
    go [] e = rw e tt
    go (row ∷ rs) e = rw e (
      (λ k. ground arith),
      t.index_map,
      record { named = ap row_names (sym e) ∙ h.named; distinct = h.distinct; shown = h.shown },
    )

-- With fuel for 2^32 calls and sizes of 32 bits, a request is answered, from every list of counters that
-- can be written and every size of the buffer, without a panic: by an error, or by at least one row, and the rows stand for distinct
-- instances, none of them an aggregate unless aggregates are asked for.
pub IsAnswer-collect_worker :
    (settings : Settings) (fuel query_status : ℕ) (counters : List (CounterDef × List Source))
    (capacity : ℕ)
    → two_32 ≤ fuel
    → All (λ c. CanWrite c.0 × All Bounded c.1) counters
    → IsAnswer settings (collect_worker settings fuel query_status counters capacity)
unfolding collect_worker
IsAnswer-collect_worker settings fuel query_status counters capacity enough b =
    elim (Bool-cases (query_status == 0)) [
      | inl e ↦ rw e (
          IsAnswer-answer_of settings (read_counters settings fuel counters empty_table capacity) (
            IsProgress-read_counters settings fuel enough counters empty_table capacity b
              (IsTable-empty settings)))
      | inr e ↦ rw e (unfold IsAnswer in tt)
    ]
