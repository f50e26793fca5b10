-- ===== src/Daemon/SpscQueue/Fifo.antt =====
-- The queue against what it promises: a sequence that is written at its end and read at its front,
-- of at most one element fewer than the array has slots.
use ec_systemcore.Base.{
  ℕ, zero, suc, ◌+◌, ◌-◌, ◌≤◌, ◌<◌, ◌≡◌, refl, sym, ap, ap₂, ◌∙◌, ◌⊎◌, inl, inr, List, [], ◌∷◌,
  ◌++◌, none, some, ltb, leb, ◌==◌, if◌then◌else◌, arith, length, get_or, set, get_or-set_self,
  get_or-set_ne, length-set, length-replicate, Bool-cases, ==→eq,
}
use native.Mathlib.Nat.{mod_self, mod-eq_of_lt}
use ec_systemcore.Daemon.SpscQueue.{
  SpscQueue, next, new_queue, try_pop, try_push, available_to_write,
}

-- The slot `n` places behind `i`.
abbrev wrapped : ℕ → ℕ → ℕ → ℕ
wrapped capacity i n = if ltb (i + n) capacity then i + n else i + n - capacity

next_lem : (capacity i : ℕ) → i < capacity → next capacity i ≡ wrapped capacity i 1
next_lem capacity i h = elim (Bool-cases (i + 1 == capacity)) [
  | inl last ↦
      let e : i + 1 ≡ capacity = ==→eq (i + 1) capacity last in
      rw e (ground (arith, mod_self capacity))
  | inr inner ↦
      let below : i + 1 < capacity = ground (arith, inner) in ground (arith, mod-eq_of_lt below)
]

module _ {ℓ} {A : Type ℓ} (initial : A) (capacity : ℕ) where
  -- The elements in `n` slots from `i` on.
  unfoldable pub items : ℕ → List A → ℕ → List A
  items zero values i = []
  items (suc n) values i = get_or values i initial ∷ items n values (wrapped capacity i 1)

  length-items : (n : ℕ) (values : List A) (i : ℕ) → length (items n values i) ≡ n
  unfolding items
  length-items zero values i = refl
  length-items (suc n) values i = omega (arith, length-items n values (wrapped capacity i 1))

  -- A write into the slot behind them leaves them.
  items-set :
      (n : ℕ) (values : List A) (i w : ℕ) (value : A)
      → i < capacity
      → n < capacity
      → w ≡ wrapped capacity i n
      → items n (set values w value) i ≡ items n values i
  unfolding items
  items-set zero values i w value h k e = refl
  items-set (suc n) values i w value h k e =
      ap₂ ◌∷◌ (get_or-set_ne values w i value initial (ground (arith, e))) (
        items-set n values (wrapped capacity i 1) w value (ground arith) (omega arith)
          (ground (arith, e)))

  items-snoc :
      (n : ℕ) (values : List A) (i : ℕ)
      → i < capacity
      → n < capacity
      → items (suc n) values i
        ≡ items n values i ++ (get_or values (wrapped capacity i n) initial ∷ [])
  unfolding items
  items-snoc zero values i h k =
      let e : wrapped capacity i 0 ≡ i = ground arith in
      ap (λ w. get_or values w initial ∷ []) (sym e)
  items-snoc (suc n) values i h k =
      let e : wrapped capacity (wrapped capacity i 1) n ≡ wrapped capacity i (suc n) =
        ground arith in
      ap (λ rest. get_or values i initial ∷ rest)
        (items-snoc n values (wrapped capacity i 1) (ground arith) (omega arith)
          ∙ ap (λ w. items n values (wrapped capacity i 1) ++ (get_or values w initial ∷ [])) e)

  -- The indices and the array are within the capacity.
  pub record IsQueue (q : SpscQueue A) : Type ℓ where
    pub read_fits : q.read < capacity
    pub write_fits : q.write < capacity
    pub size_is : length q.values ≡ capacity

  -- How many elements lie between the indices.
  abbrev pub held : SpscQueue A → ℕ
  held q = if leb q.read q.write then q.write - q.read else capacity - (q.read - q.write)

  abbrev pub contents : SpscQueue A → List A
  contents q = items (held q) q.values q.read

  pub length-contents : (q : SpscQueue A) → IsQueue q → length (contents q) < capacity
  length-contents q v =
      ground (arith, length-items (held q) q.values q.read, v.read_fits, v.write_fits)

  -- A new queue is empty.
  pub new_queue-IsQueue :
      2 ≤ capacity
      → IsQueue (new_queue initial capacity) × (contents (new_queue initial capacity) ≡ [])
  unfolding new_queue items
  new_queue-IsQueue h = (
    record {
      read_fits = omega arith;
      write_fits = omega arith;
      size_is = length-replicate capacity initial;
    },
    refl,
  )

  after_push : SpscQueue A → A → SpscQueue A
  after_push q value = record q {
    values = set q.values q.write value;
    write = wrapped capacity q.write 1;
  }

  contents-after_push :
      (q : SpscQueue A) (value : A)
      → IsQueue q
      → held q + 1 < capacity
      → contents (after_push q value) ≡ contents q ++ (value ∷ [])
  unfolding after_push
  contents-after_push q value v room =
      let values' = set q.values q.write value in
      let more : held (after_push q value) ≡ suc (held q) =
        ground (arith, v.read_fits, v.write_fits) in
      let last : wrapped capacity q.read (held q) ≡ q.write =
        ground (arith, v.read_fits, v.write_fits) in
      let written : get_or values' q.write initial ≡ value =
        get_or-set_self q.values q.write value initial (omega (arith, v.size_is, v.write_fits)) in
      ap (λ n. items n values' q.read) more
      ∙ items-snoc (held q) values' q.read v.read_fits (omega arith)
      ∙ ap₂ (λ front w. front ++ (w ∷ []))
          (items-set (held q) q.values q.read q.write value v.read_fits (omega arith) (sym last))
          (ap (λ w. get_or values' w initial) last ∙ written)

  -- A push onto a valid queue is refused exactly while it holds one element fewer than the capacity;
  -- otherwise the queue stays valid and the value is put at the end of the sequence.
  pub try_push-appends :
      (q : SpscQueue A) (value : A)
      → 2 ≤ capacity
      → IsQueue q
      → ((try_push capacity q value ≡ none) × (length (contents q) + 1 ≡ capacity))
        ⊎ ((q' : SpscQueue A) × (try_push capacity q value ≡ some q')
            × (length (contents q) + 1 < capacity)
            × IsQueue q'
            × (contents q' ≡ contents q ++ (value ∷ [])))
  unfolding try_push after_push
  try_push-appends q value h v =
      let step = next_lem capacity q.write v.write_fits in
      let size = length-items (held q) q.values q.read in
      elim (Bool-cases (next capacity q.write == q.read)) [
        | inl full ↦
            let count : held q + 1 ≡ capacity =
              ground (arith, step, full, v.read_fits, v.write_fits) in
            inl (rw full refl, omega (arith, size, count))
        | inr free ↦
            let room : held q + 1 < capacity =
              ground (arith, step, free, v.read_fits, v.write_fits) in
            inr (
              after_push q value,
              rw (free, step) refl,
              omega (arith, size, room),
              record {
                read_fits = v.read_fits;
                write_fits = ground (arith, v.write_fits);
                size_is = length-set q.values q.write value ∙ v.size_is;
              },
              contents-after_push q value v room,
            )
      ]

  -- A pop of a valid queue fails exactly if the sequence is empty; otherwise the queue stays valid and
  -- gives up the sequence's first element.
  pub try_pop-uncons :
      (q : SpscQueue A)
      → IsQueue q
      → ((try_pop initial capacity q ≡ none) × (contents q ≡ []))
        ⊎ ((value : A) × (q' : SpscQueue A) × (try_pop initial capacity q ≡ some (value, q'))
            × IsQueue q'
            × (contents q ≡ value ∷ contents q'))
  unfolding try_pop items
  try_pop-uncons q v =
      let step = next_lem capacity q.read v.read_fits in
      let q' : SpscQueue A = record q { read = wrapped capacity q.read 1 } in
      elim (Bool-cases (q.read == q.write)) [
        | inl empty ↦
            let none_held : held q ≡ 0 = ground (arith, empty) in
            inl (rw empty refl, ap (λ n. items n q.values q.read) none_held)
        | inr some_held ↦
            let fewer : held q ≡ suc (held q') =
              ground (arith, some_held, v.read_fits, v.write_fits) in
            inr (
              get_or q.values q.read initial,
              q',
              rw (some_held, step) refl,
              record {
                read_fits = ground (arith, v.read_fits);
                write_fits = v.write_fits;
                size_is = v.size_is;
              },
              ap (λ n. items n q.values q.read) fewer,
            )
      ]

  -- The room that the producer sees is what the sequence lacks to its greatest length.
  pub available_to_write_lem :
      (q : SpscQueue A)
      → IsQueue q
      → available_to_write capacity q + length (contents q) + 1 ≡ capacity
  unfolding available_to_write
  available_to_write_lem q v =
      ground (arith, length-items (held q) q.values q.read, v.read_fits, v.write_fits)
