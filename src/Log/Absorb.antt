-- ===== src/Log/Absorb.antt =====
-- `log_write` of log.c: the log names each block once, and never more than it has room for.
use cs_3224_operating_system.Base.{
  ℕ, zero, suc, ◌+◌, ◌≤◌, ◌<◌, ◌≡◌, refl, ◌≢◌, ◌∙◌, ap, sym, ◌⊎◌, ◌↔◌, inl, inr, List, arith,
  if◌then◌else◌, ◌==◌, length, get_or, set, Bool-cases, get_or-set_self, get_or-set_ne, length-set,
}
use native.Mathlib.Decide.{ℕ_discrete, dec_lt}
use cs_3224_operating_system.Log.{Log, log_size, ok, find_block, log_write}

pub record WellLogged (lg : Log) : Type 0 where
  pub entries : length lg.block ≡ log_size
  pub few : lg.n ≤ log_size
  pub distinct : (i j : ℕ) → i < lg.n → j < lg.n → get_or lg.block i 0 ≡ get_or lg.block j 0 → i ≡ j

-- Block `a` is in the log.
abbrev pub Named : Log → ℕ → Type 0
Named lg a = (i : ℕ) × (i < lg.n) × (get_or lg.block i 0 ≡ a)

pub record Found (rounds i : ℕ) (block : List ℕ) (b j : ℕ) : Type 0 where
  pub lo : i ≤ j
  pub hi : j ≤ i + rounds
  pub hit : j < i + rounds → get_or block j 0 ≡ b
  pub miss : (k : ℕ) → i ≤ k → k < j → get_or block k 0 ≢ b

find_block-Found :
    (rounds i : ℕ) (block : List ℕ) (b : ℕ) → Found rounds i block b (find_block rounds i block b)
unfolding find_block
find_block-Found zero i block b = record {
  lo = omega arith;
  hi = omega arith;
  hit = λ h. absurd (omega arith);
  miss = λ k lo hi. absurd (omega arith);
}
find_block-Found (suc rounds) i block b = elim (Bool-cases (get_or block i 0 == b)) [
  | inl same ↦ rw same (record {
    lo = omega arith;
    hi = omega arith;
    hit = λ h. ground arith;
    miss = λ k lo hi. absurd (omega arith);
  })
  | inr other ↦
      let rest = find_block-Found rounds (i + 1) block b in
      rw other (record {
        lo = omega (arith, rest.lo);
        hi = omega (arith, rest.hi);
        hit = λ h. rest.hit (omega arith);
        miss = λ k lo hi. elim (ℕ_discrete k i) [
          | yes e ↦ rw e (λ q. ground arith)
          | no ne ↦ rest.miss k (omega arith) hi
        ];
      })
]

-- What a successful `log_write` has tested, and what it returns.
pub record Logged (lg : Log) (b : ℕ) (lg' : Log) : Type 0 where
  pub index : ℕ
  pub found : Found lg.n 0 lg.block b index
  pub block : lg'.block ≡ set lg.block index b
  pub count : lg'.n ≡ (if index == lg.n then lg.n + 1 else lg.n)
  pub room : lg.n < log_size
  pub fits : lg.n + 1 < lg.size
  pub same_size : lg'.size ≡ lg.size
  pub same_start : lg'.start ≡ lg.start
  pub same_outstanding : lg'.outstanding ≡ lg.outstanding
  pub same_committing : lg'.committing ≡ lg.committing

pub log_write-Logged : (lg : Log) (b : ℕ) {lg' : Log} → log_write lg b ≡ ok lg' → Logged lg b lg'
unfolding log_write
log_write-Logged lg b h = record {
  index = find_block lg.n 0 lg.block b;
  found = find_block-Found lg.n 0 lg.block b;
  block = ground arith;
  count = ground arith;
  room = ground arith;
  fits = ground arith;
  same_size = ground arith;
  same_start = ground arith;
  same_outstanding = ground arith;
  same_committing = ground arith;
}

module _ (lg : Log) (b : ℕ) {lg' : Log} (well : WellLogged lg) (l : Logged lg b lg') where
  open l use {index, found, block, count, room}

  index_room : index < length lg.block
  index_room = omega (arith, found.hi, well.entries)

  entry_self : get_or lg'.block index 0 ≡ b
  entry_self = rw block (get_or-set_self lg.block index b 0 index_room)

  entry_other : (i : ℕ) → index ≢ i → get_or lg'.block i 0 ≡ get_or lg.block i 0
  entry_other i ne = rw block (get_or-set_ne lg.block index i b 0 ne)

  -- The number of entries grows exactly when the block was not there.
  n_cases : ((lg'.n ≡ lg.n) × (index < lg.n)) ⊎ ((lg'.n ≡ lg.n + 1) × (index ≡ lg.n))
  n_cases = elim (Bool-cases (index == lg.n)) [
    | inl fresh ↦ inr (count ∙ rw fresh refl, ground arith)
    | inr old ↦ inl (count ∙ rw old refl, ground (arith, found.hi))
  ]

  entry_index : (i : ℕ) → i < lg'.n → index ≢ i → i < lg.n
  entry_index i h ne = elim n_cases [
    | inl same ↦ omega (arith, same)
    | inr more ↦ omega (arith, more)
  ]

  no_other : (i : ℕ) → i < lg.n → get_or lg.block i 0 ≡ b → i ≢ index → ⊥
  no_other i lt e ne = elim (dec_lt i index) [
    | yes before ↦ found.miss i (omega arith) before e
    | no after ↦ ne (well.distinct i index lt (omega arith) (e ∙ sym (found.hit (omega arith))))
  ]

  distinct : (i j : ℕ) → i < lg'.n → j < lg'.n → get_or lg'.block i 0 ≡ get_or lg'.block j 0 → i ≡ j
  distinct i j hi hj e = elim (ℕ_discrete i index) [
    | yes at_i ↦ elim (ℕ_discrete j index) [
      | yes at_j ↦ at_i ∙ sym at_j
      | no off_j ↦ absurd (
          no_other j (entry_index j hj (λ q. off_j (sym q)))
            (sym (entry_other j (λ q. off_j (sym q)))
              ∙ sym e
              ∙ ap (λ k. get_or lg'.block k 0) at_i
              ∙ entry_self)
            off_j)
    ]
    | no off_i ↦ elim (ℕ_discrete j index) [
      | yes at_j ↦ absurd (
          no_other i (entry_index i hi (λ q. off_i (sym q)))
            (sym (entry_other i (λ q. off_i (sym q)))
              ∙ e
              ∙ ap (λ k. get_or lg'.block k 0) at_j
              ∙ entry_self)
            off_i)
      | no off_j ↦
          well.distinct i j (entry_index i hi (λ q. off_i (sym q)))
            (entry_index j hj (λ q. off_j (sym q)))
            (sym (entry_other i (λ q. off_i (sym q))) ∙ e ∙ entry_other j (λ q. off_j (sym q)))
    ]
  ]

  Named-back : (a : ℕ) → Named lg' a → (a ≡ b) ⊎ Named lg a
  Named-back a (i, lt, e) = elim (ℕ_discrete i index) [
    | yes same ↦ inl (sym e ∙ ap (λ k. get_or lg'.block k 0) same ∙ entry_self)
    | no other ↦
        let ne : index ≢ i = λ q. other (sym q) in
        inr (i, entry_index i lt ne, sym (entry_other i ne) ∙ e)
  ]

  grows : lg.n ≤ lg'.n
  grows = elim n_cases [ inl same ↦ omega (arith, same) | inr more ↦ omega (arith, more) ]

  index_in : index < lg'.n
  index_in = elim n_cases [ inl same ↦ omega (arith, same) | inr more ↦ omega (arith, more) ]

  Named-forth : (a : ℕ) → (a ≡ b) ⊎ Named lg a → Named lg' a
  Named-forth a (inl e) = (index, index_in, entry_self ∙ sym e)
  Named-forth a (inr (i, lt, e)) = elim (ℕ_discrete index i) [
    | yes same ↦ (
      index,
      index_in,
      entry_self ∙ sym (found.hit (omega arith)) ∙ ap (λ k. get_or lg.block k 0) same ∙ e,
    )
    | no other ↦ (i, omega (arith, grows), entry_other i other ∙ e)
  ]

  few : lg'.n ≤ log_size
  few = elim n_cases [ inl same ↦ omega (arith, same) | inr more ↦ omega (arith, more) ]

  logged-WellLogged : WellLogged lg'
  logged-WellLogged = record {
    entries = ap length block ∙ length-set lg.block index b ∙ well.entries;
    few = few;
    distinct = distinct;
  }

-- A `log_write` that does not panic keeps the log's entries distinct and within the array, and the
-- log then names exactly the blocks that it named before and the new one; a block that was there
-- takes no new entry.
pub log_write-Named :
    (lg : Log) (b : ℕ) {lg' : Log}
    → WellLogged lg
    → log_write lg b ≡ ok lg'
    → WellLogged lg'
      × ((a : ℕ) → Named lg' a ↔ ((a ≡ b) ⊎ Named lg a))
      × (Named lg b → lg'.n ≡ lg.n)
log_write-Named lg b {lg'} well h =
    let l = log_write-Logged lg b h in
    (
      logged-WellLogged lg b well l,
      λ a. (Named-back lg b well l a, Named-forth lg b well l a),
      λ (i, lt, e). elim (n_cases lg b well l) [
        | inl same ↦ same.0
        | inr more ↦ absurd (no_other lg b well l i lt e (omega (arith, more)))
      ],
    )
