-- ===== src/Kstring/Move.antt =====
-- `memmove` of kernel/string.c copies also where the buffers overlap.
use cs_3224_operating_system.Base.{
  ℕ, zero, suc, ◌+◌, ◌-◌, ◌*◌, ◌/◌, ◌%◌, ◌^◌, ◌≤◌, ◌<◌, ◌≡◌, refl, ◌∙◌, ◌&&◌, ◌⊎◌, arith, ◌==◌, ltb,
  Bool-cases, inl, inr,
}
use native.Mathlib.Decide.{dec_lt, ℕ_discrete}
use cs_3224_operating_system.Kstring.Memory.{
  Memory, store, forward, backward, memmove, stosb, stosl, spread, memset,
}

-- `n` bytes at `dst` are those that were at `src`, and nothing else has changed.
pub record Copied (dst src n : ℕ) (m m' : Memory) : Type 0 where
  pub moved : (i : ℕ) → i < n → m' (dst + i) ≡ m (src + i)
  pub kept : (a : ℕ) → (a < dst) ⊎ (dst + n ≤ a) → m' a ≡ m a

-- Upwards it is safe to copy where the target does not start inside the source.
forward-Copied :
    (n dst src : ℕ) (m : Memory)
    → (dst ≤ src) ⊎ (src + n ≤ dst)
    → Copied dst src n m (forward n dst src m)
unfolding forward
forward-Copied zero dst src m h = record {
  moved = λ i lt. absurd (omega arith);
  kept = λ a out. refl;
}
forward-Copied (suc n) dst src m h =
    let m1 = store m dst (m src) in
    let rest = forward-Copied n (dst + 1) (src + 1) m1 (omega arith) in
    record {
      moved = λ i lt. elim (ℕ_discrete i 0) [
        | yes e ↦
            let e1 : dst + i ≡ dst = omega arith in
            let e2 : src + i ≡ src = omega arith in
            rw (e1, e2) (rest.kept dst (inl (omega arith)) ∙ ground arith)
        | no ne ↦
            let e1 : dst + i ≡ dst + 1 + (i - 1) = omega arith in
            let e2 : src + i ≡ src + 1 + (i - 1) = omega arith in
            rw (e1, e2) (rest.moved (i - 1) (omega arith) ∙ ground arith)
      ];
      kept = λ a out. rest.kept a (omega arith) ∙ ground arith;
    }

backward-Copied :
    (n dst src : ℕ) (m : Memory) → src < dst → Copied dst src n m (backward n dst src m)
unfolding backward
backward-Copied zero dst src m h = record {
  moved = λ i lt. absurd (omega arith);
  kept = λ a out. refl;
}
backward-Copied (suc n) dst src m h =
    let m1 = store m (dst + n) (m (src + n)) in
    let rest = backward-Copied n dst src m1 h in
    record {
      moved = λ i lt. elim (ℕ_discrete i n) [
        | yes e ↦ rw e (rest.kept (dst + n) (inr (omega arith)) ∙ ground arith)
        | no ne ↦ rest.moved i (omega arith) ∙ ground arith
      ];
      kept = λ a out. rest.kept a (omega arith) ∙ ground arith;
    }

-- `memmove` moves `n` bytes and changes nothing else, however the two buffers overlap.
pub memmove-Copied : (dst src n : ℕ) (m : Memory) → Copied dst src n m (memmove dst src n m)
unfolding memmove
memmove-Copied dst src n m = elim (Bool-cases (ltb src dst && ltb dst (src + n))) [
  | inl up ↦ rw up (backward-Copied n dst src m (ground arith))
  | inr down ↦ rw down (forward-Copied n dst src m (ground arith))
]

-- Every byte from `dst` on is `v`, and nothing else has changed.
pub record Filled (dst n v : ℕ) (m m' : Memory) : Type 0 where
  pub within : (a : ℕ) → dst ≤ a → a < dst + n → m' a ≡ v
  pub kept : (a : ℕ) → (a < dst) ⊎ (dst + n ≤ a) → m' a ≡ m a

stosb-Filled : (n dst c : ℕ) (m : Memory) → Filled dst n (c % 256) m (stosb dst c n m)
unfolding stosb
stosb-Filled zero dst c m = record {
  within = λ a lo hi. absurd (omega arith);
  kept = λ a out. refl;
}
stosb-Filled (suc n) dst c m =
    let m1 = store m dst (c % 256) in
    let rest = stosb-Filled n (dst + 1) c m1 in
    record {
      within = λ a lo hi. elim (ℕ_discrete a dst) [
        | yes e ↦ rest.kept a (inl (omega arith)) ∙ ground arith
        | no ne ↦ rest.within a (omega arith) (omega arith)
      ];
      kept = λ a out. rest.kept a (omega arith) ∙ ground arith;
    }

-- The four bytes of a spread byte.
spread_bytes :
    (c : ℕ)
    → (spread c % 256 ≡ c % 256)
      × (spread c / 2 ^ 8 % 256 ≡ c % 256)
      × (spread c / 2 ^ 16 % 256 ≡ c % 256)
      × (spread c / 2 ^ 24 % 256 ≡ c % 256)
spread_bytes c = omega arith

stosl-Filled :
    (n dst c : ℕ) (m : Memory) → Filled dst (4 * n) (c % 256) m (stosl dst (spread c) n m)
unfolding stosl
stosl-Filled zero dst c m = record {
  within = λ a lo hi. absurd (omega arith);
  kept = λ a out. refl;
}
stosl-Filled (suc n) dst c m =
    let v = c % 256 in
    let m4 = store (store (store (store m dst v) (dst + 1) v) (dst + 2) v) (dst + 3) v in
    let rest = stosl-Filled n (dst + 4) c m4 in
    rw (spread_bytes c).0 (
      rw (spread_bytes c).1 (
        rw (spread_bytes c).2 (
          rw (spread_bytes c).3 (record {
            within = λ a lo hi. elim (dec_lt a (dst + 4)) [
              | yes low ↦ rest.kept a (inl low) ∙ ground arith
              | no high ↦ rest.within a (omega arith) (omega arith)
            ];
            kept = λ a out. rest.kept a (omega arith) ∙ ground arith;
          }))))

-- `memset` fills `n` bytes with the low byte of `c`, a byte or a word at a time, and changes
-- nothing else.
pub memset-Filled : (dst c n : ℕ) (m : Memory) → Filled dst n (c % 256) m (memset dst c n m)
unfolding memset
memset-Filled dst c n m = elim (Bool-cases ((dst % 4 == 0) && (n % 4 == 0))) [
  | inl words ↦
      let e : 4 * (n / 4) ≡ n = ground arith in
      let filled = stosl-Filled (n / 4) dst c m in rw words (rw e at filled)
  | inr bytes ↦ rw bytes (stosb-Filled n dst c m)
]
