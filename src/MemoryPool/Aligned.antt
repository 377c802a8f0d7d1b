-- ===== src/MemoryPool/Aligned.antt =====
-- Aligned memory: `aligned_malloc`, `aligned_free`, `cmt_pmemalign` and `cmt_pmemfree` of
-- src/cmt_memory_pool.c. What the allocator returns is a parameter.
use cmt_tcp.Prelude.{
  ℕ, ◌+◌, ◌-◌, ◌*◌, ◌/◌, ◌%◌, ◌^◌, ◌<◌, ◌≤◌, ◌≡◌, refl, subst, Option, none, some, arith, ◌==◌,
  ==_refl, if◌then◌else◌, bit_and, and_high,
}
use cmt_tcp.Run.{null_pointer, Outcome, ok, fault}
use native.Mathlib.Nat.{div-mul-le_self, lt-div-mul-add, mul-mod_left, one-le-pow}

-- `size_t` sums.
abbrev pub add64 : ℕ → ℕ → ℕ
add64 a b = (a + b) % 2 ^ 64

-- `x & ~(align - 1)`
unfoldable pub round_down : ℕ → ℕ → ℕ
round_down align x = bit_and x (2 ^ 64 - align)

-- `align - 1 + size`
abbrev pub place_offset : ℕ → ℕ → ℕ
place_offset align size = add64 (add64 align (2 ^ 64 - 1)) size

-- `p2[-1]`, the word eight bytes before `p2`.
abbrev pub word_before : ℕ → ℕ
word_before p2 = add64 p2 (2 ^ 64 - 8)

-- An address, and the words of memory.
unfoldable pub mark : ℕ → ℕ → (ℕ → ℕ) → Option ℕ × (ℕ → ℕ)
mark p1 p2 words = (some p2, λ k. if k == word_before p2 then p1 else words k)

-- Under a mask that is a power of two stands the last multiple of it.
round_down-multiple : (k x : ℕ) → k < 64 → x < 2 ^ 64 → round_down (2 ^ k) x ≡ x / 2 ^ k * 2 ^ k
unfolding round_down
round_down-multiple k x low small =
    let all : k + (64 - k) ≡ 64 = omega arith in
    subst (λ n. x < 2 ^ n → bit_and x (2 ^ n - 2 ^ k) ≡ x / 2 ^ k * 2 ^ k) all
      (and_high k (64 - k) x) small

-- The last multiple of `2 ^ k` in the `2 ^ k - 1` places from `p1 + off` on.
aligned_place :
    (k p1 off : ℕ)
    → k < 64
    → p1 + 2 ^ k + off ≤ 2 ^ 64
    → (round_down (2 ^ k) (add64 p1 (place_offset (2 ^ k) off)) % 2 ^ k ≡ 0)
      × (p1 + off ≤ round_down (2 ^ k) (add64 p1 (place_offset (2 ^ k) off)))
      × (round_down (2 ^ k) (add64 p1 (place_offset (2 ^ k) off)) + 1 ≤ p1 + 2 ^ k + off)
aligned_place k p1 off low fits =
    let pos : 0 < 2 ^ k = one-le-pow k 2 (omega arith) in
    let x = p1 + (2 ^ k - 1 + off) in
    let plain : add64 p1 (place_offset (2 ^ k) off) ≡ x = omega (arith, pos, fits) in
    let multiple = round_down-multiple k x low (omega (arith, pos, fits)) in
    rw (plain, multiple)
      (
        mul-mod_left (x / 2 ^ k) (2 ^ k),
        omega (arith, lt-div-mul-add {a = x} pos, pos),
        omega (arith, div-mul-le_self x (2 ^ k), pos),
      )

module _ (align size : ℕ) where
  abbrev pub pmem_total : ℕ
  pmem_total = add64 (place_offset align size) size

  unfoldable pub pmemalign : (ℕ → Option ℕ) → (ℕ → ℕ) → Option ℕ × (ℕ → ℕ)
  unfolding mark round_down
  pmemalign palloc words = elim (palloc pmem_total) [
    | none ↦ (none, words)
    | some p1 ↦ mark p1 (round_down align (add64 p1 (place_offset align size))) words
  ]

  -- What `cmt_pfree` is called with.
  unfoldable pub pmemfree : ℕ → (ℕ → ℕ) → ℕ × ℕ
  pmemfree p words = (words (word_before p), pmem_total)

-- An aligned piece of at least eight bytes, for an alignment that is a power of two, where the
-- memory that was got lies below 2 ^ 64: it starts at a multiple of the alignment, it and the word
-- before it stand in the memory that was got, and giving it back gives back exactly that memory.
pub pmemalign-pmemfree :
    (k size : ℕ) (palloc : ℕ → Option ℕ) (words : ℕ → ℕ) (p1 : ℕ)
    → k < 64
    → 8 ≤ size
    → palloc (pmem_total (2 ^ k) size) ≡ some p1
    → p1 + 2 ^ k + size + size ≤ 2 ^ 64
    → (p2 : ℕ) × (words' : ℕ → ℕ) × (pmemalign (2 ^ k) size palloc words ≡ (some p2, words'))
      × (p2 % 2 ^ k ≡ 0)
      × (p1 + 8 ≤ p2)
      × (p2 + size ≤ p1 + pmem_total (2 ^ k) size)
      × (pmemfree (2 ^ k) size p2 words' ≡ (p1, pmem_total (2 ^ k) size))
unfolding pmemalign pmemfree mark
pmemalign-pmemfree k size palloc words p1 low big e fits =
    let p2 = round_down (2 ^ k) (add64 p1 (place_offset (2 ^ k) size)) in
    let (multiple, from, to) = aligned_place k p1 size low (omega (arith, fits)) in
    let pos : 0 < 2 ^ k = one-le-pow k 2 (omega arith) in
    (
      p2,
      (mark p1 p2 words).1,
      rw (pmemalign, e) refl,
      multiple,
      omega (arith, from, big),
      omega (arith, to, pos, fits),
      rw (==_refl (word_before p2)) refl,
    )

-- The same with one word for the mark, straight from `malloc` and back to `free`.
module _ (align required_bytes : ℕ) where
  abbrev pub malloc_total : ℕ
  malloc_total = add64 required_bytes (place_offset align 8)

  -- The test for NULL asks about 1, so that the mark is written whatever `malloc` returned.
  unfoldable pub aligned_malloc : (ℕ → Option ℕ) → (ℕ → ℕ) → Outcome (Option ℕ × (ℕ → ℕ))
  unfolding mark round_down
  aligned_malloc malloc words = elim (malloc malloc_total) [
    | none ↦ fault null_pointer
    | some p1 ↦ ok (mark p1 (round_down align (add64 p1 (place_offset align 8))) words)
  ]

-- What `free` is called with.
unfoldable pub aligned_free : ℕ → (ℕ → ℕ) → ℕ
aligned_free p2 words = words (word_before p2)

pub aligned_malloc-aligned_free :
    (k required_bytes : ℕ) (malloc : ℕ → Option ℕ) (words : ℕ → ℕ) (p1 : ℕ)
    → k < 64
    → malloc (malloc_total (2 ^ k) required_bytes) ≡ some p1
    → p1 + 2 ^ k + 8 + required_bytes ≤ 2 ^ 64
    → (p2 : ℕ) × (words' : ℕ → ℕ) × (aligned_malloc (2 ^ k) required_bytes malloc words
        ≡ ok (some p2, words'))
      × (p2 % 2 ^ k ≡ 0)
      × (p1 + 8 ≤ p2)
      × (p2 + required_bytes ≤ p1 + malloc_total (2 ^ k) required_bytes)
      × (aligned_free p2 words' ≡ p1)
unfolding aligned_malloc aligned_free mark
aligned_malloc-aligned_free k required_bytes malloc words p1 low e fits =
    let p2 = round_down (2 ^ k) (add64 p1 (place_offset (2 ^ k) 8)) in
    let (multiple, from, to) = aligned_place k p1 8 low (omega (arith, fits)) in
    let pos : 0 < 2 ^ k = one-le-pow k 2 (omega arith) in
    (
      p2,
      (mark p1 p2 words).1,
      rw (aligned_malloc, e) refl,
      multiple,
      from,
      omega (arith, to, pos, fits),
      rw (==_refl (word_before p2)) refl,
    )
