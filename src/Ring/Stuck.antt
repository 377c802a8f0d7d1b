-- ===== src/Ring/Stuck.antt =====
-- Where the ring of include/ring.h does not work: a single producer never gets an object in, several
-- consumers never get one out, and a batch is written past the end of the ring.
use native.Mathlib.Nat.{mod-lt, div-eq_of_lt}
use cmt_tcp.Prelude.{
  ℕ, zero, suc, ◌+◌, ◌-◌, ◌*◌, ◌/◌, ◌%◌, ◌^◌, ◌<◌, ◌≤◌, ◌≡◌, refl, ap, fun_ext, true, false, ltb,
  ◌==◌, if◌then◌else◌, arith, add32, sub32, Bool-cases, inl, inr,
}
use cmt_tcp.Run.{ok, fault, out_of_bounds, pure, branch, gets, modify, ◌>>=◌}
use cmt_tcp.Ring.{
  Ring, place, size_bit, write, copy_in, copy_fours, enqueue_elms_64, mp_do_enqueue, sp_do_enqueue,
  cmt_ring_enqueue_bulk,
}
use cmt_tcp.Ring.Contents.{used, IsRing}

module _ (r : Ring) (v : IsRing r) where
  no_bit : size_bit r (sub32 (add32 r.mask r.cons_tail) r.prod_head) ≡ 0
  no_bit =
      let free : sub32 (add32 r.mask r.cons_tail) r.prod_head ≡ r.mask - used r =
        omega (arith, v.prod, v.prod_word, v.cons_word, v.small, v.held) in
      let none : (r.mask - used r) / (r.mask + 1) ≡ 0 = div-eq_of_lt (omega arith) in
      rw (free, none) (omega arith)

  -- With a single producer, no object ever gets into a ring in which no call is under way: however
  -- much room there is, a call for at least one object returns -1 and changes nothing.
  pub cmt_ring_enqueue_bulk-refused :
      (obj : ℕ → ℕ) (n : ℕ)
      → r.sp_enqueue ≡ 1
      → 0 < n
      → cmt_ring_enqueue_bulk obj n r ≡ ok (2 ^ 32 - 1, r)
  unfolding cmt_ring_enqueue_bulk sp_do_enqueue ◌>>=◌ pure branch gets
  cmt_ring_enqueue_bulk-refused obj n sp some_objects =
      let single : (r.sp_enqueue == 1) ≡ true = ground (arith, sp) in
      let asked : (n == 0) ≡ false = ground arith in
      let more : ltb 0 n ≡ true = ground arith in rw (single, asked, no_bit, more) refl

module _ (obj : ℕ → ℕ) where
  -- The unrolled copy does what the plain one does.
  pub copy_fours-copy_in :
      (q k i idx : ℕ) (r : Ring) → copy_fours obj q k i idx r ≡ copy_in obj (k + q * 4) i idx r
  unfolding copy_fours copy_in
  copy_fours-copy_in zero k i idx r =
      let e : k ≡ k + 0 * 4 = omega arith in ap (λ n. copy_in obj n i idx r) e
  copy_fours-copy_in (suc q) k i idx r =
      let n : k + suc q * 4 ≡ suc (suc (suc (suc (k + q * 4)))) = omega arith in
      let i2 : i + 1 + 1 ≡ i + 2 = omega arith in
      let i3 : i + 2 + 1 ≡ i + 3 = omega arith in
      let i4 : i + 3 + 1 ≡ i + 4 = omega arith in
      let d2 : idx + 1 + 1 ≡ idx + 2 = omega arith in
      let d3 : idx + 2 + 1 ≡ idx + 3 = omega arith in
      let d4 : idx + 3 + 1 ≡ idx + 4 = omega arith in
      let rest : copy_fours obj q k (i + 4) (idx + 4) ≡ copy_in obj (k + q * 4) (i + 4) (idx + 4) =
        fun_ext (copy_fours-copy_in q k (i + 4) (idx + 4)) in
      rw (n, i2, i3, i4, d2, d3, d4, rest) refl

  -- A copy that goes past the end writes outside the ring.
  copy_in-overruns :
      (n i idx : ℕ) (r : Ring)
      → idx ≤ r.size
      → r.size < idx + n
      → copy_in obj n i idx r ≡ fault out_of_bounds
  unfolding copy_in write ◌>>=◌
  copy_in-overruns zero i idx r low high = absurd (omega arith)
  copy_in-overruns (suc n) i idx r low high = elim (Bool-cases (ltb idx r.size)) [
    | inl lt ↦ rw lt (copy_in-overruns n (i + 1) (idx + 1) _ (ground arith) (omega arith))
    | inr ge ↦ rw ge refl
  ]

  -- A batch of two objects or more that several producers may put in, as far as the room goes, and
  -- that reaches past the end of the array is not wrapped round: the call writes outside the ring.
  pub mp_do_enqueue-overruns :
      (r : Ring) (n : ℕ)
      → IsRing r
      → 2 ≤ n
      → n ≤ r.mask - used r
      → r.size < place r r.prod_head + n
      → mp_do_enqueue obj n r ≡ fault out_of_bounds
  unfolding mp_do_enqueue enqueue_elms_64 ◌>>=◌ pure branch gets modify
  mp_do_enqueue-overruns r n v batch room past =
      let fits : ltb (sub32 (add32 r.mask r.cons_tail) r.prod_head) n ≡ false =
        ground (arith, v.prod, v.prod_word, v.cons_word, v.small, v.held) in
      let wide : ltb (if place r r.prod_head + n == 0 then 0 else 1) r.size ≡ true =
        ground (arith, v.masked) in
      let inside : place r r.prod_head < r.size = rw v.masked (mod-lt r.prod_head (omega arith)) in
      let all : n % 4 + n / 4 * 4 ≡ n = omega arith in
      let r' : Ring = record r { prod_head = add32 r.prod_head n } in
      let copied = copy_fours-copy_in (n / 4) (n % 4) 0 (place r r.prod_head) r' in
      let overrun = copy_in-overruns n 0 (place r r.prod_head) r' (omega (arith, inside)) past in
      rw (fits, wide, copied, all, overrun) refl
