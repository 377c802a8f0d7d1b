-- ===== src/Ring/Queue.antt =====
-- With several producers and one consumer the ring is a bounded queue of `mask` objects.
use native.Mathlib.Nat.{mod-lt, mod-mod_of_dvd}
use cmt_tcp.Prelude.{
  ℕ, suc, ◌+◌, ◌-◌, ◌%◌, ◌^◌, ◌<◌, ◌≡◌, refl, ap, sym, ◌∙◌, true, false, List, [], ◌∷◌, ◌++◌, ltb,
  ◌==◌, if◌then◌else◌, arith, add32, sub32, Bool-cases, inl, inr,
}
use cmt_tcp.Run.{ok, pure, branch, gets, modify, ◌>>=◌}
use cmt_tcp.Ring.{
  Ring, place, write, read, copy_in, copy_fours, enqueue_elms_64, copy_out, copy_out_fours,
  dequeue_elms_64, mp_do_enqueue, sc_do_dequeue, cmt_ring_enqueue_bulk, cmt_ring_enqueue,
}
use cmt_tcp.Ring.Contents.{items, used, contents, IsRing, items-write, items-cong}

module _ (r : Ring) (v : IsRing r) where
  positive : 0 < r.size
  positive = omega (arith, v.masked)

  -- The place of the next object.
  pub next_place : place r r.prod_head ≡ (r.cons_tail + used r) % r.size
  next_place =
      let e : r.prod_head ≡ (r.cons_tail + used r) % 2 ^ 32 =
        omega (arith, v.prod, v.prod_word, v.cons_word) in
      ap (λ m. r.prod_head % m) (sym v.masked)
      ∙ ap (λ k. k % r.size) e
      ∙ mod-mod_of_dvd r.size (r.cons_tail + used r) v.power

  place-lt : (index : ℕ) → place r index < r.size
  place-lt index = rw v.masked (mod-lt index (omega arith))

  abbrev with_object : ℕ → Ring
  with_object x = record r {
    prod_head = add32 r.prod_head 1;
    prod_tail = add32 r.prod_head 1;
    slots = λ i. if i == place r r.prod_head then x else r.slots i;
  }

  enqueued :
      (x : ℕ)
      → (r.sp_enqueue == 1) ≡ false
      → used r < r.mask
      → cmt_ring_enqueue x r ≡ ok (0, with_object x)
  unfolding cmt_ring_enqueue cmt_ring_enqueue_bulk mp_do_enqueue enqueue_elms_64 copy_fours copy_in
      write ◌>>=◌ pure branch gets modify
  enqueued x mp room =
      let fits : ltb (sub32 (add32 r.mask r.cons_tail) r.prod_head) 1 ≡ false =
        ground (arith, v.prod, v.prod_word, v.cons_word, v.small, room) in
      let wide : ltb (if place r r.prod_head + 1 == 0 then 0 else 1) r.size ≡ true =
        ground (arith, v.masked, room) in
      let inside : ltb (place r r.prod_head) r.size ≡ true = ground (arith, place-lt r.prod_head) in
      let alone : (r.prod_tail == r.prod_head) ≡ true = ground (arith, v.prod) in
      rw (mp, fits, wide, inside, alone) refl

  with_object-IsRing : (x : ℕ) → used r < r.mask → IsRing (with_object x)
  with_object-IsRing x room = record {
    masked = v.masked;
    power = v.power;
    small = v.small;
    prod = refl;
    cons = v.cons;
    prod_word = omega arith;
    cons_word = v.cons_word;
    held = omega (arith, v.prod, v.prod_word, v.cons_word, v.small, room);
  }

  contents-with_object : (x : ℕ) → used r < r.mask → contents (with_object x) ≡ contents r ++ x ∷ []
  unfolding contents
  contents-with_object x room =
      let more : used (with_object x) ≡ suc (used r) =
        omega (arith, v.prod, v.prod_word, v.cons_word, v.small, room) in
      ap (λ n. items (with_object x).slots r.size r.cons_tail n) more
      ∙ items-write r.size positive r.slots x (used r) r.cons_tail (place r r.prod_head)
          (omega (arith, room, v.masked)) next_place

  -- With several producers, a ring in which no call is under way and that holds fewer than `mask`
  -- objects takes one more at its end: the call returns 0.
  pub contents-cmt_ring_enqueue :
      (x : ℕ)
      → (r.sp_enqueue == 1) ≡ false
      → used r < r.mask
      → (r' : Ring) × (cmt_ring_enqueue x r ≡ ok (0, r'))
        × IsRing r'
        × (contents r' ≡ contents r ++ x ∷ [])
  contents-cmt_ring_enqueue x mp room =
      (with_object x, enqueued x mp room, with_object-IsRing x room, contents-with_object x room)

  abbrev without_oldest : Ring
  without_oldest = record r { cons_head = add32 r.cons_head 1; cons_tail = add32 r.cons_head 1 }

  dequeued :
      0 < used r → sc_do_dequeue 1 r ≡ ok ((1, r.slots (place r r.cons_head) ∷ []), without_oldest)
  unfolding sc_do_dequeue dequeue_elms_64 copy_out_fours copy_out read ◌>>=◌ pure branch gets modify
  dequeued some_held =
      let enough : ltb (sub32 r.prod_tail r.cons_head) 1 ≡ false =
        ground (arith, v.cons, some_held) in
      let inside : ltb (place r r.cons_head) r.size ≡ true = ground (arith, place-lt r.cons_head) in
      elim (Bool-cases (ltb (place r r.cons_head + 1) r.size)) [
        | inl short ↦ rw (enough, short, inside) refl
        | inr last ↦
            let at_end : r.size - place r r.cons_head ≡ 1 =
              ground (arith, last, place-lt r.cons_head) in
            rw (enough, last, at_end, inside) refl
      ]

  without_oldest-IsRing : 0 < used r → IsRing without_oldest
  without_oldest-IsRing some_held = record {
    masked = v.masked;
    power = v.power;
    small = v.small;
    prod = v.prod;
    cons = refl;
    prod_word = v.prod_word;
    cons_word = omega arith;
    held = omega (arith, v.held, v.cons, v.prod_word, v.cons_word, some_held);
  }

  contents-without_oldest :
      0 < used r → contents r ≡ r.slots (place r r.cons_head) ∷ contents without_oldest
  unfolding contents
  contents-without_oldest some_held =
      let fewer : used r ≡ suc (used without_oldest) =
        omega (arith, v.cons, v.prod_word, v.cons_word, some_held) in
      let oldest : r.cons_tail % r.size ≡ place r r.cons_head = rw (v.cons, v.masked) refl in
      let step : add32 r.cons_head 1 % r.size ≡ (r.cons_tail + 1) % r.size =
        mod-mod_of_dvd r.size (r.cons_head + 1) v.power ∙ ap (λ k. (k + 1) % r.size) v.cons in
      ap (λ n. items r.slots r.size r.cons_tail n) fewer
      ∙ ap (λ k. r.slots k ∷ items r.slots r.size (r.cons_tail + 1) (used without_oldest)) oldest
      ∙ ap (λ (l : List ℕ). r.slots (place r r.cons_head) ∷ l)
          (sym (
            items-cong r.size positive r.slots (used without_oldest) (add32 r.cons_head 1)
              (r.cons_tail + 1) step))

  -- The single consumer's call on a ring in which no call is under way and that holds an object
  -- gives the oldest one and takes it out: it returns 1.
  pub contents-sc_do_dequeue :
      0 < used r
      → (x : ℕ) × (r' : Ring) × (sc_do_dequeue 1 r ≡ ok ((1, x ∷ []), r'))
        × IsRing r'
        × (contents r ≡ x ∷ contents r')
  contents-sc_do_dequeue some_held = (
    r.slots (place r r.cons_head),
    without_oldest,
    dequeued some_held,
    without_oldest-IsRing some_held,
    contents-without_oldest some_held,
  )

  -- A ring in which no call is under way and that holds `mask` objects refuses one more: with several
  -- producers the call returns -1, and the ring is as it was.
  pub cmt_ring_enqueue_full :
      (x : ℕ)
      → (r.sp_enqueue == 1) ≡ false
      → used r ≡ r.mask
      → cmt_ring_enqueue x r ≡ ok (2 ^ 32 - 1, r)
  unfolding cmt_ring_enqueue cmt_ring_enqueue_bulk mp_do_enqueue enqueue_elms_64 copy_fours copy_in
      write ◌>>=◌ pure branch gets modify
  cmt_ring_enqueue_full x mp full =
      let none_left : sub32 (add32 r.mask r.cons_tail) r.prod_head ≡ 0 =
        omega (arith, v.prod, v.prod_word, v.cons_word, v.small, full) in
      let wide : ltb (if place r r.prod_head + 0 == 0 then 0 else 1) r.size ≡ true =
        ground (arith, place-lt r.prod_head) in
      let alone : (r.prod_tail == r.prod_head) ≡ true = ground (arith, v.prod) in
      let head : add32 r.prod_head 0 ≡ r.prod_head = omega (arith, v.prod, v.prod_word) in
      let tail : add32 r.prod_head 0 ≡ r.prod_tail = head ∙ v.prod in
      rw (mp, none_left, wide, alone)
        (λ i. ok (2 ^ 32 - 1, record r { prod_head = head i; prod_tail = tail i }))
