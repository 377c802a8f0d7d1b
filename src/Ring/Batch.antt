-- ===== src/Ring/Batch.antt =====
-- A batch of objects that several producers may put in, and that does not reach past the array.
use native.Mathlib.Nat.{mod-lt, mod-add-mod, mod-eq_of_lt}
use cmt_tcp.Prelude.{
  ℕ, zero, suc, ◌+◌, ◌-◌, ◌*◌, ◌/◌, ◌%◌, ◌<◌, ◌≤◌, ◌≡◌, refl, ap, sym, ◌∙◌, true, ltb, List, [],
  ◌∷◌, ◌++◌, append_assoc, append-nil, ◌==◌, if◌then◌else◌, arith, add32, sub32, min,
}
use cmt_tcp.Run.{ok, pure, branch, gets, modify, ◌>>=◌}
use cmt_tcp.Ring.{Ring, place, write, copy_in, enqueue_elms_64, mp_do_enqueue}
use cmt_tcp.Ring.Contents.{items, used, contents, IsRing, items-write}
use cmt_tcp.Ring.Queue.{next_place}
use cmt_tcp.Ring.Stuck.{copy_fours-copy_in}

-- The objects `obj[i]`, `obj[i + 1]` and so on, `n` in all.
unfoldable pub batch : (ℕ → ℕ) → ℕ → ℕ → List ℕ
batch obj i zero = []
batch obj i (suc n) = obj i ∷ batch obj (i + 1) n

-- How many objects of a batch of `n` there is room for.
abbrev pub taken_in : Ring → ℕ → ℕ
taken_in r n = min n (r.mask - used r)

-- The ring after the call, with these entries.
abbrev pub with_batch : Ring → ℕ → (ℕ → ℕ) → Ring
with_batch r n slots = record r {
  prod_head = add32 r.prod_head (taken_in r n);
  prod_tail = add32 r.prod_head (taken_in r n);
  slots = slots;
}

module _ (obj : ℕ → ℕ) where
  abbrev Filled : Ring → ℕ → ℕ → ℕ → ℕ → ℕ → (ℕ → ℕ) → Type 0
  Filled r n i idx h m slots =
      (copy_in obj n i idx r ≡ ok (tt, record r { slots = slots }))
      × (items slots r.size h (m + n) ≡ items r.slots r.size h m ++ batch obj i n)

  copy_in-items :
      (n i idx h m : ℕ) (r : Ring)
      → idx + n ≤ r.size
      → m + n < r.size
      → (0 < n → idx ≡ (h + m) % r.size)
      → (slots : ℕ → ℕ) × Filled r n i idx h m slots
  unfolding copy_in write ◌>>=◌ batch pure
  copy_in-items zero i idx h m r inside room behind =
      (r.slots, (refl, ap (items r.slots r.size h) (omega arith) ∙ sym (append-nil _)))
  copy_in-items (suc n) i idx h m r inside room behind =
      let here : ltb idx r.size ≡ true = ground (arith, inside) in
      let slots1 : ℕ → ℕ = λ j. if j == idx then obj i else r.slots j in
      let at_idx = behind (omega arith) in
      let one = items-write r.size (omega arith) r.slots (obj i) m h idx (omega arith) at_idx in
      let on : 0 < n → idx + 1 ≡ (h + (m + 1)) % r.size = λ more.
        (let small : (idx + 1) % r.size ≡ idx + 1 = mod-eq_of_lt (omega arith) in
          sym small
          ∙ ap (λ k. (k + 1) % r.size) at_idx
          ∙ mod-add-mod (h + m) r.size 1
          ∙ ap (λ k. k % r.size) (omega arith)) in
      let (slots, (done, holds)) =
        copy_in-items n (i + 1) (idx + 1) h (m + 1) (record r { slots = slots1 }) (omega arith)
          (omega arith) on in
      (
        slots,
        (
          rw here done,
          ap (items slots r.size h) (omega arith)
              ∙ holds
              ∙ ap (λ (xs : List ℕ). xs ++ batch obj (i + 1) n)
                  (ap (items slots1 r.size h) (omega arith) ∙ one)
              ∙ append_assoc (items r.slots r.size h m) (obj i ∷ []) (batch obj (i + 1) n),
        ),
      )

  module _ (r : Ring) (n : ℕ) (v : IsRing r) where
    room_left : sub32 (add32 r.mask r.cons_tail) r.prod_head ≡ r.mask - used r
    room_left = omega (arith, v.prod, v.prod_word, v.cons_word, v.small, v.held)

    with_batch-IsRing : (slots : ℕ → ℕ) → IsRing (with_batch r n slots)
    with_batch-IsRing slots = record {
      masked = v.masked;
      power = v.power;
      small = v.small;
      prod = refl;
      cons = v.cons;
      prod_word = omega arith;
      cons_word = v.cons_word;
      held = omega (arith, v.prod, v.prod_word, v.cons_word, v.small, v.held);
    }

    run :
        (slots : ℕ → ℕ)
        → copy_in obj
            (taken_in r n)
            0
            (place r r.prod_head)
            (record r { prod_head = add32 r.prod_head (taken_in r n) })
          ≡ ok (tt, record r { prod_head = add32 r.prod_head (taken_in r n); slots = slots })
        → mp_do_enqueue obj n r ≡ ok ((taken_in r n), with_batch r n slots)
    unfolding mp_do_enqueue enqueue_elms_64 ◌>>=◌ pure branch gets modify
    run slots done =
        let k = (taken_in r n) in
        let granted : (if ltb (r.mask - used r) n then r.mask - used r else n) ≡ k = ground arith in
        let inside : place r r.prod_head < r.size =
          rw v.masked (mod-lt r.prod_head (omega arith)) in
        let wide : ltb (if place r r.prod_head + k == 0 then 0 else 1) r.size ≡ true =
          ground (arith, v.masked, inside) in
        let all : k % 4 + k / 4 * 4 ≡ k = omega arith in
        let alone : (r.prod_tail == r.prod_head) ≡ true = ground (arith, v.prod) in
        let copied =
          copy_fours-copy_in obj (k / 4) (k % 4) 0 (place r r.prod_head)
            (record r { prod_head = add32 r.prod_head k }) in
        rw (room_left, granted, wide, copied, all, done, alone) refl

    contents-with_batch :
        (slots : ℕ → ℕ)
        → items slots r.size r.cons_tail (used r + (taken_in r n))
          ≡ items r.slots r.size r.cons_tail (used r) ++ batch obj 0 (taken_in r n)
        → contents (with_batch r n slots) ≡ contents r ++ batch obj 0 (taken_in r n)
    unfolding contents
    contents-with_batch slots holds =
        let more : used (with_batch r n slots) ≡ used r + (taken_in r n) =
          omega (arith, v.prod, v.prod_word, v.cons_word, v.small, v.held) in
        ap (items slots r.size r.cons_tail) more ∙ holds

    abbrev pub Appends : (ℕ → ℕ) → Type 0
    Appends slots =
        (mp_do_enqueue obj n r ≡ ok (taken_in r n, with_batch r n slots))
        × IsRing (with_batch r n slots)
        × (contents (with_batch r n slots) ≡ contents r ++ batch obj 0 (taken_in r n))

    -- With several producers, of a batch for a ring in which no call is under way as many objects go
    -- in as there is room for, in their order and behind the others, and the call returns how many;
    -- provided that they do not reach past the end of the array.
    pub contents-mp_do_enqueue :
        place r r.prod_head + (taken_in r n) ≤ r.size → (slots : ℕ → ℕ) × Appends slots
    contents-mp_do_enqueue fits =
        let (slots, (done, holds)) =
          copy_in-items (taken_in r n) 0 (place r r.prod_head) r.cons_tail (used r)
            (record r { prod_head = add32 r.prod_head (taken_in r n) }) fits
            (omega (arith, v.held, v.masked)) (λ some_objects. next_place r v) in
        (slots, (run slots done, with_batch-IsRing slots, contents-with_batch slots holds))
