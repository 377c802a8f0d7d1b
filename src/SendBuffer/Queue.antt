-- ===== src/SendBuffer/Queue.antt =====
-- The send buffer of src/tcp_buffer.c is a queue of bytes.
use cmt_tcp.Prelude.{
  ℕ, zero, suc, ◌+◌, ◌-◌, ◌^◌, ◌%◌, ◌≤◌, ◌<◌, min, ◌≡◌, refl, sym, ap, ◌∙◌, List, [], ◌∷◌, ◌++◌,
  arith, add32, sub32, length, take, drop, length-append, length-take, length-drop, inl, inr,
  Bool-cases, ltb, ◌==◌,
}
use cmt_tcp.Stream.{SendBuffer}
use cmt_tcp.SendBuffer.{sb_put, sb_remove, store_payload, rewind, copy_to, minus_two}

-- The bytes that wait to be acknowledged, oldest first.
abbrev pub contents : SendBuffer → List ℕ
contents b = take b.len (drop b.head b.bytes)

pub record IsBuffer (b : SendBuffer) : Type 0 where
  pub at_offset : b.head ≡ b.head_off
  pub payload : b.tail_off ≡ b.head_off + b.len
  pub room : b.tail_off ≤ b.size
  pub space : length b.bytes ≡ b.size
  pub small : b.size < 2 ^ 32

module _ {ℓ} {A : Type ℓ} where
  pub take-append : (xs ys : List A) → take (length xs) (xs ++ ys) ≡ xs
  take-append [] ys = refl
  take-append (x ∷ xs) ys = rw (take-append xs ys)

  pub drop-append : (xs ys : List A) → drop (length xs) (xs ++ ys) ≡ ys
  drop-append [] ys = refl
  drop-append (x ∷ xs) ys = drop-append xs ys

  -- What is written at the end of a window of `n` places from `h` lengthens the window.
  pub take-drop-copy :
      (h n t m : ℕ) (xs bytes rest : List A)
      → t ≡ h + n
      → m ≡ n + length xs
      → t ≤ length bytes
      → take m (drop h (take t bytes ++ (xs ++ rest))) ≡ take n (drop h bytes) ++ xs
  take-drop-copy zero zero zero m xs bytes rest e f p =
      let g : m ≡ length xs = omega arith in rw g (take-append xs rest)
  take-drop-copy zero zero (suc t) m xs bytes rest e f p = absurd (omega arith)
  take-drop-copy zero (suc n) t m xs [] rest e f p = absurd (omega arith)
  take-drop-copy zero (suc n) zero m xs (b ∷ bytes) rest e f p = absurd (omega arith)
  take-drop-copy zero (suc n) (suc t) zero xs (b ∷ bytes) rest e f p = absurd (omega arith)
  take-drop-copy zero (suc n) (suc t) (suc m) xs (b ∷ bytes) rest e f p =
      ap (λ l. b ∷ l)
        (take-drop-copy zero n t m xs bytes rest (omega arith) (omega arith) (omega arith))
  take-drop-copy (suc h) n t m xs [] rest e f p = absurd (omega arith)
  take-drop-copy (suc h) n zero m xs (b ∷ bytes) rest e f p = absurd (omega arith)
  take-drop-copy (suc h) n (suc t) m xs (b ∷ bytes) rest e f p =
      take-drop-copy h n t m xs bytes rest (omega arith) f (omega arith)

  pub length-copy_to :
      (off : ℕ) (xs bytes : List A)
      → off + length xs ≤ length bytes
      → length (take off bytes ++ (xs ++ drop (off + length xs) bytes)) ≡ length bytes
  length-copy_to off xs bytes p = omega (
    arith,
    length-append {ℓ} (take off bytes) (xs ++ drop (off + length xs) bytes),
    length-append {ℓ} xs (drop (off + length xs) bytes),
    length-take {ℓ} off bytes,
    length-drop {ℓ} (off + length xs) bytes,
  )

module _ (b : SendBuffer) (v : IsBuffer b) (xs : List ℕ) (fits : b.len + length xs ≤ b.size) where
  moved : List ℕ
  moved = copy_to 0 (contents b) b.bytes

  length-contents : length (contents b) ≡ b.len
  length-contents =
      omega (arith, v, length-take {0} b.len (drop b.head b.bytes), length-drop {0} b.head b.bytes)

  take-moved : take b.len moved ≡ contents b
  unfolding moved
  take-moved =
      ap (λ n. take n moved) (sym length-contents)
      ∙ take-append (contents b) (drop (0 + length (contents b)) b.bytes)

  length-moved : length moved ≡ b.size
  unfolding moved
  length-moved = length-copy_to 0 (contents b) b.bytes (omega (arith, v, length-contents)) ∙ v.space

  contents-store :
      take (b.len + length xs) (drop (store_payload b xs).head (store_payload b xs).bytes)
      ≡ contents b ++ xs
  unfolding store_payload moved
  contents-store = elim (Bool-cases (ltb (b.tail_off + length xs) b.size)) [
    | inl fits' ↦ rw fits' (
        take-drop-copy b.head b.len b.tail_off (b.len + length xs) xs b.bytes _ (omega (arith, v))
          refl (omega (arith, v)))
    | inr full ↦ rw full (
        take-drop-copy 0 b.len b.len (b.len + length xs) xs moved _ (omega arith) refl
          (omega (arith, v, length-moved))
        ∙ ap (λ l. l ++ xs) take-moved)
  ]

  IsBuffer-store :
      IsBuffer (record (store_payload b xs) { len = b.len + length xs })
      × ((store_payload b xs).size ≡ b.size)
      × ((store_payload b xs).len ≡ b.len)
      × ((store_payload b xs).cum_len ≡ b.cum_len)
      × ((store_payload b xs).head_seq ≡ b.head_seq)
  unfolding store_payload moved
  IsBuffer-store = elim (Bool-cases (ltb (b.tail_off + length xs) b.size)) [
    | inl fits' ↦ rw fits' (ground (arith, v, length-copy_to b.tail_off xs b.bytes))
    | inr full ↦ rw full (ground (arith, v, length-moved, length-copy_to b.len xs moved))
  ]

-- The bytes that a call of `SBPut` has room for.
abbrev pub taken : SendBuffer → List ℕ → ℕ
taken b xs = min (length xs) (b.size - b.len)

module _ (b : SendBuffer) (xs : List ℕ) (v : IsBuffer b) (data_given : 0 < length xs)
    (room : b.len < b.size) where
  sb_put_run : sb_put b xs ≡ (
    taken b xs,
    record (store_payload b (take (taken b xs) xs)) {
      len = b.len + taken b xs;
      cum_len = (b.cum_len + taken b xs) % 2 ^ 64;
    },
  )
  unfolding sb_put
  sb_put_run =
      let e : sub32 b.size b.len ≡ b.size - b.len = omega (arith, v) in
      rw e (
        ground
          (arith, v, length-take {0} (taken b xs) xs, IsBuffer-store b v (take (taken b xs) xs)))

  -- `SBPut` on a valid buffer with room takes the bytes that fit, at least one, appends exactly
  -- those to the queue, and keeps the buffer valid.
  pub sb_put_queue :
      ((sb_put b xs).0 ≡ taken b xs)
      × (0 < taken b xs)
      × (contents (sb_put b xs).1 ≡ contents b ++ take (taken b xs) xs)
      × IsBuffer (sb_put b xs).1
  sb_put_queue =
      let n = length-take {0} (taken b xs) xs in
      let e : length (take (taken b xs) xs) ≡ taken b xs = omega (arith, n) in
      let fits : b.len + length (take (taken b xs) xs) ≤ b.size = omega (arith, v, n) in
      let c = store_payload b (take (taken b xs) xs) in
      rw sb_put_run (
        refl,
        omega (arith, v),
        ap (λ k. take (b.len + k) (drop c.head c.bytes)) (sym e)
            ∙ contents-store b v (take (taken b xs) xs) fits,
        ground (arith, e, IsBuffer-store b v (take (taken b xs) xs)),
      )

-- `SBPut` on a full buffer returns -2 and changes nothing.
pub sb_put_full :
    (b : SendBuffer) (xs : List ℕ)
    → IsBuffer b
    → 0 < length xs
    → b.len ≡ b.size
    → sb_put b xs ≡ (minus_two, b)
unfolding sb_put
sb_put_full b xs v given full =
    let e : sub32 b.size b.len ≡ 0 = omega (arith, v) in rw e (ground arith)

module _ {ℓ} {A : Type ℓ} where
  drop-nil : (k : ℕ) → drop {A = A} k [] ≡ []
  drop-nil zero = refl
  drop-nil (suc k) = refl

  drop-take : (k n : ℕ) (xs : List A) → drop k (take n xs) ≡ take (n - k) (drop k xs)
  drop-take zero n xs = ap (λ m. take m xs) (omega arith)
  drop-take (suc k) zero xs = let e : 0 - suc k ≡ 0 = omega arith in rw e
  drop-take (suc k) (suc n) [] = sym (take-nil (suc n - suc k))
    where
      take-nil : (m : ℕ) → take {A = A} m [] ≡ []
      take-nil zero = refl
      take-nil (suc m) = refl
  drop-take (suc k) (suc n) (x ∷ xs) = drop-take k n xs ∙ ap (λ m. take m (drop k xs)) (omega arith)

  drop-drop : (h k : ℕ) (xs : List A) → drop k (drop h xs) ≡ drop (h + k) xs
  drop-drop zero k xs = ap (λ m. drop m xs) (omega arith)
  drop-drop (suc h) k [] = drop-nil k ∙ sym (drop-nil (suc h + k))
  drop-drop (suc h) k (x ∷ xs) =
      let e : suc (h + k) ≡ suc h + k = omega arith in
      drop-drop h k xs ∙ ap (λ m. drop m (x ∷ xs)) e

abbrev pub removed : SendBuffer → ℕ → ℕ
removed b n = min n b.len

contents-rewind : (b : SendBuffer) → contents (rewind b) ≡ contents b
contents-rewind b = elim (Bool-cases (b.len == 0)) [
  | inl e ↦ let z : b.len ≡ 0 = ground arith in rw z (ground arith)
  | inr e ↦ rw e
]

rewind-IsBuffer :
    (b : SendBuffer) → IsBuffer b → IsBuffer (rewind b) × ((rewind b).head_seq ≡ b.head_seq)
rewind-IsBuffer b v = ground arith

-- The buffer after `k` bytes are taken off, before the head is moved.
abbrev advance : SendBuffer → ℕ → SendBuffer
advance b k = record b {
  head_off = b.head_off + k;
  head = b.head_off + k;
  head_seq = add32 b.head_seq k;
  len = b.len - k;
}

module _ (b : SendBuffer) (n : ℕ) (v : IsBuffer b) (some_asked : 0 < n)
    (some_held : 0 < b.len) where
  sb_remove_run : sb_remove b n ≡ (removed b n, rewind (advance b (removed b n)))
  unfolding sb_remove
  sb_remove_run =
      let e : add32 b.head_off (removed b n) ≡ b.head_off + removed b n = omega (arith, v) in
      rw e (ground arith)

  -- `SBRemove` of at least one byte from a valid, nonempty buffer takes the oldest bytes off, as
  -- many as are asked for or all, moves `head_seq` on by their number, and keeps the buffer valid.
  pub sb_remove_queue :
      ((sb_remove b n).0 ≡ removed b n)
      × (contents (sb_remove b n).1 ≡ drop (removed b n) (contents b))
      × ((sb_remove b n).1.head_seq ≡ add32 b.head_seq (removed b n))
      × IsBuffer (sb_remove b n).1
  sb_remove_queue =
      let k = removed b n in
      let keep = rewind-IsBuffer (advance b k) (omega (arith, v)) in
      rw sb_remove_run (
        refl,
        contents-rewind (advance b k)
            ∙ (ap (λ h. take (b.len - k) (drop (h + k) b.bytes)) (sym v.at_offset)
                ∙ (ap (take (b.len - k)) (sym (drop-drop b.head k b.bytes))
                    ∙ sym (drop-take k b.len (drop b.head b.bytes)))),
        keep.1,
        keep.0,
      )
