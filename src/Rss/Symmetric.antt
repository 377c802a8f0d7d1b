-- ===== src/Rss/Symmetric.antt =====
-- Both directions of a connection belong to one core: the key of src/rss.c repeats.
use cmt_tcp.Prelude.{
  ℕ, zero, suc, ◌+◌, ◌-◌, ◌/◌, ◌%◌, ◌^◌, ◌<◌, ◌≤◌, ◌≡◌, refl, sym, ap, ◌∙◌, Bool, true, ◌&&◌, ◌==◌,
  bit_xor, bit_xor_right_comm, arith, Bool-cases, inl, inr,
}
use cmt_tcp.Run.{ok}
use cmt_tcp.Rss.{key_at, absorb, get_rss_hash, masked, get_rss_cpu_core}

agree_below : ℕ → ℕ → Bool
agree_below zero d = true
agree_below (suc n) d = (key_at n == key_at (n + d)) && agree_below n d

agree_below_sound : (n d i : ℕ) → agree_below n d ≡ true → i < n → key_at i ≡ key_at (i + d)
unfolding agree_below
agree_below_sound zero d i h lt = absurd (omega arith)
agree_below_sound (suc n) d i h lt = ground (arith, agree_below_sound n d i)

repeats_16 : agree_below 80 16 ≡ true
unfolding agree_below key_at
repeats_16 = refl

repeats_32 : agree_below 64 32 ≡ true
unfolding agree_below key_at
repeats_32 = refl

-- A loop that starts where the key repeats does the same.
absorb-shift :
    (m d w n i word res : ℕ)
    → agree_below m d ≡ true
    → i + n ≤ m
    → absorb w n (i + d) word res ≡ absorb w n i word res
unfolding absorb
absorb-shift m d w zero i word res g h = refl
absorb-shift m d w (suc n) i word res g h =
    let place : i + d + 1 ≡ i + 1 + d = omega arith in
    let same = agree_below_sound m d i g (omega arith) in
    rw (place, same) (absorb-shift m d w n (i + 1) _ _ g (omega arith))

absorb-bit_xor :
    (w n i word res k : ℕ) → absorb w n i word (bit_xor res k) ≡ bit_xor (absorb w n i word res) k
unfolding absorb
absorb-bit_xor w zero i word res k = refl
absorb-bit_xor w (suc n) i word res k = elim (Bool-cases ((word / 2 ^ (w - 1)) % 2 == 1)) [
  | inl set ↦ rw set (rw (bit_xor_right_comm res k (key_at i)) (absorb-bit_xor w n (i + 1) _ _ k))
  | inr clear ↦ rw clear (absorb-bit_xor w n (i + 1) _ _ k)
]

-- Two loops may change places.
absorb_comm :
    (w n i word v m j word' res : ℕ)
    → absorb w n i word (absorb v m j word' res) ≡ absorb v m j word' (absorb w n i word res)
unfolding absorb
absorb_comm w zero i word v m j word' res = refl
absorb_comm w (suc n) i word v m j word' res = elim (Bool-cases ((word / 2 ^ (w - 1)) % 2 == 1)) [
  | inl set ↦
      rw set
        (rw (← absorb-bit_xor v m j word' res (key_at i)) (absorb_comm w n (i + 1) _ v m j word' _))
  | inr clear ↦ rw clear (absorb_comm w n (i + 1) _ v m j word' res)
]

-- The four loops, as if the second address and the second port began where the first ones do.
folded :
    (sip dip sp dp : ℕ)
    → get_rss_hash sip dip sp dp
      ≡ absorb 16 16 64 dp (absorb 16 16 64 sp (absorb 32 32 0 dip (absorb 32 32 0 sip 0)))
unfolding get_rss_hash
folded sip dip sp dp =
    absorb-shift 80 16 16 16 64 dp _ repeats_16 (omega arith)
    ∙ ap (λ (r : ℕ). absorb 16 16 64 dp (absorb 16 16 64 sp r))
        (absorb-shift 64 32 32 32 0 dip (absorb 32 32 0 sip 0) repeats_32 (omega arith))

get_rss_hash_swap : (sip dip sp dp : ℕ) → get_rss_hash sip dip sp dp ≡ get_rss_hash dip sip dp sp
get_rss_hash_swap sip dip sp dp =
    folded sip dip sp dp
    ∙ absorb_comm 16 16 64 dp 16 16 64 sp _
    ∙ ap (λ (r : ℕ). absorb 16 16 64 sp (absorb 16 16 64 dp r))
        (absorb_comm 32 32 0 dip 32 32 0 sip 0)
    ∙ sym (folded dip sip dp sp)

-- With at least one queue there is a core for every connection, below the number of queues, and it
-- is the same for the packets of both directions, on either kind of card.
pub get_rss_cpu_core_swap :
    (sip dip sp dp num_queues : ℕ) (endian_check : Bool)
    → 0 < num_queues
    → (core : ℕ) × (get_rss_cpu_core sip dip sp dp num_queues endian_check ≡ ok core)
      × (get_rss_cpu_core dip sip dp sp num_queues endian_check ≡ ok core)
      × (core < num_queues)
unfolding get_rss_cpu_core
get_rss_cpu_core_swap sip dip sp dp num_queues endian_check h = (
  masked endian_check (get_rss_hash sip dip sp dp) % num_queues,
  ground arith,
  rw (get_rss_hash_swap dip sip dp sp) (ground arith),
  ground arith,
)
