-- ===== src/Rtt.antt =====
-- The round-trip estimate of src/tcp.c (`cmt_tcp_estimate_rtt`). `m` is a `long`, which is kept as
-- a difference of two numbers; the fields are 32-bit.
pub mod Estimate
use cmt_tcp.Prelude.{
  ℕ, ◌+◌, ◌-◌, ◌*◌, ◌/◌, ◌%◌, ◌^◌, Bool, ltb, ◌==◌, if◌then◌else◌, add32, sub32, max,
}
use cmt_tcp.Seq.{seq_gt}
use cmt_tcp.Stream.{Recv}

-- `rcv->mdev += m` of lines 969 to 981: where the measurement is shorter than the estimate, only
-- an eighth of what exceeds the deviation is added.
unfoldable pub next_mdev : ℕ → ℕ → ℕ → ℕ
next_mdev m srtt mdev =
    if ltb m (srtt / 8)
    then (if ltb (mdev / 4) (srtt / 8 - m)
        then add32 mdev ((srtt / 8 - m - mdev / 4) / 8)
        else sub32 mdev (mdev / 4 - (srtt / 8 - m)))
    else sub32 (add32 mdev (m - srtt / 8)) (mdev / 4)

-- Lines 982 to 987.
unfoldable pub raise_max : Recv → Recv
raise_max r =
    if ltb r.mdev_max r.mdev
    then record r { mdev_max = r.mdev; rttvar = if ltb r.rttvar r.mdev then r.mdev else r.rttvar }
    else r

-- Lines 989 to 995.
unfoldable pub close_window : ℕ → ℕ → Recv → Recv
unfolding seq_gt
close_window snd_una snd_nxt r =
    if seq_gt snd_una r.rtt_seq
    then record r {
      rttvar =
          if ltb r.mdev_max r.rttvar then sub32 r.rttvar (sub32 r.rttvar r.mdev_max) else r.rttvar;
      rtt_seq = snd_nxt;
      mdev_max = 0;
    }
    else r

unfoldable pub estimate_rtt : ℕ → ℕ → ℕ → Recv → Recv
unfolding next_mdev raise_max close_window
estimate_rtt mrtt snd_una snd_nxt r =
    let m = if mrtt == 0 then 1 else mrtt in
    if r.srtt == 0
    then record r {
      srtt = (m * 8) % 2 ^ 32;
      mdev = (m * 2) % 2 ^ 32;
      mdev_max = max ((m * 2) % 2 ^ 32) 0;
      rttvar = max ((m * 2) % 2 ^ 32) 0;
      rtt_seq = snd_nxt;
    }
    else close_window snd_una snd_nxt
        (raise_max (record r { srtt = add32 r.srtt 3; mdev = next_mdev m r.srtt r.mdev }))

-- `(srtt >> 3) + rttvar`
abbrev pub rto_of : Recv → ℕ
rto_of r = add32 (r.srtt / 8) r.rttvar
