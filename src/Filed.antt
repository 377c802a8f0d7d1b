-- ===== src/Filed.antt =====
-- What ties the flags of a stream to the six lists of its manager.
use cmt_tcp.Prelude.{
  ℕ, ◌≡◌, Option, none, some, List, [], ◌∷◌, ◌++◌, arith, count, erase, count-snoc, count-erase,
  ◌==◌, if◌then◌else◌,
}
use cmt_tcp.Stream.{Ctx}
use cmt_tcp.Member.{IsMember}

-- How often a stream with the slot `o` has to stand in slot `j` of the retransmission store.
abbrev pub in_slot : Option ℕ → ℕ → ℕ
in_slot none j = 0
in_slot (some k) j = if k == j then 1 else 0

pub record InSlots (id : ℕ) (o : Option ℕ) (f : ℕ → List ℕ) : Type 0 where
  pub at : (j : ℕ) → count id (f j) ≡ in_slot o j

-- Each flag is set exactly when the stream stands in its list, where it stands once; each counter
-- is its list's length; and `on_rto_idx` names the one slot that holds the stream.
abbrev pub IsFiled : Ctx → Type 0
IsFiled c =
    IsMember c.cur.id c.cur.snd.on_ack_list c.tcp.sender.ack_list c.tcp.sender.ack_list_cnt
    × IsMember c.cur.id c.cur.snd.on_control_list c.tcp.sender.control_list
        c.tcp.sender.control_list_cnt
    × IsMember c.cur.id c.cur.snd.on_send_list c.tcp.sender.send_list c.tcp.sender.send_list_cnt
    × IsMember c.cur.id c.cur.on_timewait_list c.tcp.timewait_list c.tcp.timewait_list_cnt
    × IsMember c.cur.id c.cur.on_timeout_list c.tcp.timeout_list c.tcp.timeout_list_cnt
    × InSlots c.cur.id c.cur.on_rto_idx c.tcp.rto_store.rto_list

module _ (id k : ℕ) (f : ℕ → List ℕ) where
  pub InSlots-put :
      InSlots id none f → InSlots id (some k) (λ j. if k == j then f k ++ id ∷ [] else f j)
  InSlots-put h = record { at = λ j. ground (arith, h.at j, h.at k, count-snoc id id (f k)) }

  pub InSlots-drop :
      InSlots id (some k) f → InSlots id none (λ j. if k == j then erase id (f k) else f j)
  InSlots-drop h = record { at = λ j. ground (arith, h.at j, h.at k, count-erase id id (f k)) }
