-- ===== src/Timer/Lists.antt =====
-- The timer lists of src/timer.c hold a stream exactly when its flags say so.
use cmt_tcp.Prelude.{ℕ, ◌≡◌, refl, ap, ◌∙◌, Bool, true, false, Option, none, some, arith}
use cmt_tcp.Run.Keeps.{
  Triple, Keeps, Triple-weaken, Triple-strengthen, Triple-read, Triple-branch, Triple-bind,
  Keeps-bind, keeps_rules,
}
use cmt_tcp.Stream.{Stream, Ctx}
use cmt_tcp.Member.{IsMember-join, IsMember-leave, IsMember-requeue}
use cmt_tcp.Filed.{IsFiled, InSlots-put, InSlots-drop}
use cmt_tcp.Timer.{
  requeue_timewait, start_store, leave_slot, enter_slot, enter_timewait, add_to_rto_list,
  remove_from_rto_list, add_to_timewait_list, remove_from_timewait_list, add_to_timeout_list,
  remove_from_timeout_list, update_timeout_list, update_retransmission_timer,
}

-- A filed stream, waiting in TIME_WAIT or not.
abbrev Waits : Bool → Ctx → Type 0
Waits b c = IsFiled c × (c.cur.on_timewait_list ≡ b)

leave_slot-IsFiled :
    (b : Bool) (o : Option ℕ)
    → Triple
        (λ c. Waits b c × (c.cur.on_rto_idx ≡ o))
        (leave_slot o)
        (λ c. Waits b c × (c.cur.on_rto_idx ≡ none))
unfolding remove_from_rto_list
leave_slot-IsFiled b none = record { at = λ c h. h }
leave_slot-IsFiled b (some k) = record {
  at = λ c h. ground (arith, InSlots-drop c.cur.id k c.tcp.rto_store.rto_list);
}

pub remove_from_rto_list-IsFiled :
    (b : Bool) → Triple (Waits b) remove_from_rto_list (λ c. Waits b c × (c.cur.on_rto_idx ≡ none))
unfolding remove_from_rto_list
remove_from_rto_list-IsFiled b = record {
  at = λ c h. (leave_slot-IsFiled b c.cur.on_rto_idx).at c (h, refl);
}

pub remove_from_rto_list-Keeps : Keeps IsFiled remove_from_rto_list
remove_from_rto_list-Keeps = record {
  at = λ c h. (Triple-weaken (λ s p. p.0.0) (remove_from_rto_list-IsFiled _)).at c (h, refl);
}

enter_slot-IsFiled :
    (o : Option ℕ) (k : ℕ)
    → Triple (λ c. IsFiled c × (c.cur.on_rto_idx ≡ o)) (enter_slot o k) IsFiled
unfolding add_to_rto_list
enter_slot-IsFiled (some j) k = record { at = λ c h. h.0 }
enter_slot-IsFiled none k = record {
  at = λ c h. ground (arith, InSlots-put c.cur.id k c.tcp.rto_store.rto_list);
}

pub add_to_rto_list-IsFiled : Keeps IsFiled add_to_rto_list
unfolding add_to_rto_list
add_to_rto_list-IsFiled = record {
  at = λ c h.
      (enter_slot-IsFiled c.cur.on_rto_idx _).at
        (record c { tcp = start_store c.cur.snd.ts_rto c.tcp }) (ground arith, refl);
}

enter_timewait-IsFiled :
    Triple
      (λ c. (IsFiled c × (c.cur.on_timewait_list ≡ false)) × (c.cur.on_rto_idx ≡ none))
      enter_timewait
      IsFiled
unfolding enter_timewait
enter_timewait-IsFiled = record {
  at = λ c h. ground (arith, IsMember-join c.cur.id c.tcp.timewait_list_cnt c.tcp.timewait_list);
}

pub remove_from_timewait_list-IsFiled : Keeps IsFiled remove_from_timewait_list
unfolding remove_from_timewait_list
remove_from_timewait_list-IsFiled = record {
  at = λ c h. ground (arith, IsMember-leave c.cur.id c.tcp.timewait_list_cnt c.tcp.timewait_list);
}

pub add_to_timeout_list-IsFiled : Keeps IsFiled add_to_timeout_list
unfolding add_to_timeout_list
add_to_timeout_list-IsFiled = record {
  at = λ c h. ground (arith, IsMember-join c.cur.id c.tcp.timeout_list_cnt c.tcp.timeout_list);
}

pub remove_from_timeout_list-IsFiled : Keeps IsFiled remove_from_timeout_list
unfolding remove_from_timeout_list
remove_from_timeout_list-IsFiled = record {
  at = λ c h. ground (arith, IsMember-leave c.cur.id c.tcp.timeout_list_cnt c.tcp.timeout_list);
}

pub update_timeout_list-IsFiled : Keeps IsFiled update_timeout_list
unfolding update_timeout_list
update_timeout_list-IsFiled = record {
  at = λ c h. ground (arith, IsMember-requeue c.cur.id c.tcp.timeout_list_cnt c.tcp.timeout_list);
}

requeue-IsFiled :
    (s : Stream)
    → s.on_timewait_list ≡ true
    → Triple (λ c. IsFiled c × (c.cur ≡ s)) (requeue_timewait s.id) IsFiled
unfolding requeue_timewait
requeue-IsFiled s on = record {
  at = λ c h. ground (arith, IsMember-requeue s.id c.tcp.timewait_list_cnt c.tcp.timewait_list);
}

is_off :
    (s : Stream)
    → s.on_timewait_list ≡ false
    → (c : Ctx) → c.cur ≡ s
    → c.cur.on_timewait_list ≡ false
is_off s off c e = ap (λ (x : Stream). x.on_timewait_list) e ∙ off

pub add_to_timewait_list-IsFiled : (ts : ℕ) → Keeps IsFiled (add_to_timewait_list ts)
unfolding add_to_timewait_list
add_to_timewait_list-IsFiled ts = Keeps-bind _ _ (search keeps_rules) λ _. Triple-read _ _ λ s.
    Triple-branch _ _ _ (requeue-IsFiled s) λ off.
      Triple-bind _ _
        (Triple-strengthen (λ c h. (h.0, is_off s off c h.1)) (remove_from_rto_list-IsFiled false))
        (λ _. enter_timewait-IsFiled)

pub update_retransmission_timer-IsFiled : (ts : ℕ) → Keeps IsFiled (update_retransmission_timer ts)
unfolding update_retransmission_timer
update_retransmission_timer-IsFiled ts =
    search (keeps_rules, remove_from_rto_list-Keeps, add_to_rto_list-IsFiled) depth 12

pub ruleset timer_filed = (
  remove_from_rto_list-Keeps, add_to_rto_list-IsFiled, add_to_timewait_list-IsFiled,
  remove_from_timewait_list-IsFiled, add_to_timeout_list-IsFiled, remove_from_timeout_list-IsFiled,
  update_timeout_list-IsFiled, update_retransmission_timer-IsFiled,
)
