-- ===== src/States/Settled.antt =====
-- A segment never leaves a stream on the TIME_WAIT list and in a retransmission slot at once: the
-- handlers of src/tcp.c, from the parts that move a stream to the list.
use cmt_tcp.Prelude.{ℕ, ◌≡◌, refl}
use cmt_tcp.Run.{◌>>◌}
use cmt_tcp.Run.Keeps.{
  Triple, Keeps, Triple-weaken, Triple-modify, Triple-pure, Triple-branch, Triple-bind, Keeps-gets,
  Triple-stop,
}
use cmt_tcp.Stream.{time_wait, Stream, Act, set_cur}
use cmt_tcp.States.Lists.{addto_controllist-InState, update_retransmission_timer-InState}
use cmt_tcp.States.Link.{
  Settled, Off, settle, Waiting, add_to_timewait_list-Waiting, remove_from_timewait_list-Waiting,
  addto_controllist-Settled,
}
use cmt_tcp.States.Moves.{take_payload-InState, take_ack-InState, note_fin_acked-InState}
use cmt_tcp.Timer.{add_to_timewait_list}
use cmt_tcp.Segment.{Segment, Env}
use cmt_tcp.Handlers.{
  take_fin_1, handle_fin_wait_1, take_fin_2, handle_fin_wait_2, finish_closing, handle_closing,
}
use cmt_tcp.Process.{in_time_wait}

Off-Waiting :
    (f : Stream → Stream)
    → ((s : Stream) → (f s).state ≡ time_wait)
    → ((s : Stream) → (f s).on_timewait_list ≡ s.on_timewait_list)
    → Triple Off (set_cur f) Waiting
Off-Waiting f st fl = Triple-modify _ (λ c h. rw (st c.cur, fl c.cur, h) (tt, refl))

wait :
    (f : Stream → Stream) (ts : ℕ)
    → ((s : Stream) → (f s).state ≡ time_wait)
    → ((s : Stream) → (f s).on_timewait_list ≡ s.on_timewait_list)
    → Triple Off (set_cur f >> add_to_timewait_list ts) Settled
wait f ts st fl =
    Triple-bind _ _ (Off-Waiting f st fl)
      (λ _. Triple-weaken (λ c h. h.0) (add_to_timewait_list-Waiting ts))

Off-Settled : {A : Type 0} (m : Act A) → Keeps Off m → Triple Off m Settled
Off-Settled m k = Triple-weaken settle k

Waiting-Settled : {A : Type 0} (m : Act A) → Keeps Waiting m → Triple Waiting m Settled
Waiting-Settled m k = Triple-weaken (λ c h. h.0) k

module _ (e : Env) (g : Segment) where
  take_fin_2-Settled : Triple Off (take_fin_2 e g) Settled
  unfolding take_fin_2
  take_fin_2-Settled = Triple-bind {R = Off} _ _ (Keeps-gets _) λ s.
      Triple-branch _ _ _
        (λ _. Triple-bind {R = Waiting} _ _ (Off-Waiting _ (λ s. refl) (λ s. refl)) (λ _.
          Triple-bind {R = Settled} _ _
            (Triple-weaken (λ c h. h.0) (add_to_timewait_list-Waiting _))
            (λ _. addto_controllist-Settled)))
        (λ _. Triple-pure tt settle)

  take_fin_1-Settled : Triple Off (take_fin_1 e g) Settled
  unfolding take_fin_1
  take_fin_1-Settled = Triple-bind {R = Off} _ _ (Keeps-gets _) λ s.
      Triple-branch _ _ _
        (λ _. Triple-bind {R = Off} _ _ (Triple-modify _ (λ c h. h)) λ _.
          Triple-bind {R = Settled} _ _
            (Triple-branch _ _ _ (λ _. Triple-modify _ (λ c h. rw h tt))
              (λ _.
                Triple-branch _ _ _ (λ _. wait _ _ (λ s. refl) (λ s. refl)) (λ _. Triple-stop _)))
            (λ _. addto_controllist-Settled))
        (λ _. Triple-pure tt settle)

  finish_closing-Settled : Triple Off (finish_closing e g) Settled
  unfolding finish_closing
  finish_closing-Settled = Triple-bind {R = Off} _ _ (Keeps-gets _) λ s.
      Triple-branch _ _ _ (λ _. Triple-pure tt settle)
        (λ _. Triple-bind {R = Off} _ _ (Triple-modify _ (λ c h. h)) λ _.
          Triple-bind {R = Off} _ _ (Triple-modify _ (λ c h. h)) λ _.
            Triple-bind {R = Off} _ _ (update_retransmission_timer-InState _ e.now)
              λ _. wait _ _ (λ s. refl) (λ s. refl))

  pub handle_closing-Settled : Triple Off (handle_closing e g) Settled
  unfolding handle_closing
  handle_closing-Settled = Triple-bind {R = Off} _ _ (Keeps-gets _) λ s.
      Triple-branch _ _ _
        (λ _. Triple-bind {R = Off} _ _ (take_ack-InState _ e g _) λ _. finish_closing-Settled)
        (λ _. Triple-pure tt settle)

  pub handle_fin_wait_2-Settled : Triple Off (handle_fin_wait_2 e g) Settled
  unfolding handle_fin_wait_2
  handle_fin_wait_2-Settled = Triple-bind {R = Off} _ _ (Keeps-gets _) λ s.
      Triple-branch _ _ _
        (λ _. Triple-bind {R = Off} _ _ (take_ack-InState _ e g _) λ _.
          Triple-bind {R = Off} _ _ (take_payload-InState _ e g (λ s b h. h))
            λ _. take_fin_2-Settled)
        (λ _. Triple-pure tt settle)

  pub handle_fin_wait_1-Settled : Triple Off (handle_fin_wait_1 e g) Settled
  unfolding handle_fin_wait_1
  handle_fin_wait_1-Settled = Triple-bind {R = Off} _ _ (Keeps-gets _) λ s.
      Triple-branch _ _ _ (λ _. Off-Settled _ (addto_controllist-InState _))
        (λ _.
          Triple-branch _ _ _
            (λ _. Triple-bind {R = Off} _ _ (take_ack-InState _ e g _) λ _.
              Triple-bind {R = Off} _ _ (note_fin_acked-InState _ e g (λ s b h. h)) λ _.
                Triple-bind {R = Off} _ _ (take_payload-InState _ e g (λ s b h. h))
                  λ _. take_fin_1-Settled)
            (λ _. Triple-pure tt settle))

  pub in_time_wait-Settled : Triple Waiting (in_time_wait e g) Settled
  unfolding in_time_wait
  in_time_wait-Settled = Triple-bind {R = Waiting} _ _ (Keeps-gets _) λ s.
      Triple-bind {R = Settled} _ _
        (Triple-branch _ _ _
          (λ _.
            Triple-bind {R = Waiting} _ _ remove_from_timewait_list-Waiting
              λ _. Waiting-Settled _ (add_to_timewait_list-Waiting e.now))
          (λ _. Triple-pure tt (λ c h. h.0)))
        (λ _. addto_controllist-Settled)
