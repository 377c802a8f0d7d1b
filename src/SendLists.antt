-- ===== src/SendLists.antt =====
-- The sender's lists of src/tcp.c: a stream is put on the control, send or ack list, and taken off,
-- under its flag for that list.
pub mod Listed
use cmt_tcp.Prelude.{
  ◌+◌, Bool, true, false, not, Option, none, some, [], ◌∷◌, ◌++◌, add32, sub32, erase,
}
use cmt_tcp.Run.{Run, pure, stop, assertion, branch, gets, modify, ◌>>=◌, ◌>>◌}
use cmt_tcp.Stream.{Act, Ctx, Manager, Sender, cur, set_snd, set_tcp}

abbrev is_none {ℓ} : {A : Type ℓ} → Option A → Bool
is_none none = true
is_none (some a) = false

unfoldable pub addto_acklist : Act (Unit {0})
unfolding ◌>>=◌
addto_acklist = do
  s ← cur
  branch s.snd.on_ack_list (pure tt) do
    set_snd (λ d. record d { on_ack_list = true })
    set_tcp (λ t. record t {
      sender = record t.sender {
        ack_list = t.sender.ack_list ++ s.id ∷ [];
        ack_list_cnt = add32 t.sender.ack_list_cnt 1;
      };
    })

unfoldable pub addto_controllist : Act (Unit {0})
unfolding ◌>>=◌
addto_controllist = do
  s ← cur
  branch s.snd.on_control_list (pure tt) do
    set_snd (λ d. record d { on_control_list = true })
    set_tcp (λ t. record t {
      sender = record t.sender {
        control_list = t.sender.control_list ++ s.id ∷ [];
        control_list_cnt = add32 t.sender.control_list_cnt 1;
      };
    })

-- `assert(0)` where the stream has no send buffer.
unfoldable pub addto_sendlist : Act (Unit {0})
unfolding ◌>>=◌
addto_sendlist = do
  s ← cur
  branch (is_none s.snd.sndbuf) (stop assertion) (
      branch s.snd.on_send_list (pure tt) do
        set_snd (λ d. record d { on_send_list = true })
        set_tcp (λ t. record t {
          sender = record t.sender {
            send_list = t.sender.send_list ++ s.id ∷ [];
            send_list_cnt = add32 t.sender.send_list_cnt 1;
          };
        }))

unfoldable pub remove_acklist : Act (Unit {0})
unfolding ◌>>=◌
remove_acklist = do
  s ← cur
  branch (not s.snd.on_ack_list) (pure tt) do
    set_snd (λ d. record d { on_ack_list = false })
    set_tcp (λ t. record t {
      sender = record t.sender {
        ack_list = erase s.id t.sender.ack_list;
        ack_list_cnt = sub32 t.sender.ack_list_cnt 1;
      };
    })

unfoldable pub remove_controllist : Act (Unit {0})
unfolding ◌>>=◌
remove_controllist = do
  s ← cur
  branch (not s.snd.on_control_list) (pure tt) do
    set_snd (λ d. record d { on_control_list = false })
    set_tcp (λ t. record t {
      sender = record t.sender {
        control_list = erase s.id t.sender.control_list;
        control_list_cnt = sub32 t.sender.control_list_cnt 1;
      };
    })

unfoldable pub remove_sendlist : Act (Unit {0})
unfolding ◌>>=◌
remove_sendlist = do
  s ← cur
  branch (not s.snd.on_send_list) (pure tt) do
    set_snd (λ d. record d { on_send_list = false })
    set_tcp (λ t. record t {
      sender = record t.sender {
        send_list = erase s.id t.sender.send_list;
        send_list_cnt = sub32 t.sender.send_list_cnt 1;
      };
    })
