-- ===== src/Sockets/FreeList.antt =====
-- The loops over the free list of the socket map, which go round again on success.
use cmt_tcp.Prelude.{ℕ, zero, suc, ◌≡◌, refl, false, Option, none, List, [], ◌∷◌, length}
use cmt_tcp.Run.{ok, fault, diverges, pure, stop, branch, gets, modify, ◌>>=◌}
use cmt_tcp.Links.{Chain, nil, cons}
use cmt_tcp.Sockets.{SocketMap, allocate_socket, link_in, socket_free}

-- With no other thread between, allocating a socket empties the free list, whatever it holds, and
-- returns none: one round more than it holds sockets is enough.
pub allocate_socket_drains :
    (s : SocketMap) (xs : List ℕ) (p : Option ℕ)
    → Chain s.free_smap_link p xs
    → allocate_socket (suc (length xs)) (record s { first = p })
      ≡ ok (none, record s { first = none })
unfolding allocate_socket ◌>>=◌ pure branch gets modify
allocate_socket_drains s [] p nil = refl
allocate_socket_drains s (k ∷ xs) p (cons c) = allocate_socket_drains s xs (s.free_smap_link k) c

link_in_endless : (rounds socket : ℕ) (s : SocketMap) → link_in rounds socket s ≡ fault diverges
unfolding link_in ◌>>=◌ modify stop
link_in_endless zero socket s = refl
link_in_endless (suc n) socket s = link_in_endless n socket _

-- With no other thread between, freeing a socket that is in use never ends: no number of rounds is
-- enough.
pub socket_free_hangs :
    (rounds sockid : ℕ) (s : SocketMap)
    → s.unused sockid ≡ false
    → socket_free rounds sockid s ≡ fault diverges
unfolding socket_free ◌>>=◌ gets branch modify
socket_free_hangs rounds sockid s used = rw used (link_in_endless rounds sockid _)
