-- ===== src/SendBuffer.antt =====
-- The send buffer of src/tcp_buffer.c (`SBInit`, `SBPut`, `SBRemove`). `size_t` results are numbers
-- below 2 ^ 64, so `return -2` is `minus_two`.
pub mod Queue
use cmt_tcp.Prelude.{
  ℕ, ◌+◌, ◌-◌, ◌^◌, ◌%◌, min, Bool, ◌&&◌, List, [], ◌∷◌, ◌++◌, ltb, ◌==◌, if◌then◌else◌, add32,
  sub32, length, take, drop,
}
use cmt_tcp.Stream.{SendBuffer}

abbrev pub minus_two : ℕ
minus_two = 2 ^ 64 - 2

-- `memcpy(data + off, xs, …)` inside the array.
abbrev pub copy_to : ℕ → List ℕ → List ℕ → List ℕ
copy_to off xs bytes = take off bytes ++ (xs ++ drop (off + length xs) bytes)

-- The chunk that the object pool hands out has arbitrary bytes.
unfoldable pub sb_init : ℕ → List ℕ → ℕ → SendBuffer
sb_init chunk_size chunk init_seq = record {
  bytes = chunk;
  head = 0;
  head_off = 0;
  tail_off = 0;
  len = 0;
  cum_len = 0;
  size = chunk_size;
  head_seq = init_seq;
  init_seq = init_seq;
}

-- The copy into the buffer: behind the payload if there is room, else after moving it to the front.
unfoldable pub store_payload : SendBuffer → List ℕ → SendBuffer
store_payload b xs =
    if ltb (b.tail_off + length xs) b.size
    then record b { bytes = copy_to b.tail_off xs b.bytes; tail_off = b.tail_off + length xs }
    else record b {
      bytes = copy_to b.len xs (copy_to 0 (take b.len (drop b.head b.bytes)) b.bytes);
      head = 0;
      head_off = 0;
      tail_off = b.len + length xs;
    }

-- `xs` are the `len` bytes at `data`.
unfoldable pub sb_put : SendBuffer → List ℕ → ℕ × SendBuffer
sb_put b xs =
    let to_put = min (length xs) (sub32 b.size b.len) in
    if length xs == 0
    then (0, b)
    else if to_put == 0
    then (minus_two, b)
    else let c = store_payload b (take to_put xs) in
      (to_put, record c { len = add32 c.len to_put; cum_len = (c.cum_len + to_put) % 2 ^ 64 })

-- Where nothing is left the head goes back to the front.
abbrev rewind : SendBuffer → SendBuffer
rewind b =
    if (b.len == 0) && ltb 0 b.head_off
    then record b { head = 0; head_off = 0; tail_off = 0 }
    else b

unfoldable pub sb_remove : SendBuffer → ℕ → ℕ × SendBuffer
sb_remove b n =
    let to_remove = min n b.len in
    if n == 0 then (0, b) else if to_remove == 0 then (minus_two, b) else (
      to_remove,
      rewind (record b {
        head_off = add32 b.head_off to_remove;
        head = add32 b.head_off to_remove;
        head_seq = add32 b.head_seq to_remove;
        len = b.len - to_remove;
      }),
    )
