-- ===== src/AddrPool/Creation.antt =====
-- A new address pool holds every port of every address, free.
use cmt_tcp.Prelude.{
  ℕ, zero, suc, ◌+◌, ◌-◌, ◌*◌, ◌^◌, ◌<◌, ◌≤◌, ◌≡◌, refl, ap, sym, subst, Bool, true, false, ◌&&◌,
  ◌||◌, some, [], ◌∷◌, ltb, ◌==◌, if◌then◌else◌, add32, sub32, arith, length, count, count-snoc,
  count-nil, length-append, Bool-cases, inl, inr,
}
use cmt_tcp.Stream.{SockAddr}
use cmt_tcp.AddrPool.{
  ByteOrder, AddrPool, min_port, max_port, add_entry, add_ports, add_addrs, new_pool,
  create_address_pool, entry_of,
}
use cmt_tcp.AddrPool.Entries.{IsPool}
use cmt_tcp.AddrPool.Returned.{IsMapped}

-- Port `b` of address `a` comes before port `j` of address `i`.
abbrev pub before : ℕ → ℕ → ℕ → ℕ → Bool
before a b i j = ltb a i || ((a == i) && ltb b j)

abbrev pub entry : ByteOrder → ℕ → ℕ → ℕ → SockAddr
entry h base a b = record { sin_port = h.htons b; sin_addr = h.htonl (add32 base a) }

abbrev pub Placed : ByteOrder → ℕ → ℕ → ℕ → AddrPool → ℕ → Type 0
Placed h base i j p id =
    (a : ℕ) × (b : ℕ) × (before a b i j ≡ true)
    × (b < 65536)
    × (p.pool id ≡ entry h base a b)
    × (p.mapper a b ≡ some id)

pub record Filling (h : ByteOrder) (base num i j n : ℕ) (p : AddrPool) : Type 0 where
  pub base_kept : p.addr_base ≡ base
  pub num_kept : p.num_addr ≡ num
  pub entries : p.num_entry ≡ n
  pub once : (id : ℕ) → count id p.free_list ≡ (if ltb id n then 1 else 0)
  pub long : length p.free_list ≡ n
  pub unused : p.used_list ≡ []
  pub none_used : p.num_used ≡ 0
  pub placed : (id : ℕ) → id < n → Placed h base i j p id

module _ (h : ByteOrder) (base num : ℕ) where
  Placed-later :
      (i j n : ℕ) (p : AddrPool)
      → p.num_entry ≡ n
      → (id : ℕ) → id < n
      → Placed h base i j p id
      → Placed h base i (j + 1) (add_entry h i j p) id
  unfolding add_entry
  Placed-later i j n p e id lt (a, b, bef, port, there, mapped) =
      let old : (id == p.num_entry) ≡ false = ground arith in
      let apart : ((a == i) && (b == j)) ≡ false = ground arith in
      (a, b, ground arith, port, rw old there, rw apart mapped)

  Placed-new :
      (i j : ℕ) (p : AddrPool)
      → p.addr_base ≡ base
      → j < 65536
      → (id : ℕ) → id ≡ p.num_entry
      → Placed h base i (j + 1) (add_entry h i j p) id
  unfolding add_entry
  Placed-new i j p f port id e =
      let new : (id == p.num_entry) ≡ true = ground arith in
      let here : ((i == i) && (j == j)) ≡ true = ground arith in
      (i, j, ground arith, port, rw new (rw f refl), rw here (ap (λ (k : ℕ). some k) (sym e)))

  pub add_entry-Filling :
      (i j n : ℕ) (p : AddrPool)
      → j < 65536
      → Filling h base num i j n p
      → Filling h base num i (j + 1) (n + 1) (add_entry h i j p)
  unfolding add_entry
  add_entry-Filling i j n p port v = record {
    base_kept = v.base_kept;
    num_kept = v.num_kept;
    entries = ap (λ (k : ℕ). k + 1) v.entries;
    once = λ id. ground (arith, v.once id, count-snoc id p.num_entry p.free_list);
    long = omega (arith, v.long, length-append {0} p.free_list (p.num_entry ∷ []));
    unused = v.unused;
    none_used = v.none_used;
    placed = λ id lt. elim (Bool-cases (ltb id n)) [
      | inl old ↦
          let below : id < n = ground arith in
          Placed-later i j n p v.entries id below (v.placed id below)
      | inr new ↦ Placed-new i j p v.base_kept port id (ground (arith, v.entries))
    ];
  }

  add_ports-Filling :
      (k i j n : ℕ) (p : AddrPool)
      → j + k ≤ 65536
      → Filling h base num i j n p
      → Filling h base num i (j + k) (n + k) (add_ports h k i j p)
  unfolding add_ports
  add_ports-Filling zero i j n p port v =
      subst (λ (r : ℕ × ℕ). Filling h base num i r.0 r.1 p) (ground arith) v
  add_ports-Filling (suc k) i j n p port v =
      subst (λ (r : ℕ × ℕ). Filling h base num i r.0 r.1 (add_ports h (suc k) i j p)) (ground arith)
        (add_ports-Filling k i (j + 1) (n + 1) (add_entry h i j p) (omega arith)
          (add_entry-Filling i j n p (omega arith) v))

  -- Places that come before one come before any later one.
  pub further :
      (i j i' j' n : ℕ) (p : AddrPool)
      → ((a b : ℕ) → b < 65536 → before a b i j ≡ true → before a b i' j' ≡ true)
      → Filling h base num i j n p
      → Filling h base num i' j' n p
  further i j i' j' n p later v = record {
    base_kept = v.base_kept;
    num_kept = v.num_kept;
    entries = v.entries;
    once = v.once;
    long = v.long;
    unused = v.unused;
    none_used = v.none_used;
    placed = λ id lt.
        let (a, b, bef, port, there, mapped) = v.placed id lt in
        (a, b, later a b port bef, port, there, mapped);
  }

  add_addrs-Filling :
      (k i n : ℕ) (p : AddrPool)
      → Filling h base num i 0 n p
      → Filling h base num (i + k) 0 (n + k * 64511) (add_addrs h k i p)
  unfolding add_addrs
  add_addrs-Filling zero i n p v =
      subst (λ (r : ℕ × ℕ). Filling h base num r.0 0 r.1 p) (ground arith) v
  add_addrs-Filling (suc k) i n p v =
      let start = further i 0 i min_port n p (λ a b port bef. ground arith) v in
      let filled = add_ports-Filling (max_port - min_port) i min_port n p (omega arith) start in
      let next =
        further i (min_port + (max_port - min_port)) (i + 1) 0 _ _ (λ a b port bef. ground arith)
          filled in
      subst (λ (r : ℕ × ℕ). Filling h base num r.0 0 r.1 (add_addrs h (suc k) i p)) (ground arith)
        (add_addrs-Filling k (i + 1) (n + (max_port - min_port)) _ next)

pub found_by_address :
    (h : ByteOrder) (base num a b id : ℕ) (p : AddrPool)
    → p.addr_base ≡ base
    → p.num_addr ≡ num
    → base + num ≤ 2 ^ 32
    → num < 2 ^ 31
    → a < num
    → b < 65536
    → p.mapper a b ≡ some id
    → entry_of h p (entry h base a b) ≡ some id
unfolding entry_of
found_by_address h base num a b id p base_kept num_kept room small inside port mapped =
    let index : sub32 (add32 base a) base ≡ a = omega arith in
    let ok_sign : ltb a (2 ^ 31) ≡ true = ground arith in
    let ok_num : ltb a num ≡ true = ground arith in
    rw
      (
        h.ntohl-htonl (add32 base a) (omega arith),
        h.ntohs-htons b port,
        base_kept,
        num_kept,
        index,
        ok_sign,
        ok_num,
      )
      mapped

pub empty-Filling :
    (h : ByteOrder) (addr_base num_addr : ℕ)
    → Filling h (h.ntohl addr_base) num_addr 0 0 0 (new_pool h addr_base num_addr)
empty-Filling h addr_base num_addr = record {
  base_kept = refl;
  num_kept = refl;
  entries = refl;
  once = λ id. ground (arith, count-nil id);
  long = refl;
  unused = refl;
  none_used = refl;
  placed = λ id lt. absurd (omega arith);
}

-- A pool in which the loops have come to the end, and `num_free` is set.
module _ (h : ByteOrder) (base num n : ℕ) (p : AddrPool) (v : Filling h base num num 0 n p) where
  pub filled-IsPool : n < 2 ^ 32 → IsPool (record p { num_free = p.num_entry })
  filled-IsPool small = record {
    once = λ id. rw v.unused (ground (arith, v.once id, v.entries, count-nil id));
    free_counted = omega (arith, v.long, v.entries);
    used_counted = rw (v.unused, v.none_used) refl;
    total = rw v.unused (omega (arith, v.long, v.entries));
    small = omega (arith, v.entries);
  }

  pub filled-IsMapped :
      base + num ≤ 2 ^ 32 → num < 2 ^ 31 → IsMapped h (record p { num_free = p.num_entry })
  filled-IsMapped room small = record {
    found = λ id lt.
        let (a, b, bef, port, there, mapped) = v.placed id (omega (arith, lt, v.entries)) in
        rw there (
          found_by_address h base num a b id (record p { num_free = p.num_entry }) v.base_kept
            v.num_kept room small (ground arith) port mapped);
  }

created-Filling :
    (h : ByteOrder) (addr_base num_addr : ℕ)
    → Filling h
        (h.ntohl addr_base)
        num_addr
        num_addr
        0
        (num_addr * 64511)
        (add_addrs h num_addr 0 (new_pool h addr_base num_addr))
created-Filling h addr_base num_addr =
    subst
      (λ (r : ℕ × ℕ).
        Filling h (h.ntohl addr_base) num_addr r.0 0 r.1
          (add_addrs h num_addr 0 (new_pool h addr_base num_addr)))
      (ground arith)
      (add_addrs-Filling h (h.ntohl addr_base) num_addr num_addr 0 0 _
        (empty-Filling h addr_base num_addr))

-- A new pool of addresses that fit below 2 ^ 32 from the base, few enough for an `int` to count the
-- entries: it is valid, has every port of every address once, all of them free, and the map finds
-- each entry by its address.
pub create_address_pool-IsPool :
    (h : ByteOrder) (addr_base num_addr : ℕ)
    → h.ntohl addr_base + num_addr ≤ 2 ^ 32
    → num_addr * 64511 < 2 ^ 31
    → IsPool (create_address_pool h addr_base num_addr)
      × IsMapped h (create_address_pool h addr_base num_addr)
      × ((create_address_pool h addr_base num_addr).num_free ≡ num_addr * 64511)
unfolding create_address_pool
create_address_pool-IsPool h addr_base num_addr room small =
    let v = created-Filling h addr_base num_addr in
    (
      filled-IsPool h (h.ntohl addr_base) num_addr (num_addr * 64511) _ v (omega arith),
      filled-IsMapped h (h.ntohl addr_base) num_addr (num_addr * 64511) _ v room (omega arith),
      v.entries,
    )
