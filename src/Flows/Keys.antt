-- ===== src/Flows/Keys.antt =====
-- The functions given to the two tables obey the laws of a table.
use cmt_tcp.Prelude.{ℕ, ◌≡◌, ◌<◌, ap, true, List, arith}
use cmt_tcp.Stream.{Stream}
use cmt_tcp.HashTable.Lookup.{IsKeyed}
use cmt_tcp.Flows.{
  num_bins_flows, num_bins_listener, hash_flow, equal_flow, flow_bytes, hash_bytes, hash_listener,
  equal_listener,
}

fields_equal : (a b : Stream) → equal_flow a b ≡ true → flow_bytes a ≡ flow_bytes b
unfolding equal_flow flow_bytes
fields_equal a b h = ground arith

same_hash : (a b : Stream) → equal_flow a b ≡ true → hash_flow a ≡ hash_flow b
unfolding hash_flow
same_hash a b h = ap hash_bytes (fields_equal a b h)

hash_bytes-lt : (bs : List ℕ) → hash_bytes bs < num_bins_flows
unfolding hash_bytes
hash_bytes-lt bs = omega arith

-- The hash of a flow lies within the table, equal flows have one hash, and the comparison of flows
-- is symmetric and transitive: what the flow table needs.
pub hash_flow-IsKeyed : IsKeyed num_bins_flows hash_flow equal_flow
hash_flow-IsKeyed = record {
  in_range = λ a. unfold hash_flow in (hash_bytes-lt (flow_bytes a));
  same_bucket = same_hash;
  eq_comm = λ a b. unfold equal_flow in (ground arith);
  eq_along = λ a b c h. unfold equal_flow in (ground arith);
}

pub hash_listener-IsKeyed : IsKeyed num_bins_listener hash_listener equal_listener
unfolding hash_listener equal_listener
hash_listener-IsKeyed = record {
  in_range = λ a. omega arith;
  same_bucket = λ a b h. ground arith;
  eq_comm = λ a b. ground arith;
  eq_along = λ a b c h. ground arith;
}
