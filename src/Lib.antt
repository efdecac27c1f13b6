-- ===== src/Lib.antt =====
-- meshrustic: a mesh node that relays LoRa packets. This library models the parts of its crates that
-- hold the node's own state and prove what they promise.
--
-- A frame that a radio receives waits in a queue (crates/mesh-radio/src/queue.rs). The router reads
-- its header (crates/mesh-protocol/src/header.rs), asks the history whether it knows the packet
-- (crates/mesh-routing/src/packet_history.rs), keeps it in a slot of the pool (pool.rs), asks the
-- rate limiter whether to drop it (rate_limit.rs), the quality of service whether the channel still
-- has room for it (qos.rs), and chooses a next hop, for which it keeps count of the hops that failed
-- (hop_health.rs). A packet that asks for an acknowledgement keeps a slot until it comes or its tries
-- are used up (reliable.rs), and nothing is sent while the channel is left to others
-- (channel_access.rs). A frame to send waits in a queue of the same kind.
--
-- The files and the code, in the crates' `src` directories:
--   Base: what the others share. Machine words are natural numbers with their wrap or saturation
--     written out, fixed arrays are lists with native indices, `iter().find`, `position` and `any`
--     are functions on these. Base/Float is `f32`, a parameter with the operations that the code
--     uses. Nothing is supposed of them but that `<` carries over to a larger whole number and, in the
--     theorem on `find_better_positioned_neighbor`, the two laws of `IsGapped` on `<` past a gap of
--     one. Base/Int has the signed numbers.
--   Protocol/Header: crates/mesh-protocol/src/header.rs and constants.rs; `PacketHeader`, the flags,
--     `encode_to`, `decode`, `parse` and `decode_frame`.
--   Protocol/Portnum: crates/mesh-protocol/src/portnum.rs; `rate_limit_bucket` and `qos_tier`.
--   Radio/Frame: crates/mesh-radio/src/frame.rs; `RxFrame` and `TxFrame`.
--   Radio/Queue: crates/mesh-radio/src/queue.rs; `RxQueue` and `TxQueue` are one ring over the type
--     of its frames. Queue/Refine has the bounded deque that it implements.
--   Radio/Timing: crates/mesh-radio/src/config.rs, timing.rs and packet_time.rs; the presets,
--     `slot_time_ms`, `packet_time_ms` and `contention_window_ms`.
--   Routing/History: crates/mesh-routing/src/packet_history.rs; `PacketHistory`.
--   Routing/Pool: crates/mesh-routing/src/pool.rs; `PacketPool`. A `&mut` slot that `get_mut` lends is
--     a function applied to the slot. Pool/Stale has the steps that a pool takes.
--   Routing/HopHealth: crates/mesh-routing/src/hop_health.rs; `HopHealth`.
--   Routing/RateLimit: crates/mesh-routing/src/rate_limit.rs; Types has the constants and the state
--     `NodeRateLimiter`, Bucket one budget, Tables the look-up and the eviction of entries, Young the
--     nodes that are new to the mesh, Dests the traffic to one destination, Limiter `should_drop`, and
--     Queries `would_drop` and `coverage_gate`. An array with a count of its used places is the list
--     of those places, and a `Cell` is a field that a call gives back changed.
--   Routing/Qos: crates/mesh-routing/src/qos.rs; `can_relay` and `suppress_threshold_pct`.
--   Routing/Reliable: crates/mesh-routing/src/reliable.rs, with `note_tx_failure` and
--     `note_tx_queue_rejected` of router.rs, which act on its slots.
--   Routing/ChannelAccess: crates/mesh-routing/src/channel_access.rs, with the spacing of relays of
--     coordinated_relay.rs; Routing/Contention has the rest of that file, with the contention window by
--     the load and the delay of a retransmission of routing_ack.rs. Contention/Bands is about the window
--     by the signal and Contention/Ladder about how long what is heard is kept.
--   Routing/Protobuf: crates/mesh-routing/src/protobuf.rs, with the functions of admin_codec.rs that write
--     numbers and fields. Protobuf/Fields has the format that they read, Written that it is what is
--     written.
--   Routing/RelayWindow: crates/mesh-routing/src/relay_window.rs; `WindowLayout` and
--     `PositionAllocator`. RelayWindow/Takes has the sequences of positions that are asked for.
--   Routing/Roles: crates/mesh-routing/src/sr_role.rs, with the roles of nodeinfo.rs.
--   Routing/Capability: crates/mesh-routing/src/capability.rs; `CapabilityCache`. Capability/Found has
--     the lemmas on searches and on the record that gives way, Capability/Reach the steps that a cache
--     takes.
--   Routing/Graph/Placeholder: crates/mesh-routing/src/graph/placeholder.rs.
--   Routing/Graph/Downstream: crates/mesh-routing/src/graph/downstream.rs; the table is the list of the
--     used places of its array. Downstream/Reach has the steps that a table takes, Downstream/Chain the
--     chains of relays. The loops that move the last entry to a place given up are `sweep` of
--     Base/SwapRemove.
--   Routing/Graph/Edge: crates/mesh-routing/src/graph/edge.rs, with `etx_to_fixed` and `fixed_to_etx` of
--     etx.rs; Store has `EdgeStore` with its look-ups and classes, Remove what takes links and nodes
--     away, Evict the node that makes way for another one, Update `update_edge`, and Prune
--     `prune_unreachable_from_root` and `age_edges`. Inv has what a graph is made of, and Reach the
--     steps that it takes; Marks, Rounds, Neighbours and Linked are about the search of Prune.
--     An optional table that an operation takes is two definitions. The loops that keep some links in
--     place are `retain` of Base/Retain.
--   Routing/Graph/Etx: the rest of crates/mesh-routing/src/graph/etx.rs, the price of a signal, and
--     `update_edge_from_observation` of edge.rs.
--   Routing/Graph/Route: crates/mesh-routing/src/graph/route.rs; Price has the evidence for a hop and what
--     it costs, Search `backward_search`, Compose `calculate_route`, and Owner `coverage_owner` and
--     `find_better_positioned_neighbor`. Expand has what a round of the search keeps; Ends and Ways are
--     about what the search ends with, Rule, Table, Room, Grown, Closed, Round, Visited, Expanded,
--     Nearest, Least and Cheapest about the costs that it finds, Led and Cached about the routes, Candidate
--     and Owned about the owner, Cheaper and Better about the neighbour.
-- Each Tests module runs the code at concrete inputs, several of them those of the source's tests.
--
-- The loops of the code that are modelled run over a fixed array, as structural recursion on the list,
-- or over a fixed range. The loops of `push_varint` and `push_varint_i32` have fuel, five and ten
-- rounds, as many as a word of 32 or 64 bits has groups of seven, and the round trips show that they are
-- enough. The loops that remove entries in
-- place run on the number of entries not yet looked at, which each round lowers by one, and the loop of
-- `chain_egress` on the hops left of the sixteen after which the code stops too. The search of
-- `prune_unreachable_from_root` has as many rounds as there are nodes, and the theorem on what it finds
-- shows that they are enough. `backward_search` has 33 rounds,
-- one more than it has nodes, and a theorem shows that it ends before; its count of hops stops at 32, as
-- that of the code. The statements on
-- times and ids say where they need words of 32 bits.
--
-- Not modelled: the router that composes these parts and the relay decisions, the graph of neighbours
-- and the topology messages, the messages in their codecs, the accounts of airtime, the store and the
-- cryptography. The boards' firmware is input and output over hardware crates. `format_young_announce`
-- prints an announcement of the limiter and is left out.
pub mod Base
pub mod Protocol
pub mod Radio
pub mod Routing
