-- ===== src/Lib.antt =====
-- The encryptor sits between a LAN and several WANs. Threads take packets from AF_XDP sockets, hand
-- them on through bounded rings, choose a WAN for each packet, encrypt what falls under a policy,
-- and in the other direction decrypt, check the policy again and put bonded UDP flows back in order.
-- This library models the parts of that path that decide, in the order in which a packet meets them.
--
--  - Flow (src/core/flow/flow_table.c): the choice of the WAN. `Flow.Swrr` is the smooth weighted
--   round robin of one flow (`flow_swrr_pick`, `flow_swrr_reset`, `flow_swrr_pool_same`), and
--   `Flow.Table` the cache of such states by flow that each thread has
--   (`flow_table_pick_wan_per_flow_packet` and `flow_table_pick_wan_per_packet`), with the
--   normalisation of the direction (`normalize_flow_5tuple`) and the hash.
--  - Iface (src/core/iface/xdp_interface.c): the rings between the threads (`ne_ring_init`,
--   `ne_ring_try_push`, `ne_ring_try_push_pair`, `ne_ring_try_pop`, `ne_ring_count`). Each call is
--   one atomic step, as it is under the lock of the ring or with one producer and one consumer.
--   `Iface.Pool` is the pool of free frames (`pool_init`, `pool_push`, `pool_pop`, `ne_frame_alloc`,
--   `ne_frame_free`).
--  - Policy (src/db/config.c): which policy a packet falls under. `Policy` has the match and the
--   selection (`crypto_policy_match_packet`, `config_select_crypto_policy`), `Policy.Inbound` the
--   compact table for packets from a WAN (`config_refresh_policy_in_any`, `config_policy_in_ok`),
--   and `Policy.Gate` the condition of src/core/dataplane/wan_ingress.c that asks it.
--  - Reorder (src/core/dataplane/udp_reorder.c): the reorder windows. `Reorder` and `Reorder.Submit`
--   are the functions on one flow; a `Lane` is that flow with its 256 slots and the counters of the
--   worker. `Reorder.Worker` has the table of the 512 flows of a worker (`flow_lookup`,
--   `dp_udp_reorder_submit`, `dp_udp_reorder_gc`, `dp_udp_reorder_reset_worker`).
--  - WanMap (src/db/config.c): the two numbers of a WAN (`config_wan_cfg_to_dp`,
--   `config_wan_dp_to_cfg`), its weight, and lookups by name.
--  - Eth (src/crypto/common/eth_parse.c, src/core/dataplane/packet_util.c): the offsets in a packet
--   and its kind (`Eth`), the fields of a flow and of ARP (`Eth.Fields`), and the clamp of the TCP
--   segment size (`Eth.Mss`). A packet is the list of its bytes, with the length beside it.
--  - Wan (src/core/forwarder/wan_scheduler.c): the WANs and the traffic they take. `Wan` has the
--   state and the simple operations (`fwd_wan_dp_ok_for_new_traffic`, `fwd_wan_flush_queue`,
--   `fwd_wan_has_tx_room`), `Wan.Drain` and `Wan.Weight` the drains, blends and join ramps,
--   `Wan.Share` the weighted pool of a profile (`fwd_wan_build_profile_pool`), which `Flow` picks
--   from, and `Wan.Pick` the choice for a packet (`fwd_wan_pick_for_local`).
--  - L2 (src/crypto/pqc/pqc_l2_option.c): the packets between two nodes. `L2` is the shim in
--   front of the plain bytes, `L2.Packet` the encryption and decryption of a UDP packet in its
--   frame, with the keys of src/crypto/pqc/include/crypto_pqc_layer.h, and `L2.Split` the
--   encryption in two fragments. `L2.Plain` is the same for TCP, ICMP, OSPF and ARP packets,
--   which are never split, and `L2.Detect` the test for an encrypted UDP packet. `L2.Reasm` is
--   the table in which the two fragments of a packet meet (`l2_reassemble`, `opt_pick_slot`,
--   `opt_frag_gc_table`), and `L2.Tables` has those of all workers. The frame is a list of
--   bytes, and `put` and `slice` are the `memcpy` into and out of it.
--  - Prelude: what the parts share, with lists and signed integers over the native numbers.
--
-- State is passed on explicitly: a C structure is a record, a static array a list, a function that
-- writes to memory one that returns the new record. Numbers of type `uint32_t`, `uint16_t` and
-- `uint8_t` wrap around where the code lets them (`% 2 ^ w`); an `int` is an integer, and so
-- is a credit of the round robin (its range is the matter of `Flow.Swrr.Range`).
-- The weights of WANs are not bounded: schema.sql keeps each at 100 at most, so that the sums of
-- them that the code keeps in an `int` do not overflow.
--
-- Loops over arrays are recursions on lists or counts. Five loops have fuel. That of
-- `flow_flush_contiguous` gets 257 rounds, one more than there are slots
-- (`Reorder.Flush`). That of
-- `flow_make_window_room` gets one round more than there are held items. It need not end in the
-- code either (`Reorder.Stuck`). The loop over the TCP options gets as many rounds as
-- the header has bytes, and the fold of the carries two (`Eth.Clamp`). The flush of the queues of a
-- WAN gives each ring one round more than it holds packets.
--
-- Code outside the repository is a parameter: `ntohl` and the success of `calloc` in Flow, the
-- results of the pthread calls and of the allocation in `ring_init`, and in Reorder the callback
-- that emits an item, as a Boolean function of the item; what went to the callbacks is a trace.
-- In L2 the scrypt library and the nonces are parameters. The time is an argument, also where the
-- code reads a clock.
--
-- Not modelled: the AF_XDP sockets, the XDP programs under bpf/, the key exchange and the ciphers
-- under src/crypto, the database and the vault, learning of MAC addresses and ARP, the diagnostics of
-- links, the administration of WANs, statistics and logging. They are input and output, or calls of
-- libraries, or wait for their own modules. A call of L2 that fails gives no packet: what it leaves
-- in the buffer, which is dropped, is not modelled.
pub mod Eth
pub mod Flow
pub mod Iface
pub mod L2
pub mod Policy
pub mod Prelude
pub mod Reorder
pub mod Wan
pub mod WanMap
