-- ===== src/Sockperf.antt =====
-- The sockperf library: the wire format of its messages (sockperf/sockperf.hpp) and the sequence
-- numbers of the extended client (sockperf/x.hpp).
pub mod MessageType
pub mod Message
pub mod Seqn
