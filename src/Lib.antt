-- ===== src/Lib.antt =====
-- netudp, a C++ library for encrypted game networking over UDP. A connection keeps a key epoch with a
-- replay window (src/crypto), a packet tracker for acknowledgements and one reliable state per
-- channel (src/reliability), and queues its messages in ring buffers (src/core). The server and the
-- client (src/server.cpp, src/client.cpp) pack frames (src/wire) into a packet, encrypt it, and on
-- receipt decrypt, take over the acknowledgements and act on the frames. The server also groups its
-- clients (src/group) and watches for floods (src/connection/ddos.h). A client gets its slot with a connect
-- token (src/connection/connect_token.cpp), and src/replication sends it the properties of entities.
--
-- The files:
--   Api          Buffer: the message buffers of src/api.cpp
--   Base         shared numbers, lists, bits, bytes and words; `Float64` is the interface of `double`
--   Crypto       Replay: `ReplayProtection` of src/crypto/replay.h, field by field, with `is_duplicate`
--                and `advance`. Epoch: `KeyEpoch`, `packet_encrypt`, `packet_decrypt`,
--                `packet_decrypt_grace` and the change of keys of src/crypto/packet_crypto.cpp
--   Reliability  Tracker: `PacketTracker` of src/reliability/packet_tracker.h. Channel:
--                `ReliableChannelState` of src/reliability/reliable_channel.h. Rtt: src/reliability/rtt.h
--   Session      Packet: how src/server.cpp and src/client.cpp open a data packet, from the nonce that
--                they expect to the change of keys. Delivery: what the server does with the frames
--   Wire         Frame: the writers of src/wire/frame.h, and the loop of `server_handle_data_packet`
--                in src/server.cpp that parses a packet into frames
--   Core         RingBuffer: src/core/ring_buffer.h, against the queue in Fifo. Address: the equality of
--                addresses of src/core/address.cpp. HashMap: src/core/hash_map.h
--   Server       Slots: the slots of the server's clients, and `server_deactivate_slot`. Connect:
--                `server_handle_connection_request`, all in src/server.cpp
--   Channel      Queue: the send queue of src/channel/channel.h; Scheduler: `ChannelScheduler`
--   Bandwidth    src/bandwidth/bandwidth.h: the token bucket and the congestion control
--   Fragment     the headers and the reassembly of src/fragment/fragment.h
--   Group        src/group/group.h
--   Connection   Ddos: src/connection/ddos.h. Token: connect tokens, from `netudp_generate_connect_token`
--                of src/api.cpp to `validate_connect_token` of src/connection/connect_token.cpp
--   Replication  src/replication: Schema and Entity with their setters, the codecs of numbers (Varint,
--                Half, Quantize) and of updates (Codec), and the filter on what a client may see
--
-- A method is a function from the state to its result and the new state. Unsigned integers are
-- natural numbers with the wrap-around of their width written out; a signed 16-bit difference is the
-- unsigned one, compared with 2^15. Arrays are functions of the index, and byte buffers are lists.
-- A failure that the code reports by a negative number or a null pointer is `none`; only
-- `calc_fragment_count` returns its `int`. Where a sum of `int`s can overflow, which is undefined, the
-- model wraps it, and the theorems bound the sum; a shift by 64 is taken as one by 0.
--
-- Parameters: the authenticated cipher (`Aead`), the key derivation (`Kdf`) and the keyed hash of token
-- fingerprints, which stand for the Monocypher sources under src/crypto/vendor and for AES-GCM;
-- `Cipher` is the vendored XChaCha20-Poly1305 below `xchacha_encrypt`; `double` is `Float64` and `float`
-- is `Float32`. The laws of a cipher that a theorem needs stand among its hypotheses: decryption
-- gives back what was encrypted, and a changed nonce or key is refused.
--
-- Loops run on fuel where the code has `while`: `deliver_ordered` has 65 rounds for 64 slots, the
-- parser of frames as many as there are bytes, `advance_oldest` as many as the distance from the oldest
-- unacknowledged number to the next one to send; the numbers of variable length ten and five bytes, and
-- the hash map once around the table. `rehash_after_delete` has the cube of the capacity: each time around
-- the table that it does not stop, it moves an entry closer to the slot of its hash.
--
-- Not modelled: sockets, threads, logging, profiling, statistics, vector instructions, the parsing of
-- addresses, the client's states, the server's table of entities, timeouts, the network simulator
-- and rate limits; the handlers of src/server.cpp and src/client.cpp beyond the lines named above.
pub mod Api
pub mod Bandwidth
pub mod Base
pub mod Channel
pub mod Connection
pub mod Core
pub mod Crypto
pub mod Fragment
pub mod Group
pub mod Reliability
pub mod Replication
pub mod Server
pub mod Session
pub mod Wire
