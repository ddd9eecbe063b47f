-- ===== src/Lib.antt =====
-- The verification library of the legacy edge-cloud bridge: simulated legacy devices send encrypted
-- sensor readings to a gateway (ChaCha20-Poly1305 under a key of each device), and the gateway
-- forwards them to a cloud over a session whose key ML-KEM-768 and HKDF establish.
--
-- Parts and files. Messages are JSON objects on lines, over TCP.
-- - Protocol (common/protocol.py): Fields has the constants, b64e, b64d, require_str, require_int and
--   encode_message; Stream has read_message, its line, size and JSON checks; Aad has the contexts that
--   messages are authenticated with, and parse_reading_bytes; Socket is the sending side of a socket.
-- - Crypto (common/crypto.py): Aead is _aead_encrypt, _aead_decrypt and their wrappers, Tags the
--   authentication of hellos and of gateways, Kem the ML-KEM and HKDF calls. Library is the
--   `cryptography` package and `hashlib`: a record of operations that every definition takes, and a
--   record of the laws that some theorems take. Examples/Toy is a library that obeys the laws.
-- - Replay (common/replay.py), Metrics (common/metrics.py), Config (common/config.py): the shared
--   objects. Config's Host holds what a process takes from outside: the library, random draws,
--   measured times, environment variables and files.
-- - Gateway: Processing (gateway/processing.py) decides on hellos and converts readings; State and
--   Channel (gateway/cloud_channel.py) are the session with the cloud, its handshake, its retries and
--   its sending; Server (gateway/gateway.py) handles the connection of one device.
-- - Cloud: Processing (cloud/processing.py), Store (cloud/store.py), Sessions and Server
--   (cloud/cloud.py), the connection of one gateway.
-- - Cloud/Keypair is the private key of the cloud at its start, and Crypto/KeyFile its file.
--   Cloud/Threads is what the connections of several gateways do to each other: a relation of steps
--   in which another thread may run between the replay guard and the store, as each has its own lock.
--   Gateway/Threads does the same for the connections of several devices and the thread that
--   reconnects, between the replay guard, the building of a message and its sending.
-- - Gateway/Main and Cloud/Main are the two main functions up to their accept loops, and the accepted
--   connections one after the other; Config/Settings is what the configuration reads at its import.
-- - Health (common/health.py): the handler of a request; Health/Status has the callbacks of the two
--   services. Bootstrap (scripts/docker_bootstrap.py) is the script that provisions the pin.
-- - Device: Sensor, Counter and Client (device/sensor.py, device/state.py, device/device.py).
-- - Bridge: what holds between two parts: a reading on its way from the device to the store
--   (Delivery, EndToEnd), the loops of the three processes (Streaming, Collecting), the handshake
--   with the bytes of both sides (Handshake), and what binds a message to its session (Binding).
--   Json/RoundTrip and Protocol/Stream/Framing are the lemmas on printed messages that these rest
--   on. Examples: runs, and the theorems at concrete inputs.
-- - Base, Result, Exec, Dict, Encoding and Json are the helpers, and the parts of Python's standard
--   library that the program calls: dict, base64, bytes.fromhex, UTF-8, int and the json module.
--
-- How the code is modelled. A function that may raise returns a Result, a method that changes objects
-- an Exec: a function from the state to a result and the state, which is kept also beside an
-- exception. A method that holds a lock is one step. Strings are lists of code points, integers are
-- unbounded as in Python, a dict is a list of pairs in the order of insertion, and a JSON float is the
-- text of its number. The bytes that a peer will send are the buffer of a Stream, which then ends or
-- stalls until the timeout; the sends that fail are listed in a Sock.
--
-- Bounds and fuel. A `while True` loop over messages is `forever` on fuel: one more than the bytes
-- that the peer still sends. Every round that goes on reads a byte or more, so the loop ends
-- before the fuel does. The loops of connect_and_establish and of the device take the list of what
-- the surroundings answer in each round, and so do the waits of the bootstrap script. The JSON
-- parser takes the interpreter's recursion limit as an argument and raises recursion_error beyond
-- it.
--
-- Not modelled: the sockets of the accept loops and of http.server, argument parsing beyond
-- its defaults, and logging and printing.
pub mod Base
pub mod Result
pub mod Exec
pub mod Dict
pub mod Encoding
pub mod Json
pub mod Protocol
pub mod Crypto
pub mod Replay
pub mod Metrics
pub mod Config
pub mod Gateway
pub mod Cloud
pub mod Device
pub mod Health
pub mod Bootstrap
pub mod Bridge
pub mod Examples
