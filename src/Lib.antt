-- ===== src/Lib.antt =====
-- A model of the Kensington VeriMark fingerprint driver for libfprint (driver/), and what holds of it.
--
-- The driver sends commands to a match-on-chip sensor over USB control transfers and waits for its
-- interrupts. Its layers, from the bottom up, and the files that model them:
--
--   * driver/verimark-transport-framing.c plans the control transfers of a command and of its
--     reply: Framing (`frame_write_chunks` is verimark_frame_write_chunks, and so on), proofs in
--     Framing/Padding and Framing/Plan.
--   * driver/verimark-transport.c sends a command and reads the reply as a state machine:
--     Transport/Command (`cmd` is verimark_cmd, with its callbacks). driver/verimark.c does the
--     same by blocking calls: Transport/Sync. Transport/Agree relates the two, Transport/Reads is
--     about the reading of replies, Transport/Delivers about a command and a reply of one
--     transfer each. Interrupt has the wait for an interrupt (`intr_wait`, over the attempts that
--     it makes) and the drain of those that are queued, of driver/verimark-transport.c too.
--   * driver/verimark-moc.c builds the commands (Moc/Commands), parses the replies (Moc/Replies)
--     and runs the machines: Moc/Capture, Moc/Enroll, Moc/Verify and Moc/Storage. Moc/Io has what
--     their states ask for and what their callbacks are given, Moc/Prints the ids that a print
--     carries.
--   * driver/verimark-tls-crypto.c keeps the certificates and the keys of the secure channel:
--     Tls/Cert has the wire forms of the certificates and of the pairing data, Tls/Gcm the
--     encryption of records, Tls/Prf the key derivation, Tls/Crypto the calls of elliptic curves.
--     What they use of OpenSSL is an interface: `Aead` for AES-256-GCM, `Hmac` for HMAC with a
--     digest, `Crypto` for all of it.
--   * driver/verimark-tls.c is the channel: Tls/Channel has its state (`Tls`), its records and
--     the loop over the records of a reply (`each_record`), Tls/Channel/Hello the ClientHello and
--     the server's first flight, Tls/Channel/Finish the two last flights, Tls/Channel/Session the
--     handshake and what follows it (`wrap`, `unwrap`, `close`). Under each of them are the
--     proofs: Session/Agreed is about a handshake with any other side, Session/Completes about
--     one with an honest server (Session/Server), by what Hello/Accepts, Finish/Sends and
--     Finish/Accepts say of its flights. Tls/Channel/Fifo has the abstract view, a queue of
--     messages. Moc/Send is verimark_moc_send, which sends a command through the channel.
--   * driver/verimark-pairing.c pairs with the sensor and keeps the result in a file: Tls/Pairing
--     and Tls/Pairing/Files, over an interface (`Files`) for the calls on files.
--   * driver/verimark.c opens and closes the device: Device/Commands has its blocking commands,
--     Device/Open `dev_open` and `dev_close`; Device/Scripts says which of the sensor's answers
--     they read.
--   * Examples has each property at a concrete input. Common has what the models share, Usb the
--     control transfers.
--
-- How the code is modelled. A C buffer is the list of its bytes, each a number; `read` and `copy`
-- (Common/Bytes) give `fault` outside the buffer, so that the absence of `fault` is memory safety of
-- the parsers. A GError is `err`. Numbers are natural numbers, with the wrap-around of the C type
-- written out where it can occur.
--
-- A machine of libfprint's (FpiSsm) is the function `drive` of Ssm: from a state's request and a list
-- of events, one for each callback, it makes the requests sent, in order, the status and the context
-- that the callbacks leave. A run of fewer events than it takes ends in a state (`at`). What libfprint
-- does on `fpi_ssm_next_state` is the parameter `next`; the hypothesis `Follows` says, for the states
-- of a machine, that they follow one another as the enumeration lists them. An action `undefined` is
-- no act of the driver's: it stands for a callback that reads outside a buffer. An event carries the
-- error, the bytes or the answer that a callback is given, and the clock's reading, in any
-- combination, so that what holds for all lists of events holds for any sensor.
-- A capture that a machine starts is one request, and its completion one event.
--
-- The channel and the device are changed by functions from a state to a state and an outcome (`Action`
-- of Common/Actions); a call that fails leaves the state as it was when it failed, as the C code does.
-- What lies behind a callback (VerimarkTlsIo, VerimarkPairIo) is a state of any type beside them. In
-- Device that state is `World`: the answers to each command, the queued interrupts, the files, and
-- what the driver has done. What RAND_bytes and the signature draw is an argument.
--
-- Most loops of the C code are structural recursions: on the rounds that are left in the planning of
-- chunks (VERIMARK_WRITE_CHUNKS_MAX of them, which is the loop's own bound), on the events of a reply
-- that are left to look at, on the list of answers of the device. Three loops have fuel: the one over
-- the records of a reply (Tls/Channel) and the one over handshake messages (Tls/Channel/Hello), with
-- one more than the number of bytes, as each turn passes a header; and the one of the key derivation
-- (Tls/Prf), with one more than the length asked for, as each turn makes a byte. Fuel that runs out
-- gives `fault`, so that the absence of `fault` is termination too.
--
-- Not modelled: what the capture machine's wait for an interrupt does between its events, so that the
-- machines get its result as an event; the machines over the channel, so that their replies are what
-- `moc_send` hands out; verimark_ecdsa_verify, which the driver does not call, and the seams
-- for tests. A key that a failed derivation has filled in part stays as it was in the model. Also not
-- modelled: the copying and freeing of buffers, the log, and the passing of a cancellable (the effect
-- of a cancellation is an error event); libfprint, GLib, GUsb and OpenSSL; the machine's seed of
-- /etc/machine-id, which the SID is a parameter in place of.
pub mod Common
pub mod Framing
pub mod Usb
pub mod Ssm
pub mod Moc
pub mod Transport
pub mod Examples
pub mod Tls
pub mod Interrupt
pub mod Device
