-- ===== src/Lib.antt =====
-- dvrbridge re-serves the H.264 video of closed DVR boards as RTSP. A driver (dvrbridge/drivers)
-- reads access units from a device; a stream of the hub (dvrbridge/hub.py) supervises the driver,
-- splits access units into NALs (dvrbridge/h264.py), and fans them out to subscribers; the RTSP
-- server (dvrbridge/rtsp) packetizes them for its clients.
--
-- Base: shared names; lists over the native numbers, bit masks, byte search and struct formats.
-- Rtp: dvrbridge/rtsp/rtp.py. `packetize` is `H264Packetizer.packetize`, a state transformer of the
-- packetizer; `none` is `struct.error`. Rtp/Receiver is the receiver of tests/test_rtp.py.
-- H264: dvrbridge/h264.py, `nal_type`, `is_vcl` and `iter_nals`; H264/Splitter is `AnnexBSplitter`.
-- H264/Sps is `strip_emulation_prevention` and `_BitReader`, H264/Sps/Parse is `parse_sps`, as a chain of
-- steps of the reader; H264/Sps/Layout is an encoder of parameter sets. H264/Join is the inverse that
-- `split_access_units` of dvrbridge/testing.py applies.
-- Hub: dvrbridge/hub.py, `on_frame` is `Stream._on_frame`. Hub/Run is `Stream._run`, cut at the points
-- where it awaits: `Task` says where it stands, `Event` what wakes it or which method another
-- task calls, and `step` what follows up to the next wait. Hub/Delivery is one subscriber over
-- time, Hub/Registry is `StreamHub`. Hub/Clock is `TimestampMapper`, over a record of the operations on
-- doubles that it uses; elsewhere a frame brings its 90 kHz time.
-- Netdvr3: dvrbridge/drivers/netdvr3.py, the start packet and the frame headers. Netdvr3/Preamble is the
-- loop before the first frame, over what each read returns; Netdvr3/Loop is the frame loop
-- of `NetDvr3Driver.frames` with `_resync`, over the bytes that are still to come. Netdvr3/Info is
-- `_parse_preamble`. The device's side, `frame_header` and the reading of the start packet, is that of dvrbridge/testing.py.
-- Device: dvrbridge/testing.py, `split_access_units` and what `FakeDvr` sends on a connection;
-- Device/Driven is the driver on a connection to it, Device/Described what it reads of the preamble.
-- Rtsp: dvrbridge/rtsp/server.py, the state of a `ClientConnection` and the reading of a `Transport`
-- header. Rtsp/Interleaved is the framing of packets on the connection of the requests. Rtsp/Requests
-- has the handlers (`on_setup` is `_on_setup`, and so on), Rtsp/Dispatch
-- `_dispatch` with the authentication and the events of a connection: a request, the first step
-- of the media pump, its end, and the end of the connection. A handler returns its answer and the
-- new state; what it was given by its surroundings (the time, a token, a bound socket, a new
-- subscriber's number) is a `Moment`. Rtsp/Reading is `_read_request` and the loop of `run`, over the bytes
-- that a client sends up to its end, with texts as lists of code points (Rtsp/Text); there the
-- `_dispatch` of a request is an argument, a function that may raise. Rtsp/Answer is
-- `_respond`, Rtsp/Answer/Client the client of tests/tests_rtsp_client.py, Rtsp/Pump what `_pump` writes over TCP.
-- Config: dvrbridge/config.py and the lookup of dvrbridge/drivers/__init__.py, on a parsed document. Cli:
-- dvrbridge/cli.py, how `serve` begins and the loop of `probe`.
-- Pipeline: the way of a stream from the access units of a driver to the packets of a viewer.
--
-- Numbers are natural; a byte is a number, and the formats say where it is below 256. Times are whole
-- milliseconds. A subscriber is known by a number. Loops that are not structural run on fuel: `drain` of
-- the splitter on the length of its buffer, `resync_loop` on the length of the input, `frame_loop` on
-- the bytes left: every round but the last takes a byte of these at least; so do `header_loop` and `serve`
-- of Rtsp/Reading on the bytes that are still to come,
-- and `probe_loop` on the channels that it may ask.
--
-- Not modelled: sockets, logging, time limits, the scheduling inside one step of the event loop, how long
-- closing a generator takes,
-- the splitting of a request line and of a `Transport` header into fields
-- (the handlers take them split), the session description, the parsing of TOML and of arguments, what the command line prints, and `cat`.
-- Digits and letter cases of scripts other than Latin are left out where a header is read.
-- Credentials of the camera are taken as their bytes, which the driver and the simulator decode alike where they are ASCII.
mod Base
pub mod Rtp
pub mod H264
pub mod Hub
pub mod Netdvr3
pub mod Rtsp
pub mod Device
pub mod Pipeline
pub mod Config
pub mod Cli
