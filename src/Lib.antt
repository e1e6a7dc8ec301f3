-- ===== src/Lib.antt =====
-- Callstack: a library that drives a cellular modem over AT commands, for SMS and voice calls.
--
-- The parts, and the files that model them. Paths are from the repository's root.
--
-- * The PDU codec, `PDUEncoder` and `PDUDecoder` of callstack/sms/pdu.py: Pdu.antt and the files
--   below it. Alphabet has the GSM 7-bit tables and `_gsm7_septets`; Pack the packing of septets
--   into octets and back; Gsm7 `encode_gsm7` and `decode_gsm7`; Udh the three walks over a
--   user-data header; Phone the numbers in semi-octets; Hex the printing of octets; Submit the
--   SUBMIT PDUs; Segments `build_multipart_submit_pdus`; UserData what `decode_deliver_pdu` does
--   with the octets of GSM 7-bit user data.
-- * The accumulator of multipart messages, `MultipartAccumulator` of callstack/sms/reassembly.py:
--   Reassembly.antt. Its state is a record of the two limits and the pending groups, a table in the
--   order of insertion; `add_part` returns the new state with its result, or an error with no state.
-- * The command executor, callstack/protocol/executor.py, with the classification of lines by
--   callstack/protocol/urc.py: Protocol/Lines.antt and Protocol/Executor.antt. The loop of
--   `_collect_response` is a step function on the loop's variables and the result of one read. The
--   reader task is cut at its waits: Protocol/Reader.antt has its state, one step for each
--   arrival, and what a command in flight does with the queue. Protocol/Redaction.antt has what
--   the log shows of a command and its response. The builders of callstack/protocol/commands.py
--   are in Protocol/Commands.antt.
-- * The parser of responses, callstack/protocol/parser.py: Protocol/Parser.antt, each regular
--   expression a scanner made of the pieces in Protocol/Parser/Scan.antt; and the dispatcher of
--   unsolicited codes with its capture hooks, callstack/protocol/urc.py: Protocol/Urc.antt.
-- * The network service of callstack/network.py, with callstack/utils/signal_quality.py:
--   Network.antt and Utils/Signal.antt.
-- * The call service of callstack/voice/service.py: Voice/Service.antt and the files below it. Its
--   operations are written in a monad of state and errors, and whatever they wait for is a
--   parameter that may change the state in any way.
-- * The event bus of callstack/events/bus.py, with its bounded streams: Events/Bus.antt.
--   Events/Bus/Window.antt has the specification of a stream, a log with the consumer's place in
--   it.
-- * The call state machine of callstack/voice/state.py and the collector of digits of
--   callstack/voice/dtmf.py: Voice/State.antt and Voice/Dtmf.antt.
-- * The menus of callstack/voice/ivr.py: Voice/Ivr.antt, over what each attempt meets.
-- * The start-up of the modem, the check of the SIM and the loop that reconnects, callstack/modem.py:
--   Modem.antt. The counters of callstack/metrics.py: Metrics.antt. What
--   logs show, callstack/privacy.py: Privacy.antt.
-- * The store of messages of callstack/sms/store.py, with callstack/sms/types.py: Sms/Store.antt
--   and the files below it, of which Reports.antt has the delivery reports and Open.antt
--   `initialize`. SQLite is in Sms/Database.antt: two tables as the connection sees them and as
--   they are on the disk, and for each transaction which of its statements fails or whether the
--   commit does. Sms/Rows.antt has the lists with numbered items.
-- * The SMS service of callstack/sms/service.py: Sms/Service.antt and the files below it.
--   Payload.antt has the octets of a body, Replies.antt what is parsed of the modem's answers,
--   Incoming.antt the handlers of what the modem reports, Listing.antt a listing as it is printed.
--   The service's state has the store and the slots that are accepted and not cleared; the modem
--   is a function from commands to answers.
-- * The wrapper that retries flaky calls, callstack/utils/retry.py: Utils/Retry.antt.
-- * Multipart.antt joins the codec and the accumulator: the sender's build, the receiver's decoding
--   and the reassembly of what arrives.
-- * Prelude.antt and the files below it have the shared names, the Boolean tests, and the lemmas on
--   lists and bits. Tests.antt has runs at concrete inputs.
--
-- The parts meet as in the program: a segment's septets are packed behind a header that the decoder
-- walks, the metadata that it reads there is the key under which the accumulator keeps the part, and
-- the executor carries the PDUs and the text lines between the codec and the modem.
--
-- Conventions. Texts and octet strings are lists of natural numbers, a text's its code points. An
-- exception is `none`, or a constructor of a result type where more than one is told apart. The
-- walks over a header run on fuel, the length of the header and one more, and the theorems on them
-- show that this is enough. Times are natural numbers of one clock, and a schedule of reads stands
-- for the transport; reads that end stand for silence until the deadline. The wait for a
-- registration runs on fuel, one round for each unit of its timeout and one more, which is shown
-- to be enough; the search for an unused id on one step for each id that is in use. The random
-- reference of `secrets.randbits`, the table of `str.isdigit`, and of the service
-- `_parse_timestamp`, `int` and `csv.reader` are parameters.
--
-- Not modelled: logging; `decode_timestamp` and the outer framing of `decode_deliver_pdu`; the
-- tasks of asynchronous subscribers; what a call session plays, records and collects; the
-- cancellation of tasks; an error of the database while `initialize` writes what was pending; the
-- rest of the modem's lifecycle and the command line, which use what is modelled here; serial
-- ports, audio and files, which are input and output.
pub mod Prelude
pub mod Pdu
pub mod Reassembly
pub mod Multipart
pub mod Network
pub mod Metrics
pub mod Modem
pub mod Privacy
pub mod Protocol
pub mod Events
pub mod Utils
pub mod Voice
pub mod Tests
pub mod Sms
