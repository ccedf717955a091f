-- ===== src/Lib.antt =====
-- A PacketCable Multimedia policy server in C: a web API takes gate requests in JSON, and for each
-- cable modem termination system (CMTS) a session speaks COPS with it over TCP.
--
-- The parts, from below. src/lib/pack.c reads and writes big-endian integers and joins buffers
-- (Pack). src/pcl/cops.c builds COPS objects and messages and tests received headers (Cops).
-- src/lib/iputil.c turns addresses in text into bytes (Iputil). src/pcl/pcmm.c builds the gate
-- specification, classifiers, traffic envelopes and identifiers, and decodes the objects of reports
-- (Pcmm, with Objects, Classifier, Envelope, Decode and Names). src/ps.c is a session: it sends
-- gate commands (`ps_proxy`: Session/Proxy) and leaves the answers of the CMTS in files for the API
-- thread that waits (`ps_pcmm_report`: Session/Report); `ps_new` and the answer to Keep-Alive are in
-- Session/Start. src/api/lcm.c is the table of sessions (Lcm), with its file
-- under RCFILE (Lcm/Rc). A session then runs in a thread of its own: `ps_recvd` takes one message
-- off the socket and reads its objects (Session/Receive), and `ps_statemachine` answers, or
-- connects again with `sock_connect` and `ps_admctl` (Session/Machine); Session/Socket has the
-- calls on its socket. src/api/routes.c has the handlers of the API: `gctl_connect` lets a session
-- into the table (Api), `gctl_lcm_reset` frees all of them (Api/Reset), `gctl_read_policy` turns
-- the JSON of a gate into classifiers and envelope (Api/Policy, with the lookups of Api/Json),
-- `gctl_04`, `gctl_07` and `gctl_10` send gate commands and wait for the answer (Api/Gates;
-- Api/Gates/Reports follows a report from the session's socket to the reply), and `json_err` and
-- `json_ok` write the reply (Api/Responses). src/conf.c has the options, from the command line
-- (Conf) or a configuration file (Conf/File), and removes old files (Conf/Clean). src/main.c reads
-- them and starts the API, and `gctl_webapi_init` then sends a connect request for each address of
-- the preflight list to the handler itself (Server). The web framework serves requests in several
-- threads at once: Api/Race has `gctl_connect` in the steps between which another thread may run,
-- and runs of many requests by a schedule. src/lib/log.c writes the console, a log for each thread
-- and the error log (Log). Functions keep their C names; `unpackN` is `unpack_n` and `_log` is
-- `log`.
--
-- Base/Memory has the model of buffers: a pointer is the list of the bytes from it to the end of
-- its object, code that fills a buffer is a function from this list to its new contents, and an
-- access outside the object is `none`. `Stores k bs w` says that all `w` does is to copy `bs` to
-- `dst + k`. So a theorem that a call yields `some` bytes also says that no access leaves its
-- buffer. Integers are natural numbers with the wrap-around of their C type written out: `int` and
-- `int32_t` are patterns of 32 bits, `size_t` has 64 bits.
--
-- The loops of `ps_pcmm_report` and over the objects of a message run on fuel; one turn for each
-- object is enough when the objects' lengths are right. The loops that the system drives run on the
-- list of what its calls return: `recv`, `select`, the flags that other threads set, the attempts
-- to connect, the turns of a wait. The end of such a list is `unfinished`. All other loops are
-- structural. `inet_pton` is the record `Inet`, the bytes of a `float` in memory the record
-- `Floats`, yyjson the record `Yyjson` of lookups; the outcomes of locks, of `fopen`, `rand` and of
-- the start of a session and the contents of uninitialised objects are arguments.
--
-- A log file is the list of its lines, and can always be opened. Each call of `vfprintf` on the
-- `va_list` of a line has a text of its own. In Server the replies of ulfius
-- and the mutexes are arguments, and what yyjson finds in a body is the function `parse`.
--
-- Not modelled: `sock_get_timeoutv` and the start of threads (src/ps.c), the registration of the
-- handlers, `gctl_lcm_stat` and the unit-test code of src/api/routes.c, the removal of a thread's
-- log (src/lib/log.c), the printing of the version (src/main.c), and yyjson (another project's
-- library).
pub mod Base
pub mod Pack
pub mod Cops
pub mod Iputil
pub mod Pcmm
pub mod Session
pub mod Lcm
pub mod Api
pub mod Conf
pub mod Log
pub mod Server
