-- ===== src/Lib.antt =====
-- Kryptik: a desktop system of isolated zones. Two of its Rust programs are modelled here.
--
-- compositor/wlproxy is the Wayland proxy between a zone's clients and the compositor:
--   * Wlproxy/Wire is compositor/wlproxy/src/wire.rs: `Header::parse` and `encode`, the argument
--     reader `ArgReader`, and in Wlproxy/Wire/Writer the `MessageWriter`. Bytes are numbers,
--     words are of the byte order of x86_64, and `usize` has 64 bits. A reader is passed along,
--     as the source moves it.
--   * Wlproxy/Protocol is compositor/wlproxy/src/protocol.rs: signatures, and `decode` by a
--     signature.
--   * Wlproxy/Tables is compositor/wlproxy/src/protocol_tables.rs, a constant for each interface,
--     with `find` of compositor/wlproxy/src/protocol.rs and the choice of a table that
--     compositor/wlproxy/src/session.rs makes.
--   * Wlproxy/Objects is the `Objects` of compositor/wlproxy/src/session.rs: the live objects of
--     a connection in two vectors of slots. Wlproxy/Failure has the errors of a session.
--   * Wlproxy/Session is `lookup` and `register` of compositor/wlproxy/src/session.rs, and the
--     end of an object, over the object map and the counts of windows and menus. A count below
--     zero is none, which stands for the overflow. Wlproxy/Session/History is `Session::new` and
--     the histories of a connection: what was registered and deleted, the last change first.
--   * Wlproxy/Policy is compositor/wlproxy/src/policy.rs: what may be bound, titles and app ids.
--   * Wlproxy/Clipboard is compositor/wlproxy/src/clipboard.rs with what the sessions, the
--     control socket and the main loop do to a clipboard. A history is a list of events. What a
--     session keeps beside it, its sources, devices and offers, is an argument of the event: the
--     types of a source, and the generation an offer was made for.
--
-- compartments/kryptikd is the daemon that launches and confines zones:
--   * Kryptikd/Seccomp is compartments/kryptikd/src/seccomp.rs: Rules has the argument rules of
--     the zone's filter, Program the whole filter, Machine the interpreter of
--     compartments/kryptikd/src/seccomp/tests.rs that runs one. Widened is the allowlist of a
--     zone by its policy, over a base list, a denied list and the calls of the capabilities as
--     arguments. Supplicant and Proxy are the filters of wpa_supplicant and of the Wayland proxy.
--     Names has the tables of names, and Zone the filter of a zone by its policy and capabilities.
--     A panic of an assertion is an error. The numbers of the system calls are the libc crate's,
--     and are fields of a record; that they fit the 32 bits of a comparison is a hypothesis.
--     The libc crate's number of a name is a function, an argument.
--   * Kryptikd/Caps is compartments/kryptikd/src/caps.rs, and Kryptikd/Policy is
--     compartments/kryptikd/src/policy.rs: the parser of a policy file, and the check of a policy
--     against a zone. Kryptikd/Policy/Filter composes them with the filter.
--   * Kryptikd/Time is the dates of compartments/kryptikd/src/time.rs.
--   * Kryptikd/Update is compartments/kryptikd/src/update.rs: Versions orders versions, Pointer
--     parses and accepts a statement of what is current, Listing is the files of a release and
--     which bytes are taken, Store the state and the operations, Put the bytes that arrive, and
--     Server the operations in any order. A `put` that completes the manifest is two steps, since
--     the source opens its lock while the manifest is checked: other operations may come between.
--     Whether the stage was removed meanwhile is a count of removals. The signature checks and
--     the free space are arguments. Seconds are integers, which saturate where the source does.
--   * Kryptikd/Broker is the requests of compartments/kryptikd/src/broker.rs: `parse_request`. The
--     parser of a claim of the time is an argument.
--
-- What the programs use of Rust's strings is in Common/Texts: a text of kryptikd is the list of
-- its code points.
--
-- Every loop is structural recursion but the one of `version_cmp`, whose fuel is the length of the
-- two versions: each round takes a byte of both at least. The zone filter's theorems take a
-- policy of at most 230 names, families and netlink protocols together: the source compares them
-- by jumps of one byte, and a policy file knows 19 names.
--
-- Not modelled: system calls, sockets and polling; the text of messages for people; the
-- forwarding of a session's messages and its shm pools; zone files, identities and colours
-- (compositor/zoneid); a file system that fails; the decisions on the clock, which are floating
-- point; and the rest of kryptikd, which launches zones and carries out
-- transfers.
pub mod Common
pub mod Wlproxy
pub mod Kryptikd
