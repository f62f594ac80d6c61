-- ===== src/Lib.antt =====
-- Embedded network monitor: a verification library for the monitor daemon and its satellite display.
--
-- The daemon collects the state of the network interfaces (src/net/net_collector.c), keeps it in one
-- `net_state_t`, raises alerts on it (src/core/alerts.c) under a configuration of key and value pairs
-- (src/core/config.c), and serves it as JSON. A feeder on the host (satellite/host) turns the JSON
-- into frames on a serial line (satellite/protocol), and the firmware (satellite/firmware) decodes
-- them into the data that its display shows.
--
-- Files and code:
-- - Prelude, with Tests, Lists, Int, Window and Floating: Boolean tests, lists, integers and circular
--   buffers over the native numbers. `contents` of Prelude/Window is what a circular buffer holds,
--   oldest first, and `last n` what an unbounded record of it keeps.
-- - RingBuffer: src/core/ring_buffer.c, a function for each of ring_buffer_init, push, get, clear,
--   full and empty. RingBuffer/Laws compares it with the list of all samples.
-- - NetState: the records of src/net/net_collector.h, net_infra.h and net_discovery.h.
-- - Config: src/core/config.c. Entries has config_find and the get and set functions, Text what they
--   use of strtol and snprintf, File config_load and config_save. Laws, Numbers, RoundTrip, Loaded
--   and Order are about these.
-- - Alerts: src/core/alerts.c. Ignore parses the list of ignored interfaces, State has the static
--   variables as one record and alerts_init, push_alert, alerts_check, alerts_get_log and
--   alerts_clear_all on it. Due lists the alerts that a check has to raise.
-- - Satellite: Protocol is satellite/protocol/sat_protocol.h, Encoder and Json are
--   satellite/host/src/sat_encoder.c, Feeder is the loop of sat_feeder.c beside it, Data is
--   satellite/firmware/main/sat_data.c and Receiver sat_receiver.c beside it. Steps and Delivery
--   follow one frame through the receiver, EndToEnd goes from the JSON to the display.
-- - Collector: src/net/net_collector.c. State has its static variables, Proc the parsers of
--   /proc/net/dev and /proc/meminfo, Fast, Medium and Slow the three timer callbacks, and Start
--   net_collector_init with src/net/net_infra.c. History, Rates and Minute compare the histories with
--   the lists of all samples, Merge is about the array of interfaces and Infra about the turn of the
--   pings. Names is about what the parser gives. Kept, Invariant and Reach follow the arrays through
--   any sequence of timers, and Failed what a failed start leaves.
-- - Discovery: src/net/net_discovery.c, Trace discovery_trace_wan and Quality discovery_wan_quality.
-- - Dns: encode_qname and the query of src/net/net_dns.c.
-- - Ping: src/net/net_ping.c. Checksum has its checksum and the request, Probe the probe; Verified and
--   Echo are about these.
-- - Format: src/core/utils.c; Format/Addresses reads its addresses back.
-- - Api: src/api. Json has the documents of api_json.c and Routes the dispatch of api_routes.c, both
--   on the interface of cJSON in Cjson. Built, Shown, Ifaces, Status and Displayed follow a document
--   to the display, and Restore a configuration from one service to another.
-- - Tables: src/net/net_connections.c and net_arp.c. Scanf is what they use of sscanf, Readers has the
--   readers; Hex, Numerals, Mac, Files, Connections and Arp, with Collector/Devices, compare them with
--   tables as the kernel writes them.
-- - Wifi: src/net/net_wifi_mgr.c. Scan is the parser of wifi_mgr_scan and Manager has the operations;
--   Bounds and Runs are about any sequence of them, Networks and Scanned about what the parser gives.
-- - Satellite/Url is the URL parser of satellite/host/src/sat_feeder.c, with UrlRead, and
--   Satellite/Serial serial_write of sat_serial.c beside it.
-- - DataStore: src/core/data_store.c, and the getters of the histories; Saved is about a saved file.
-- - Beacon: src/api/api_beacon.c; Spaced is about when it sends.
--
-- Conventions: a pointer that may be NULL is an Option; a char array is the list of its bytes before
-- the NUL, cut where the code cuts it; `float` and `double` are a type with the operations of the
-- record `Floating`, of which no law is assumed but where a theorem names it, and a `float` that the
-- code makes of a `double` is its `narrow`; a cast of a `double` out of the range of an unsigned
-- type, which C leaves undefined, is whatever the machine gives; unsigned arithmetic has its
-- wrap-around written out. What the code reads from the system, the clock included, is an argument.
-- cJSON is the records `Json`, `Builder` and `Parser`.
--
-- Bounds and fuel: every loop is a recursion on the list it walks over or on a count that its bound
-- gives. Only the decimal printer of Config/Text runs on fuel, one more than the number, which each
-- step divides by ten. `long` has the 32 bits of the ARM target.
--
-- Not modelled: the LVGL user interfaces and the device drivers, the start and the polling of the
-- HTTP server on mongoose, the screenshot, the ioctls of the interfaces and of WiFi, logging and
-- start-up, and the copies of cJSON and mongoose under lib.
pub mod Prelude
pub mod RingBuffer
pub mod NetState
mod Samples
pub mod Config
pub mod Alerts
pub mod Collector
pub mod Discovery
pub mod DataStore
pub mod Dns
pub mod Ping
pub mod Format
pub mod Tables
pub mod Wifi
pub mod Beacon
pub mod Api
pub mod Satellite
