-- ===== src/Lib.antt =====
-- A model of A Healthy DNS, an authoritative DNS server that publishes only the addresses whose
-- health checks succeed. Paths below start at indisoluble/a_healthy_dns/ in the repository.
--
-- The program. A configuration names a hosted zone, its aliases, name servers, and for each
-- subdomain a set of addresses with optional health ports. The zone updater checks the addresses in
-- a loop and rebuilds the zone in one transaction when a status has changed, when the zone was never
-- built, or when its signatures are due. The UDP handler answers each packet from the committed
-- version of the zone. The updater runs in a thread that the main thread starts and stops. It writes
-- the zone and the handler reads it; the other shared object is the event that tells the thread to
-- stop.
--
-- The files.
-- Base: results and exceptions, numbers, texts as lists of code points, frozensets as lists without
-- equal elements (Base/Set), `sorted` (Base/Sorting).
-- Json: values of type `Any`. Unicode: the database behind `str.isdigit` and `int`, a parameter.
-- Tools/Ip: tools/is_valid_ip.py, is_valid_port.py and normalize_ip.py. Tools/Subdomain:
-- tools/is_valid_subdomain.py. Tools/Clock: tools/uint32_current_time.py and
-- can_create_connection.py.
-- Dns: what the source calls of dnspython, as records of operations (names, record sets, zones and
-- their transactions, messages), each with a record of laws that state documented behaviour where
-- a theorem relies on it, and with a concrete instance in a module Sample.
-- Records: records/time.py, a_healthy_ip.py, a_healthy_record.py and a_record.py, zone_origins.py,
-- soa_record.py and ns_record.py, dnssec.py, each in the file of its name.
-- Updater: dns_server_zone_updater.py. State has the fields of `DnsServerZoneUpdater` and
-- `__init__`, Refresh the health checks, Rebuild `initialize_zone` and `update`; their
-- children say what a round of checks does (Refresh/Rounds), what a rebuild commits
-- (Rebuild/Contents), that it returns (Rebuild/Returns) and when it happens (Rebuild/Triggers).
-- Updater/Current says what a zone holds that is current for the updater's records, and
-- Current/Renewed that an update keeps it so.
-- Handler: dns_server_udp_handler.py. Outcome has `_classify_query` and what it calls; Outcome/Shape
-- and Outcome/Described say what an outcome is. Packet has `handle` and the rest of the file; its
-- children say what is sent for a question that is served (Packet/Served), for a packet that is
-- refused (Packet/Refusals), and which packets are answered at all (Packet/Answered).
-- Config: dns_server_config_factory.py. Its children say what each part of a configuration is made
-- of (Addresses, Entries, Records, NameServers), what `make_config` promises (Accepted) and that it
-- returns (Returns).
-- Threaded: dns_server_zone_updater_threaded.py, with the thread as a step relation; Serving has its
-- invariant, Stopping its end. Main: `_main` of main.py.
-- Service: the parts together, from the arguments to a running updater (Startup) and from the
-- records to the answers (Answers, Running) and the packets (Datagrams).
-- Each component has its concrete inputs in modules Sample and Tests.
--
-- How the code is rendered. A call that may raise returns a Result, and an exception that steers the
-- control flow is a constructor of a result type (ParseOutcome, QuestionOutcome). An object that
-- changes is passed from call to call: `self` of the updater, the transaction, the state of a
-- generator. `time.time()` is a list of readings, one for each call, so the wait for a new serial is
-- recursion on that list: it gives nothing where the readings run out. The answers of the
-- network and of the stop test are functions of the number of the call. All other loops are
-- recursion on the list that the code iterates over. The one function on fuel prints a number: its
-- fuel is more than the number, and each round divides by ten. Integers are unbounded, as in Python;
-- `float` of an integer is that integer, without the rounding above 2^53 and the OverflowError near
-- 2^1024. The two readings of `datetime.now` in one update, for the test whether to sign again and
-- for the new signatures, are one. What a client reads of a datagram is an operation of the message
-- library, with the laws that relate it to printing.
--
-- A thread is where it stands in its loop, its statements are the constructors of a relation, and
-- what two threads do is a sequence of steps: the main thread sets the event, the other reads it. A
-- call of `update` is one step, and until it is done the questions are asked of the zone before it.
-- The zone is one object that the updater writes and the server reads: in the model, a field of the
-- updater that the questions are asked of. The names of records are written in full and those in the
-- zone relative to its origin, as in the library: two names of one node are compared by what they are
-- relative to the origin.
--
-- Not modelled: logging, `__hash__` and `__repr__`, and how long a wait takes; of main.py the
-- argument parser, which is a table of options for argparse, the set-up of the log, and the signal
-- handler, which has another thread shut the server down.
pub mod Base
pub mod Json
pub mod Unicode
pub mod Dns
pub mod Tools
pub mod Records
pub mod Updater
pub mod Handler
pub mod Config
pub mod Threaded
pub mod Service
pub mod Main
