-- ===== src/Lib.antt =====
-- Models of proxy-speedtest, a program that measures proxies given by links and subscriptions.
--
-- A link, such as `trojan://password@host:port?security=reality`, goes to the first parser of
-- internal/parser that takes it, and becomes a `ProxyConfig` of internal/xray. A subscription (a
-- URL, a file, a text in base64 or links line by line, or a Clash file) becomes a list of them. The
-- dialer of internal/xray turns a configuration into the JSON that xray-core is started with, and
-- config/config.go into a summary for display. The parsers and the builders keep no state: they are
-- functions of their input and of the packages they call. The picker, which gives the result of the
-- first of several goroutines, the allocator of buffers, and the loop of the tester with its
-- goroutines do, and are models of steps; the cache and the rewind reader are records that their
-- methods change. A test of a proxy gives a result, and the results become an output that is sorted
-- and counted; web/profile.go reads what is to be tested, web/cmdoutput.go where the output goes. A run
-- of web/profile.go announces its links, tests them at the same time, with a ping, a download and an
-- upload, and collects a node of each test; a test writes messages, which web/cmdprogress.go shows.
-- What the network answers to each test, and the order in which nodes arrive, are parameters: the
-- theorems hold for all.
--
-- Which file models what, each module with its children:
--   Prelude, Text    shared names; Go strings as lists of bytes, packages strings and strconv
--   GoLib            the packages that are called and are not part of the repository
--   Xray.Config      internal/xray/config.go: the configuration and its settings
--   Xray.Json        maps for JSON as the dialer fills them
--   Xray.Stream      internal/xray/dialer.go: buildStreamJSON
--   Xray.Outbound    internal/xray/dialer.go: buildJSONConfig, buildOutboundJSON, build...JSON
--   Parser.Vmess ... Parser.Direct   the file of internal/parser of the same name
--   Parser.Base64    decodeBase64 (parser.go) and decodeBase64Flexible (shadowsocks.go)
--   Parser.Link      internal/parser/parser.go: ParseLink and ParseLinks
--   Parser.Subscription   internal/parser/parser.go: ParseSubscription
--   Parser.Clash     internal/parser/clash.go
--   Config           config/config.go: Link2Config
--   Download.Range   download/range.go
--   Picker           common/picker/picker.go, as steps of goroutines; Picker.First its proofs
--   Pool             common/pool/alloc.go; Pool.Classes and Pool.Alloc its proofs
--   Cache            common/cache/lrucache.go; Cache.Recency its specification, and Cache.Life sequences
--                    of its methods; the other modules of Cache its proofs
--   Tester           internal/tester/tester.go: New and testOne; Tester.Schedule the steps of Test, and
--                    Tester.Sync TestSync; the other modules of Tester its proofs
--   Result           internal/result/result.go: nodes, counts and orders; Result.Order, Result.Ping and
--                    Result.Counts its proofs. sort.Slice is a parameter, SliceSort
--   Socks5           transport/socks5/socks5.go; package net is a parameter, Net
--   Command          web/cmdoutput.go: mergeHeaderLists and ParseOutputPlan
--   Profile          web/profile.go: parseMessage and groupFor; Profile.Phase runSpeedPhase, Profile.One
--                    testOne with its ping, Profile.Run run; the other modules of Profile their proofs
--   Message          web/msg.go: the messages of a run
--   Progress         web/cmdprogress.go: CMDProgressWriter; Progress.Announce and Progress.Counts its proofs
--   Dns              dns/util.go and dns/resolver.go, on the cache; Dns.Fresh and Dns.Addresses its proofs
--   Download.Endpoint   the addresses of download/download.go
--   Download.Meter   the ticker of download/download.go DownloadWithURLThreads and UploadWithURLThreads
--   Download.Upload  the body of an upload of download/download.go, and what is hashed for it
--   Retry            utils/retry.go; Retry.Attempts its proofs
--   Rewind           common/io.go: RewindReader, over a reader that is given by chunks of bytes
--   Download.Speed   the unit of internal/tester/download.go FormatSpeed
-- The other modules hold proofs: Xray.Laws, Xray.Insecure and Xray.Address on the configuration and
-- its JSON; Parser.Returned, an induction over the configurations that ParseLink can return, and on
-- it Ports, Secured, Dialable and Origin; Parser.Feed, the same for the lists of ParseSubscription;
-- Parser.Dispatch, Lines, Panics and SsLaws. Tests hold runs.
--
-- A method of a Go type is a function of the module of that type; a pointer that can be nil is an
-- Option. A parser returns an `Outcome`: a configuration, an error, or a panic, which is what the
-- dereference of a nil pointer is. Errors keep their kind and not their text. A map is a list of
-- keys and values, in which a later assignment replaces an earlier one.
--
-- A value of `GoLib F` stands for net/url, net, encoding, yaml, net/http and os, with `F` for
-- float64; in general no theorem assumes anything of them but `IsSound`, that a conversion into
-- uint16 has 16 bits. Four more parameters state what Go documents: that rand.Intn of Dns is below
-- its argument, IsSeconds of Dns, that a duration of at most n seconds is at most n when it goes through
-- float64 into a uint32, SliceSort of Result, that sort.Slice permutes and orders, and Net of Socks5,
-- with the lengths of IP addresses. The greatest capacity of a channel is a parameter of Profile.Run. ParseUint and Atoi are modelled as the package documents them, with their
-- value at a range error. Strings are bytes: case folding and white space outside of ASCII are not
-- modelled.
--
-- Fuel: `itoa` runs on one more than the number itself, which bounds the count of its digits; the
-- loop for the unit of a speed runs on 8, and a count below 2^63 needs 7 rounds at most; the bits of
-- a number of 32 bits are counted in 32 rounds. The loop of maybeDeleteOldest runs on the length
-- of the list, from which each round takes an element, and that of Discard on the number of bytes, of
-- which each round takes 128; that which fills a buffer of an upload runs on the number of bytes, of
-- which each round writes one at least. The batches of the links of a run are made on the number of
-- links, of
-- which each batch takes one at least.
--
-- Not modelled: the instance of xray-core that the dialer starts, the HTTP streams of a measurement,
-- the lists that web/profile.go reads, the addresses of the machine in its messages, the DNS clients, the
-- network layers, the RPC and web servers, rendering and the interface.
pub mod Prelude
pub mod Text
pub mod GoLib
pub mod Xray
pub mod Parser
pub mod Config
pub mod Download
pub mod Cache
pub mod Command
pub mod Dns
pub mod Message
pub mod Picker
pub mod Pool
pub mod Profile
pub mod Progress
pub mod Result
pub mod Retry
pub mod Rewind
pub mod Socks5
pub mod Tester
