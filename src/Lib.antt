-- ===== src/Lib.antt =====
-- w4gns-logger, a contest logger for Morse-code operators: the table of QSOs with its duplicate check
-- and its upload queue, the contest index and scorer, the state QSO parties, the spots of the DX
-- cluster, the store of the companion map, and the ADIF reader and writer.
--
-- The program's parts. cmd/w4gns-logger/contest_state.go keeps an index of one contest's log: `record`
-- adds a QSO, `score` tallies points and multipliers from the index, and `wouldBeNewMultiplier`
-- answers the "new multiplier" flag while the operator types. The codes that count as multipliers
-- come from small files (naqp_area.go, iota.go, wpx.go and others), the rules from the event catalog
-- of events.go. A QSO party is scored from the log by qso_party_rules.go, which credits a QSO once for
-- each pair of counties. qso_validation.go and bandplan.go say what a QSO must be; store.go keeps the
-- QSOs in an SQL table, answers whether a call is a duplicate, and queues a QSO's uploads in the same
-- transaction. outbox.go works that queue: a periodic drain claims due rows, uploads them, and marks
-- them done or failed. cluster.go reads the spots of the DX cluster and cluster_filters.go picks the
-- ones to show. internal/mapfeed/store.go keeps the spots heard on the
-- DX cluster for a browser, which polls for the changes since a revision. adif_import.go and
-- adif_export.go read and write logs as ADIF files.
--
-- Which file models what:
--   Base      names of the libraries, Boolean tests, sets and maps as lists in order of insertion
--   Text      Go strings as lists of bytes; the functions of strings and strconv that are called
--   Exchange  the functions from a received exchange or a country to a multiplier value
--             (exchange_area.go, tn_county.go, canton.go, rdxc_oblast.go, dok_district.go,
--             arrl_section.go, naqp_area.go, sst_area.go, iaru_zone.go, sac_area.go, wae_country.go,
--             iota.go and `countryInList` of events.go), the tables in Exchange/Tables
--   Wpx       wpx.go
--   Contest   contest_state.go: Types (`contestState`, `qso`, the rules), Record (`record`), Points
--             (`pointsTotal`), Score (`multiplierCount`, `score`), Advance (`wouldBeNewMultiplier`),
--             Queries (`isWorkedOnBand`, `checkPartial`, `continentSummary`, `setStation`,
--             `buildContestState`); Queries/Partial, Queries/Complete, Sets, Keeps, Fresh, Agreement,
--             Unscored, Invariant, Totals and Worked hold the proofs, each named for its subject
--   Party     qso_party_rules.go: Exchange (`partyExchange`), Credits (`partyCredits` and the keys),
--             Score (`partyScore`, `partyNewMultiplier`, `isPartyDupe`); Exchange/Places, Score/Dupes
--             and Score/Bounds hold the proofs
--   Cabrillo  the texts of cabrillo_export.go that the parties read
--   Submission  contest_validation.go: the validators of single exchanges. Areas holds the checks that
--             several share, National, Districts and Stations the contests with a code for one
--             country's stations, Provinces the ones that read a province off the call, Counties and
--             Charts the QSO parties, Locations the exchanges with a name or a location; Counted and
--             Accepted hold proofs
--   Validation  qso_validation.go, bandplan.go and the grammar of grid.go, with Storable for what
--             a stored QSO is, Checks and Stored for the proof
--   Store     store.go: Insert, Change (update, flag, delete), Import and Dupe, over the transactions
--             of Transaction; Rules and Always hold the rules of proof for these, and Queued, Atomic,
--             Delete, Links, Import/Again, Import/Batch, Dupe/Scopes and Dupe/Logged the proofs
--   Outbox    outbox.go, with Claims, Backoff, Keys and Live for the proofs
--   Cluster   cluster.go and, in Filters, cluster_filters.go; Printable and Filters/Blank for the proofs
--   Mapfeed   internal/mapfeed/store.go, with Delta and Ids for the proofs
--   Adif      the parser of adif_import.go as a state that takes a byte at a time, with Bounds; the
--             writer of adif_export.go in Export; Lengths, Tags and RoundTrip hold the proofs
--   Tests     runs on small inputs
--
-- How the code is modelled. A function that changes its receiver takes the state and returns the
-- new one. A Go map that only tests membership is a list without repetitions, any other map an
-- association list; Go ranges over maps in no fixed order, and the totals that are modelled are sums,
-- which no order changes. The struct's pairs of fields xByBand and xAll are two functions, from
-- the name of the pair to its two sets. Points, distances and counts are natural numbers without a
-- bound, since a log is far below 2^63 points; `strconv.Atoi` keeps its range, and the map's store
-- counts its revisions modulo 2^64 and its event ids as `int64`, which goes from the greatest to the
-- least. Instants are nanoseconds in the queue and the map; a stored time
-- of the queue is RFC 3339 text in UTC, whose order is that of the whole seconds it spells. Every loop
-- is structural recursion, but for two that count rounds: the decimal printer, n + 1 of them for the
-- number n, which the round trip shows to be enough, and the chunks of an import, one for each record
-- where a chunk takes at least one, so that an import that returns has visited every record. A table is
-- the list of its rows; a statement of a transaction is a function on the tables that runs where the
-- database answers that it succeeds, and a transaction that does not commit leaves the tables as they
-- were.
--
-- Arguments of the model: the country file's lookup (`table.lookup` of dxcc.go) and the distance
-- between two grid squares in whole kilometres (floating-point, grid.go and heading.go), together a
-- `Reference`; in the index, the score of a QSO party, which `Party.Score.party_score` computes from the
-- index's QSOs; for the parties, the prefixes that the country file lists; the answers of the database
-- to the statements of the store and the queue; SQLite's LIKE, and `float64` with
-- `strconv.ParseFloat`; the random session identifier and the coordinates' test of the map's store.
--
-- Not modelled: the terminal screen (main.go and the panels), opening, migrating and repairing the
-- database, the queries that only fill a screen, the clients of external services (QRZ, WRL, POTA,
-- LoTW, the connection to the DX cluster), the map's web server, the lines of a Cabrillo file, the
-- format CSV, the step between an ADIF record and a QSO, the loading and validation of the event
-- catalog, and of the validation of finished logs the choice of a validator by event and the
-- exchanges that `validateRegionalExchange` in contest_validation.go reads. Case and white space of
-- a text are those of ASCII. Numbers in the rules are natural: the catalog's validation, which
-- refuses negative ones, is not part of the model. A query with equal times has its rows in the
-- order of the table, where SQLite promises no order. `markUploadDone` and `recordUploadFailure`
-- are modelled for a database that carries them out; one that fails leaves the queue as it is. The
-- count that `insertQSOBatch` returns beside an error is left out.
pub mod Base
pub mod Text
pub mod Exchange
pub mod Wpx
pub mod Contest
pub mod Outbox
pub mod Mapfeed
pub mod Adif
pub mod Cabrillo
pub mod Submission
pub mod Party
pub mod Validation
pub mod Store
pub mod Cluster
mod Tests
