-- ===== src/Lib.antt =====
-- kasten-frs-web is a web helper for Kasten's FileRecoverySessions (FRS): an operator logs in, picks
-- an FRS or makes one with a wizard, and browses and downloads the files that the FRS serves by SFTP.
-- A request passes the gate of internal/auth; its handler in internal/handlers asks the API server
-- through internal/k8s, takes an SFTP session from the pool of internal/sftpclient by the user's
-- cookie and the FRS, and reads files through it.
--
-- The files, and what they are about:
--   Base/: lists, texts as lists of bytes, integers, association lists, Boolean tests, results.
--   Std/: the functions of Go's library that the source leans on, written out: package strings
--     (Strings), path and path/filepath on Unix (Paths), encoding/base64's RawURLEncoding (Base64),
--     strconv.ParseInt and FormatInt (Strconv).
--   SftpClient: internal/sftpclient. Validate: validatePath. Chroot: resolveAbsoluteTarget.
--     Junctions: ancestorWalkResolve. Listing: ListDir, Open, Stat and fileInfoWithDir. Pool: pool.go.
--     HostKey: the host key signatures. Dialing: NewClient, Dial and Session.Close. TestServer: the
--     file system of testserver.go, which the tests serve.
--   Auth: internal/auth/session.go. Auth/Gate: internal/auth/auth.go.
--   K8s: internal/k8s. Frs: the views, listing and reading of frs.go. Frs/Writing: creating and
--     deleting. Frs/Source: LookupFRSSource. Waiting: WaitForReady. Sorting: sort.Slice.
--     RestorePoints: restorepoints.go; Details in it: the volumes. Client: client.go. Credentials:
--     credentials.go.
--   Http: requests and responses of net/http.
--   Handlers: internal/handlers. Server: the parts of the Server and its state. Routes: which
--     handler a request reaches. Serving: the server as a whole, and the histories of one that runs.
--     Paths: the text helpers. Sessions: the table of FRSes, connecting and deleting. Browse: handleBrowse and the polling endpoint. Download and Archive: the two
--     downloads. Watch: the watch map. Wizard: the wizard's POST handlers and the goroutine that
--     watches a new FRS. Wizard/Steps: its GET handlers.
--   KeyMgr: internal/keymgr. Config: internal/config. Startup: internal/startup. Middleware:
--     internal/logging and internal/server. Helper: cmd/helper/main.go, which puts the parts together.
--   Tests in each part: runs of the definitions on concrete data.
-- A definition has the name of the Go function in snake case; a helper named for a stage of a
-- handler (connect_dialled, browse_viewed) is the rest of it after the call it is named for.
--
-- How it is modelled. The SFTP server, the API server and the cluster are parameters: functions on a
-- state of theirs, so that each call may be answered differently. The clock is an argument, in
-- nanoseconds. HMAC-SHA256, client-go, package ssh, encoding/json and time.ParseDuration are
-- parameters. A mutex that a method holds throughout makes the method one step; a handler is one
-- step as well, and the end of the wizard's goroutine is a step of its own. The
-- pool knows a session by a number, as the source does by a pointer. A Go int64 or time.Duration is
-- an integer without a bound: the quantities compared are far from the bounds.
-- sort.Slice is taken as insertion sort, one of the orders that it may give to equal elements.
-- An object of the API server's always has a time of creation; in the source a missing one is the zero
-- time, which is later than no other. A status below 200 is taken as final, though net/http sends it
-- as informational; no handler writes one. strings.TrimSpace trims the spaces of ASCII only.
--
-- Loops. The discovery of the chroot depth and the ancestor walk run for the constant number of
-- rounds that the source gives. WaitForReady runs over the list of what happens in its rounds. The
-- walk of an archive follows links and may be endless in the source, so it takes fuel; what it has done
-- when it goes deeper than the fuel reaches is given by the walk that is stopped there (Archive/Cut).
--
-- Not modelled: the templates and the log lines, internal/metrics, the embedded files, the scheme of
-- internal/k8s, the printing of sizes with floating-point numbers, the listeners of the server and of
-- the test server.
pub mod Base
pub mod Std
pub mod Config
pub mod K8s
pub mod KeyMgr
pub mod Middleware
pub mod Startup
pub mod SftpClient
pub mod Http
pub mod Auth
pub mod Handlers
pub mod Helper
