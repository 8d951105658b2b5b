-- ===== src/Lib.antt =====
-- ws-scrcpy-web, the TypeScript of src/: a server that mirrors Android devices over adb, and the
-- browser client that shows them.
--
-- The parts, and how they interact. The device's scrcpy server sends packets over a socket;
-- src/server/FrameReader.ts cuts them into frames, src/server/ScrcpyConnection.ts sends each frame over
-- a WebSocket behind a channel byte, and src/app/ScrcpyDemuxer.ts hands it to a player. Input goes the
-- other way: the classes of src/app/controlMessage give bytes (with src/app/BinaryWriter.ts), which the
-- demuxer sends and the connection writes to the device's control socket. File pushes, shells and file
-- listings share one WebSocket through src/packages/multiplexer; the server's end of a push is
-- src/server/goog-device/filePush/FilePushReader.ts. Device names, paths and subnets from the network
-- are checked by src/server/security/deviceInput.ts and src/common/SubnetParser.ts. An HTTP request
-- passes src/server/security/requestGate.ts and then the handlers of src/server/services/HttpServer.ts,
-- the first of which is src/server/auth/AuthGate.ts; accounts and sessions are in SQLite
-- (src/server/db/UserStore.ts, src/server/auth/session.ts), and src/server/api/AuthApi.ts and
-- UsersApi.ts change them.
--
-- The files, with what they model:
--   Prelude      names of the libraries, Boolean tests, lists, integers, exceptions as values (Thrown),
--                and the laws of `&` and `|` (Prelude.Bits)
--   Bytes, Text  numbers in bytes as DataView and Buffer have them; strings with TextEncoder
--   Reader       src/app/BinaryReader.ts: each readX is read_x, a state-passing function that may throw; Fields
--                has messages as lists of fields
--   Writer       src/app/BinaryWriter.ts: each writeX is write_x, chained by ▹
--   Control      src/app/controlMessage: toUint8Array of each message class is *_bytes, the create*
--                methods of CommandControlMessage are *_command, pushFileCommandFromData is
--                push_file_command_from_data
--   VideoSettings  src/app/VideoSettings.ts with the records of Rect.ts and Size.ts
--   Stream       FrameReader: src/server/FrameReader.ts (drain, onData is on_data); Forward:
--                startForwarding, sendChannel, onSocketMessage and parseMetadata of
--                ScrcpyConnection.ts; Demuxer: ScrcpyDemuxer.ts; Pipeline and ControlChannel join them
--   Multiplexer  Message: Message.ts; Channels: the state of Multiplexer.ts, send, createChannel and
--                getNextId; Events: the handlers of open, close and message, and close of a channel
--   FilePush     FilePushReader.ts: onMessage is on_message, its cases are on_new, on_start, on_append,
--                on_finish with on_pushed, and on_cancel
--   Security     src/server/security/deviceInput.ts (assertSafeRemotePath is in FilePush), and the route
--                of src/server/api/DeviceDiscoveryApi.ts that deletes files: delete_files, with shell
--                and exec of src/server/AdbClient.ts
--   Subnet       src/common/SubnetParser.ts, on strings as lists of code units
--   Auth         src/server/auth/loginPolicy.ts, and loginService.ts on one user's row
--   Accounts     the tables of src/server/db/migrations/001_initial.ts with UserStore.ts and
--                src/server/auth/session.ts; Login: loginService.ts and lockdown.ts; Password:
--                password.ts; Gate: AuthGate.ts and isAllowlisted; Api: AuthApi.ts, UsersApi.ts (Api.Users) and requireAdmin.ts, whose
--                routes are the constructors of Call; serve runs the gate and a handler
--   Web          src/server/security: OriginGuard, InstanceToken and RequestGate for the files of these
--                names; Cookie: parseCookie of authState.ts and the loop of parseTokenFromCookie
--   HttpServer   the request handler of src/server/services/HttpServer.ts: handle_request is the request
--                gate and then serve, call_of finds the route
--   Bitstream    src/app/player/naluScanner.ts, and stripEmulationPrevention of h264-utils.ts; what
--                the scanner returns is -1 or an offset, counted from the bytes at the loop's index;
--                Av1: src/app/player/av1-utils.ts, where f is read_bits
--   RollingWindow  src/app/googDevice/client/RollingWindow.ts
-- A module's children hold its lemmas, and its Tests the runs at concrete inputs.
--
-- State is a record, a handler a function from the state and its argument to the new state, what it
-- sends a list in the state, and an exception the value `throw` of Result. Where a handler awaits, it is
-- two steps. The texts of errors are not modelled. A file that is pushed is taken to exist from START
-- on, where createWriteStream opens it a little later. FilePush.Reachable follows a push also where an
-- answer throws.
--
-- Bounds and fuel. Fields of the wire keep their widths: a written number is taken modulo its width
-- (Bytes.to_uint), and Buffer's range checks are in Forward and FilePush. drain runs on the length of
-- its buffer, of which every round takes twelve bytes; next_id_loop on twice the number of channels and
-- two, since each step of a round passes an id in use and there are at most two rounds. Times, ids and
-- counts of the accounts are natural numbers.
--
-- A handler of the accounts runs to its end before the next request, so a state is reached by requests
-- in a row (Accounts.Reachable). A statement of SQL does to the lists of rows what SQLite documents.
--
-- Parameters. Text.TextCodec is the platform's strings with UTF-8 and trim, Control.Input.Pressure the
-- floating-point steps of a touch's pressure, FilePush's `units` the code units of a name,
-- `verify_password` in Auth the check of a password, and the outcome of adb's push the argument of
-- on_pushed. TextCodec's law asks nothing of a text with a lone surrogate or a leading U+FEFF, which
-- TextEncoder and TextDecoder change. Accounts.Login.Crypto is any way to hash and verify passwords and
-- to digest tokens, of which nothing is assumed; Accounts.Password.Platform is Node's scrypt, Base64
-- and Number, with what password.ts relies on, and node_crypto is password.ts as a Crypto;
-- Accounts.Api.Calls.Draws is the random values of a request and its time, one for all its reads of
-- the clock; Web.OriginGuard.Platform is the hostname that URL reads and isIP; `to_integer` is what
-- Number and String make of a row's id in a path; `shell` is whether a command succeeds on a device.
--
-- Not modelled: the user interface, the players and their other bitstream parsers, adb and process
-- management, the other HTTP handlers, settings and devices in the database, configuration and updates,
-- system services, and the Rust launcher and tray: they are glue over the platform, or left for later.
pub mod Accounts
pub mod Auth
pub mod Bitstream
pub mod Bytes
pub mod Control
pub mod FilePush
pub mod HttpServer
pub mod Multiplexer
pub mod Prelude
pub mod Reader
pub mod RollingWindow
pub mod Security
pub mod Stream
pub mod Subnet
pub mod Text
pub mod VideoSettings
pub mod Web
pub mod Writer
