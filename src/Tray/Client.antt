-- ===== src/Tray/Client.antt =====
-- The client of the status socket: crates/tray/src/lib.rs. What connecting, writing and reading give
-- are arguments.
pub mod Updates
pub mod Wired
use Prim.Native.String.{◌++◌ as str_append}
use konstantin.Common.{
  ℕ, suc, String, ◌-◌, ◌/◌, ◌%◌, Option, none, some, ltb, if◌then◌else◌, unwrap_or,
}
use konstantin.Common.Outcome.{decoding, bail, Result, ok, err}
use konstantin.Common.Outcome.{◌>>=◌, ◌>>◌}
use konstantin.Common.Int.{ℤ, pos, negsuc}
use konstantin.Common.Decimal.{decimal, decimal_padded}
use konstantin.Proto.{UserStatus, Response, status, status_update, ack, error}
use konstantin.Proto.Frame.{FrameError, closed}
use konstantin.Proto.Frame as F

-- A frame's outcome under `context`.
abbrev pub in_context : F.Outcome FrameError Response → Result Response
in_context (F.ok r) = ok r
in_context (F.err e) = err decoding

-- The answer to `GetStatus`; `show` is the debug format of a response.
unfoldable pub status_of_response : (Response → String) → Response → Result UserStatus
status_of_response show (status s) = ok s
status_of_response show (error message) = err (bail (str_append "daemon error: " message))
status_of_response show (status_update s) =
    err (bail (str_append "unexpected response: " (show (status_update s))))
status_of_response show ack = err (bail (str_append "unexpected response: " (show ack)))

unfoldable pub fetch_status :
    (Response → String)
    → Result (Unit {0})
    → Result (Unit {0})
    → F.Outcome FrameError Response
    → Result UserStatus
unfolding status_of_response
fetch_status show connected sent frame = do
  connected
  sent
  resp ← in_context frame
  status_of_response show resp

unfoldable pub update_of_response : (Response → String) → Response → Result (Option UserStatus)
update_of_response show (status_update s) = ok (some s)
update_of_response show (error message) = err (bail (str_append "daemon error: " message))
update_of_response show (status s) =
    err (bail (str_append "unexpected response on subscribe stream: " (show (status s))))
update_of_response show ack =
    err (bail (str_append "unexpected response on subscribe stream: " (show ack)))

-- `Subscription::next_update`
unfoldable pub next_update :
    (Response → String) → F.Outcome FrameError Response → Result (Option UserStatus)
unfolding update_of_response
next_update show (F.ok resp) = update_of_response show resp
next_update show (F.err closed) = ok none
next_update show (F.err e) = err decoding

-- The format of seconds that are not negative.
unfoldable pub format_seconds : ℕ → String
format_seconds secs =
    if ltb 0 (secs / 3600)
    then str_append (decimal (secs / 3600))
        (str_append "h" (str_append (decimal_padded (secs % 3600 / 60)) "m"))
    else if ltb 0 (secs % 3600 / 60)
    then str_append (decimal (secs % 3600 / 60))
        (str_append "m" (str_append (decimal_padded (secs % 60)) "s"))
    else str_append (decimal (secs % 60)) "s"

-- The least `i64`, which has no opposite, is not one of the daemon's remaining times.
unfoldable pub format_remaining : ℤ → String
unfolding format_seconds
format_remaining (pos secs) = format_seconds secs
format_remaining (negsuc n) = str_append "-" (format_seconds (suc n))

-- From the environment's SCREENTIMED_SOCKET.
unfoldable pub default_socket_path : Option String → String
default_socket_path variable = unwrap_or "/var/run/screentimed.sock" variable

-- `Subscription::open`, from the connection and the writing of the request.
unfoldable pub open_subscription : Result (Unit {0}) → Result (Unit {0}) → Result (Unit {0})
open_subscription connected sent = do connected; sent
