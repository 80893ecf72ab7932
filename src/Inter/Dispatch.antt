-- ===== src/Inter/Dispatch.antt =====
-- tmpi_inter_msg_handle.
use tmpi.Base.{ℕ, Bool, false, not, ◌&&◌, List, [], ◌==◌, if◌then◌else◌, length, ℤ, eqb}
use tmpi.Intra.Types.{
  Supply, SendType, SHandle, Msg, Node, Env, send, persistent_send, immediate_send, remote_msg_send,
  remote_msgdat_send, announce, dat_send, msg_recv, dat_recv, msgdat_recv, not_ready,
}
use tmpi.Intra.Start.{has_data}
use tmpi.Inter.Wire.{Handled, handled}
use tmpi.Inter.Receives.{rms_handle, rmds_handle, rds_handle}
use tmpi.Inter.Sends.{rmr_handle, rdr_handle, rmdr_handle, rndy_handle}

-- the bytes that follow a message on the connection
unfoldable pub payload_of : Msg → List ℕ
payload_of (announce from to h xs) = xs
payload_of (dat_send from to sh r n xs) = xs
payload_of (msg_recv from to sh r n) = []
payload_of (dat_recv from to sh n e) = []
payload_of (msgdat_recv from to sh n e) = []
payload_of (not_ready from to sh n e) = []

-- the rank that a message is from
unfoldable pub from_of : Msg → ℤ
from_of (announce from to h xs) = from
from_of (dat_send from to sh r n xs) = from
from_of (msg_recv from to sh r n) = from
from_of (dat_recv from to sh n e) = from
from_of (msgdat_recv from to sh n e) = from
from_of (not_ready from to sh n e) = from

-- The checks of the debug level DBG_INFO; `whole` says that the header has the size of a tmpi_MSG.
-- The test of the type is a test of the bit that both announcements have.
unfoldable pub checks : (whole : Bool) → Msg → Bool
checks whole (announce from to h xs) =
    eqb h.src from
    && eqb h.dest to
    && whole
    && (if has_data h.handle_type then h.buflen == length xs else length xs == 0)
checks whole (dat_send from to sh r n xs) = whole && n == length xs
checks whole (msg_recv from to sh r n) = whole
checks whole (dat_recv from to sh n e) = whole
checks whole (msgdat_recv from to sh n e) = whole
checks whole (not_ready from to sh n e) = whole

-- an announcement by its type, with the default of the switch
unfoldable pub announced : Env → Supply → Node → SHandle → SendType → Handled
announced env s w h remote_msg_send = rms_handle env s.got_msg s.chunk w h
announced env s w h remote_msgdat_send = rmds_handle env s.got_msg s.chunk s.mb w h
announced env s w h send = handled false w
announced env s w h persistent_send = handled false w
announced env s w h immediate_send = handled false w

-- the switch of tmpi_inter_msg_handle
unfoldable pub dispatch : Env → Supply → Node → Msg → Handled
dispatch env s w (announce from to h xs) = announced env s w h h.handle_type
dispatch env s w (dat_send from to sh r n xs) = rds_handle env s.got_msg w sh r n
dispatch env s w (msg_recv from to sh r n) = rmr_handle s.got_msg w sh r n
dispatch env s w (dat_recv from to sh n e) = rdr_handle env w sh n e
dispatch env s w (msgdat_recv from to sh n e) = rmdr_handle env w sh n e
dispatch env s w (not_ready from to sh n e) = rndy_handle w sh e

-- tmpi_inter_msg_handle. Of the payload in `m` it reads only the size, at the debug level.
unfoldable pub msg_handle : Env → Supply → (debug whole : Bool) → Node → Msg → Handled
msg_handle env s debug whole w m =
    if debug && not (checks whole m) then handled false w else dispatch env s w m
