-- ===== src/Api/Send.antt =====
-- The twelve sends: blocking, immediate and persistent, in each of the four modes. `me` is the
-- result of netq_transLocalRank(ukey_getid()), and takes the place of `a.from`; `s` is what the
-- allocators give, and `junk` what stands in `flag` of tmpi_Request_free_sh.
use tmpi.Base.{ℕ, Bool, false, Option, none, some, if◌then◌else◌, ℤ}
use tmpi.Intra.Types.{
  Code, Mode, Node, Env, Supply, success, err_intern, standard, ready, sync, buffered,
}
use tmpi.Intra.Channel.{is_success, reply}
use tmpi.Intra.Create.{Args, Made, init_sh, blocking, immediate, persistent}
use tmpi.Intra.Start.{start_sh}
use tmpi.Intra.Complete.{Outcome, wait_sh, returns}
use tmpi.Api.Request.{after, request_free_sh}

-- A call whose constructor or start failed frees what it made, and returns the failure. What it
-- stores in *request is NULL.
abbrev pub give_up : Code → Outcome → Outcome
give_up c o = after o (λ w r. returns w (reply c none 0))

-- the call once the handle is there
abbrev pub when_made_sh : Env → (junk : Bool) → Made → (Node → ℕ → Outcome) → Outcome
when_made_sh env junk m f =
    if is_success m.code
    then f m.state m.handle
    else give_up m.code (request_free_sh env junk m.state m.handle)

-- the call once the send is under way
abbrev pub when_started_sh : Env → (junk got_msg : Bool) → (Node → ℕ → Outcome) → Node → ℕ → Outcome
when_started_sh env junk got_msg f w p =
    let (w', c) = start_sh env got_msg w p in
    if is_success c then f w' p else give_up c (request_free_sh env junk w' p)

-- The call with the global rank of its process. Without one it fails, and leaves in *request what
-- stood there: `old`.
abbrev pub with_rank : (old : ℕ) → Option ℤ → Node → (ℤ → Outcome) → Outcome
with_rank old none w f = returns w (reply err_intern none old)
with_rank old (some me) w f = f me

module _ (env : Env) (s : Supply) (junk : Bool) (me : Option ℤ) (w : Node) (a : Args) where
  -- tmpi_Send, tmpi_Bsend, tmpi_Rsend and tmpi_Ssend differ in the mode, and so do the other two
  -- kinds.
  unfoldable pub blocking_send : Mode → Outcome
  blocking_send mode = with_rank s.old_request me w (λ rank.
      when_made_sh env junk (init_sh env s w (record a { from = rank }) mode blocking)
        (when_started_sh env junk s.got_msg (λ w' p. wait_sh env w' p false)))

  unfoldable pub starting_send : Mode → Outcome
  starting_send mode = with_rank s.old_request me w (λ rank.
      when_made_sh env junk (init_sh env s w (record a { from = rank }) mode immediate)
        (when_started_sh env junk s.got_msg (λ w' p. returns w' (reply success none p))))

  unfoldable pub lasting_send : Mode → Outcome
  lasting_send mode = with_rank s.old_request me w (λ rank.
      when_made_sh env junk (init_sh env s w (record a { from = rank }) mode persistent)
        (λ w' p. returns w' (reply success none p)))

  unfoldable pub tmpi_send : Outcome
  tmpi_send = blocking_send standard

  unfoldable pub tmpi_isend : Outcome
  tmpi_isend = starting_send standard

  unfoldable pub tmpi_send_init : Outcome
  tmpi_send_init = lasting_send standard

  unfoldable pub tmpi_bsend : Outcome
  tmpi_bsend = blocking_send buffered

  unfoldable pub tmpi_ibsend : Outcome
  tmpi_ibsend = starting_send buffered

  unfoldable pub tmpi_bsend_init : Outcome
  tmpi_bsend_init = lasting_send buffered

  unfoldable pub tmpi_rsend : Outcome
  tmpi_rsend = blocking_send ready

  unfoldable pub tmpi_irsend : Outcome
  tmpi_irsend = starting_send ready

  unfoldable pub tmpi_rsend_init : Outcome
  tmpi_rsend_init = lasting_send ready

  unfoldable pub tmpi_ssend : Outcome
  tmpi_ssend = blocking_send sync

  unfoldable pub tmpi_issend : Outcome
  tmpi_issend = starting_send sync

  unfoldable pub tmpi_ssend_init : Outcome
  tmpi_ssend_init = lasting_send sync
