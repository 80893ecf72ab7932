-- ===== src/Intra/Cancel.antt =====
-- tmpi_intra_cancel_sh, tmpi_inter_cancel_sh, tmpi_intra_cancel_rh, tmpi_intra_test_sh and
-- tmpi_intra_test_rh.
use tmpi.Base.{ℕ, Bool, true, false, not, ◌&&◌, ◌||◌, Option, none, some, ◌==◌, if◌then◌else◌, min}
use tmpi.Intra.Types.{
  Node, Env, same_stat, has_bit, intra_mask, recv_mask, inter_mask, pend_nrdy, matched, cancelled,
  Mode, standard, ready, sync, buffered, success, err_intern, err_request, err_cancel,
}
use tmpi.Intra.Channel.{set_sh, set_rh, finish_sh, finish_rh, reply}
use tmpi.Intra.Complete.{
  Outcome, returns, stuck, complete_sh, complete_rh, leave_buffered, has_sys, error,
}

-- a cancelled handle, finished with no status
unfoldable pub finished : Node × ℕ → Outcome
finished (w, p) = returns w (reply success none p)

-- tmpi_intra_cancel_sh of a send to this node: whatever its state, it is finished
unfoldable pub intra_cancel_sh : Env → Node → ℕ → Outcome
intra_cancel_sh env w p =
    let h = w.shs p in
    if not (has_bit h.stat intra_mask)
    then error w err_intern p
    else if h.locked
    then stuck
    else finished (finish_sh env w p)

-- TMPI_GARBAGE_DATA_SIZE
abbrev pub garbage_size : ℕ
garbage_size = 20

-- tmpi_inter_cancel_sh; `garbage` is the address of tmpi_garbage_data
unfoldable pub inter_cancel_sh : Env → (garbage : ℕ) → Node → ℕ → Outcome
inter_cancel_sh env garbage w p =
    let h = w.shs p in
    if not (has_bit h.stat inter_mask)
    then error w err_intern p
    else if h.locked
    then stuck
    else if same_stat h.stat matched || same_stat h.stat pend_nrdy
    then finished (finish_sh env w p)
    else returns
        (set_sh w p (record h {
          stat = cancelled;
          errval = err_cancel;
          curdata = garbage;
          buflen = min h.buflen garbage_size;
          locked = false;
        }))
        (reply success none p)

-- tmpi_intra_cancel_sh
unfoldable pub cancel_sh : Env → (garbage : ℕ) → Node → ℕ → Outcome
cancel_sh env garbage w p =
    if p == 0
    then error w err_request p
    else if (w.shs p).is_remote
    then inter_cancel_sh env garbage w p
    else intra_cancel_sh env w p

-- tmpi_intra_cancel_rh. Every pending state shares a bit with TMPI_PEND_STRT.
unfoldable pub cancel_rh : Env → Node → ℕ → Outcome
cancel_rh env w p =
    let k = w.rhs p in
    if p == 0
    then error w err_request p
    else if not (has_bit k.stat recv_mask)
    then error w err_intern p
    else if has_bit k.stat intra_mask
    then finished (finish_rh env w p)
    else returns (set_rh w p (record k { stat = cancelled })) (reply success none p)

-- *flag of a test, none where it is not written
pub record Tested : Type 0 where
  pub flag : Option Bool
  pub outcome : Outcome

abbrev pub tested : Option Bool → Outcome → Tested
tested f o = record { flag = f; outcome = o }

-- _TEST_SYNC leaves the switch with the handle's lock held.
unfoldable pub test_unfinished : Node → ℕ → Tested
test_unfinished w p =
    tested (some false)
      (returns (set_sh w p (record (w.shs p) { locked = true })) (reply success none p))

unfoldable pub test_buffered : Node → ℕ → Bool → Tested
test_buffered w p asked =
    tested (some true) (leave_buffered w p asked (has_sys (w.shs p) && not ((w.shs p).buflen == 0)))

-- the switch of tmpi_intra_test_sh
unfoldable pub test_pending : Node → ℕ → Bool → Mode → Tested
test_pending w p asked sync = test_unfinished w p
test_pending w p asked ready = test_unfinished w p
test_pending w p asked buffered = test_buffered w p asked
test_pending w p asked standard =
    if has_sys (w.shs p) then test_buffered w p asked else test_unfinished w p

-- tmpi_intra_test_sh
unfoldable pub test_sh : Env → Node → ℕ → Bool → Tested
test_sh env w p asked =
    let h = w.shs p in
    if p == 0
    then tested (some false) (returns w (reply success none p))
    else if not (has_bit h.stat inter_mask)
    then tested none (error w err_intern p)
    else if h.locked
    then tested none stuck
    else if same_stat h.stat matched || same_stat h.stat pend_nrdy
    then tested (some true) (complete_sh env w p asked success h.errval)
    else test_pending w p asked h.send_mode

-- tmpi_intra_test_rh
unfoldable pub test_rh : Env → Node → ℕ → Bool → Tested
test_rh env w p asked =
    let k = w.rhs p in
    if p == 0
    then tested (some false) (error w err_request p)
    else if not (has_bit k.stat recv_mask)
    then tested none (error w err_intern p)
    else if same_stat k.stat matched
    then tested (some true) (complete_rh env w p asked)
    else tested (some false) (returns w (reply success none p))
