-- ===== src/Intra/Tests/Completion.antt =====
-- Examples of waits, tests and cancels.
use tmpi.Base.{ℕ, ◌≡◌, refl, true, false, ◌&&◌, none, some, ltb, leb, if◌then◌else◌, pos}
use tmpi.Intra.Cancel.{cancel_sh, tested, test_sh}
use tmpi.Intra.Channel.{grank_to_lrank, get_channel, channel_of, bytes}
use tmpi.Intra.Complete.{intra_wait_sh, state_of, stuck}
use tmpi.Intra.Delivery.Buffered.{IsBuffering, buffered_send_keeps_data}
use tmpi.Intra.Hazards.{test_sh_keeps_lock, wait_ready_dangles, cancel_sh_dangles}
use tmpi.Intra.Start.{match_local, match_found}
use tmpi.Intra.Tests.{env, out_handle, offered}
use tmpi.Intra.Types.{standard, ready, sync, buffered, pend_strt, matched, free}
use tmpi.Queue.{◌∈◌}

buffering : IsBuffering (out_handle buffered pend_strt)
buffering = record { mode = refl; queued = refl; unlocked = refl; at_user = refl; room = refl }

-- the sender goes on and clears its own buffer
abbrev cleared : (ℕ → ℕ) → ℕ → ℕ
cleared mem a = if leb 100 a && ltb a 104 then 0 else mem a

still_there :
    let w' = state_of (offered buffered) (intra_wait_sh env (offered buffered) 4 true) in
    bytes (cleared w'.mem) 200 4 ≡ bytes w'.mem 200 4
unfolding bytes
still_there = refl

buffered_send_keeps_data_example :
    let w = offered buffered in
    let w₁ = state_of w (intra_wait_sh env w 4 true) in
    let w₂ = match_local env (record w₁ { mem = cleared w₁.mem }) 1 9 4 in
    ((w₂.shs 4).stat ≡ free)
    × ((w₂.rhs 9).stat ≡ matched)
    × ((w₂.rhs 9).buflen ≡ 3)
    × (bytes w₂.mem 300 3 ≡ bytes w.mem 100 3)
buffered_send_keeps_data_example =
    buffered_send_keeps_data env (offered buffered) 4 9 1 true
      (cleared (state_of (offered buffered) (intra_wait_sh env (offered buffered) 4 true)).mem)
      buffering still_there

test_sh_keeps_lock_example :
    let w = offered sync in
    let t = test_sh env w 4 true in
    let w' = state_of w t.outcome in
    (t.flag ≡ some false)
    × (test_sh env w' 4 true ≡ tested none stuck)
    × (match_found env false w' 1 9 4 ≡ none)
test_sh_keeps_lock_example =
    test_sh_keeps_lock env false (offered sync) 4 9 1 true refl
      (record { state = refl; unlocked = refl; waits = refl }) refl

channel_of_0 : channel_of env 2 (pos 0) ≡ some 0
unfolding channel_of get_channel grank_to_lrank
channel_of_0 = refl

wait_ready_dangles_example :
    let w = offered ready in
    let w' = state_of w (intra_wait_sh env w 4 true) in
    ((w'.shs 4).stat ≡ free) × (4 ∈ w'.sq_allocate 0) × (4 ∈ w'.sq 1)
wait_ready_dangles_example =
    wait_ready_dangles env (offered ready) 4 1 0 true refl refl refl refl channel_of_0 refl

cancel_sh_dangles_example :
    let w = offered standard in
    let w' = state_of w (cancel_sh env 900 w 4) in
    ((w'.shs 4).stat ≡ free) × (4 ∈ w'.sq_allocate 0) × (4 ∈ w'.sq 1)
cancel_sh_dangles_example =
    cancel_sh_dangles env 900 (offered standard) 4 1 0 refl refl refl refl refl channel_of_0 refl
