-- ===== src/Intra/Tests/Setups.antt =====
-- A node with three processes, and memory for the channels of two.
use tmpi.Intra.Setup.{
  Grant, Setup, new_channel, new_channels, intra_init, intra_end, not_set_up, empty_channels,
  end_after_failed_init,
}
use tmpi.Base.{ℕ, ◌≡◌, refl, true, false, none, some, arith, ltb, if◌then◌else◌, pos, negsuc}

abbrev full : Grant
full = record { got_ch = true; got_sq = true; got_rq = true }

abbrev no_queue : Grant
no_queue = record { got_ch = true; got_sq = false; got_rq = true }

abbrev two_only : ℕ → Grant
two_only j = if ltb j 2 then full else no_queue

three_channels : new_channels (λ j. full) 0 3 ≡ some (empty_channels 3)
unfolding new_channels new_channel
three_channels = refl

end_after_failed_init_example :
    (s : Setup) × (intra_init true two_only (pos 3) not_set_up ≡ (s, negsuc 0))
    × (intra_end s ≡ none)
end_after_failed_init_example = end_after_failed_init two_only 3 2 (omega arith) refl
