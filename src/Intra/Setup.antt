-- ===== src/Intra/Setup.antt =====
-- The channels' set-up and end: tmpi_intra_new_channel, tmpi_intra_del_channel, tmpi_intra_init and
-- tmpi_intra_end.
use tmpi.Base.{
  ℕ, zero, suc, ◌+◌, ◌≤◌, ◌<◌, ◌≡◌, refl, ap, subst, inl, inr, Bool, true, false, not, ◌&&◌, ◌||◌,
  Option, none, some, List, [], ◌∷◌, arith, leb, ◌==◌, if◌then◌else◌, Bool-cases, length, ℤ, pos,
  negsuc,
}

-- tmpi_Channel: its send queue and its receive queue
pub record Channel : Type 0 where
  pub sq : List ℕ
  pub rq : List ℕ

-- which allocations for a channel succeed: of itself, and by Q_create of its queues
pub record Grant : Type 0 where
  pub got_ch : Bool
  pub got_sq : Bool
  pub got_rq : Bool

-- tmpi_channel: NULL, a table, or the address of one that was freed
pub data Table : Type 0 where
  null freed : Table
  made : List Channel → Table

-- tmpi_channel, tmpi_channel_size, and whether tmpi_inter_msg is set up
pub record Setup : Type 0 where
  pub tmpi_channel : Table
  pub tmpi_channel_size : ℕ
  pub has_msgs : Bool

-- tmpi_intra_new_channel
unfoldable pub new_channel : Grant → Option Channel
new_channel g =
    if not g.got_ch
    then none
    else if not g.got_sq || not g.got_rq
    then none
    else some (record { sq = []; rq = [] })

abbrev pub add_channel : Option Channel → Option (List Channel) → Option (List Channel)
add_channel none rest = none
add_channel (some ch) none = none
add_channel (some ch) (some rest) = some (ch ∷ rest)

-- The loop of tmpi_intra_init from its round `i` on, `n` rounds: the channels, none if one of them
-- fails, and all before it are deleted.
unfoldable pub new_channels : (grant : ℕ → Grant) (i n : ℕ) → Option (List Channel)
new_channels grant i zero = some []
new_channels grant i (suc n) = add_channel (new_channel (grant i)) (new_channels grant (suc i) n)

-- what follows the loop
abbrev pub set_up : Setup → Option (List Channel) → Setup × ℤ
set_up s none = (record s { tmpi_channel = freed }, negsuc 0)
set_up s (some chs) = (record s { tmpi_channel = made chs; has_msgs = true }, pos 0)

-- tmpi_intra_init, and what it returns
unfoldable pub intra_init : (got_table : Bool) (grant : ℕ → Grant) (np : ℤ) → Setup → Setup × ℤ
intra_init got_table grant (negsuc n) s = (s, negsuc 0)
intra_init got_table grant (pos np) s =
    if np == 0
    then (s, negsuc 0)
    else if not got_table
    then (record s { tmpi_channel = null; tmpi_channel_size = np }, negsuc 0)
    else set_up (record s { tmpi_channel_size = np }) (new_channels grant 0 np)

-- the loop of tmpi_intra_end over the table, and free(tmpi_channel): whether they may be run
abbrev pub deletable : Table → (size : ℕ) → Bool
deletable null size = size == 0
deletable freed size = false
deletable (made chs) size = leb size (length chs)

-- tmpi_intra_end; none when it reads at NULL or what was freed
unfoldable pub intra_end : Setup → Option Setup
intra_end s =
    if deletable s.tmpi_channel s.tmpi_channel_size
    then some (record { tmpi_channel = null; tmpi_channel_size = 0; has_msgs = false })
    else none

-- the state before tmpi_intra_init
abbrev pub not_set_up : Setup
not_set_up = record { tmpi_channel = null; tmpi_channel_size = 0; has_msgs = false }

abbrev pub grants : Grant → Bool
grants g = g.got_ch && g.got_sq && g.got_rq

-- the channels of a node, all empty
abbrev pub empty_channels : ℕ → List Channel
empty_channels zero = []
empty_channels (suc n) = record { sq = []; rq = [] } ∷ empty_channels n

length-empty_channels : (n : ℕ) → length (empty_channels n) ≡ n
length-empty_channels zero = refl
length-empty_channels (suc n) = ap suc (length-empty_channels n)

new_channel-granted :
    (g : Grant) → grants g ≡ true → new_channel g ≡ some (record { sq = []; rq = [] })
unfolding new_channel
new_channel-granted g h = ground arith

new_channels-granted :
    (grant : ℕ → Grant) (i n : ℕ)
    → ((j : ℕ) → j < i + n → grants (grant j) ≡ true)
    → new_channels grant i n ≡ some (empty_channels n)
unfolding new_channels
new_channels-granted grant i zero all = refl
new_channels-granted grant i (suc n) all =
    rw
      (
        new_channel-granted (grant i) (all i (omega arith)),
        new_channels-granted grant (suc i) n (λ j h. all j (omega arith)),
      )
      refl

new_channel-refused : (g : Grant) → grants g ≡ false → new_channel g ≡ none
unfolding new_channel
new_channel-refused g h = ground arith

none-rest : (ch : Option Channel) → add_channel ch none ≡ none
none-rest none = refl
none-rest (some ch) = refl

new_channels-refused :
    (grant : ℕ → Grant) (i n j : ℕ)
    → i ≤ j
    → j < i + n
    → grants (grant j) ≡ false
    → new_channels grant i n ≡ none
unfolding new_channels
new_channels-refused grant i zero j a b no_grant = absurd (omega arith)
new_channels-refused grant i (suc n) j a b no_grant = elim (Bool-cases (i == j)) [
  | inl here ↦
      let e : j ≡ i = ground arith in
      rw (new_channel-refused (grant i) (subst (λ k. grants (grant k) ≡ false) e no_grant)) refl
  | inr later ↦
      let rest = new_channels-refused grant (suc i) n j (ground arith) (omega arith) no_grant in
      rw rest (none-rest (new_channel (grant i)))
]

-- Where every allocation succeeds, tmpi_intra_init for a positive number of processes returns 0 with
-- one channel for each, all with empty queues, and tmpi_intra_end then takes it back to the state
-- before.
pub intra_end-intra_init :
    (grant : ℕ → Grant) (np : ℕ)
    → 0 < np
    → ((j : ℕ) → j < np → grants (grant j) ≡ true)
    → (s : Setup) × (intra_init true grant (pos np) not_set_up ≡ (s, pos 0))
      × (s.tmpi_channel ≡ made (empty_channels np))
      × (intra_end s ≡ some not_set_up)
unfolding intra_init intra_end
intra_end-intra_init grant np some_np all =
    let positive : (np == 0) ≡ false = ground arith in
    let chs = new_channels-granted grant 0 np (λ j h. all j (omega arith)) in
    let fits : leb np (length (empty_channels np)) ≡ true =
      ground (arith, length-empty_channels np) in
    (
      record { tmpi_channel = made (empty_channels np); tmpi_channel_size = np; has_msgs = true },
      rw (positive, chs) refl,
      refl,
      rw fits refl,
    )

-- Where a channel cannot be made, tmpi_intra_init returns -1, and a call of tmpi_intra_end after it
-- reads the table that was freed.
pub end_after_failed_init :
    (grant : ℕ → Grant) (np j : ℕ)
    → j < np
    → grants (grant j) ≡ false
    → (s : Setup) × (intra_init true grant (pos np) not_set_up ≡ (s, negsuc 0))
      × (intra_end s ≡ none)
unfolding intra_init intra_end
end_after_failed_init grant np j inside no_grant =
    let positive : (np == 0) ≡ false = ground arith in
    let lost = new_channels-refused grant 0 np j (omega arith) (omega arith) no_grant in
    (
      record { tmpi_channel = freed; tmpi_channel_size = np; has_msgs = false },
      rw (positive, lost) refl,
      refl,
    )
