-- ===== src/Manager/Balances.antt =====
-- The balances that node-manager/src/nodemanager.rs shows.
use mutiny_web_poc.Prelude.{
  ℕ, ◌+◌, ◌/◌, ◌^◌, ◌<◌, ◌≤◌, List, [], ◌∷◌, Bytes, ◌≡◌, refl, arith, PartialEq, length,
}
use mutiny_web_poc.Prelude.Outcome.{ok}
use mutiny_web_poc.Payment.{Formats}
use mutiny_web_poc.Node.{Lightning, Node, to_sats}
use mutiny_web_poc.Manager.Channels.{
  ChannelDetails, ChannelManagers, MutinyChannel, MutinyBalance, Balance, from_details,
  shown_channels, all_channels, sum_msats, get_balance,
}

-- The balances that a list of channels shows, without a bound.
abbrev pub shown_total : List MutinyChannel → ℕ
shown_total [] = 0
shown_total (ch ∷ chs) = ch.balance + shown_total chs

module _ (f : Formats) (l : Lightning f) (c : ChannelManagers f l)
    ⦃outpoint_eq : PartialEq c.OutPoint⦄ where
  abbrev Details : Type 0
  Details = ChannelDetails f.PublicKey c.OutPoint

  abbrev pub capacity : List Details → ℕ
  capacity [] = 0
  capacity (d ∷ ds) = d.outbound_capacity_msat + capacity ds

  sum_msats-capacity : (ds : List Details) → capacity ds < 2 ^ 64 → sum_msats f l c ds ≡ capacity ds
  sum_msats-capacity [] small = refl
  sum_msats-capacity (d ∷ ds) small =
      let rest = sum_msats-capacity ds (omega arith) in ground (arith, rest, small)

  shown-between :
      (ds : List Details)
      → (shown_total (shown_channels f l c ds) ≤ capacity ds / 1000)
        × (capacity ds / 1000 ≤ shown_total (shown_channels f l c ds) + length ds)
  unfolding from_details to_sats
  shown-between [] = (omega arith, omega arith)
  shown-between (d ∷ ds) =
      let (low, high) = shown-between ds in (omega (arith, low), omega (arith, high))

  -- The lightning balance is the outbound capacity of all usable channels, rounded down to
  -- satoshis; it is at least the sum of the balances that these channels show one by one, and
  -- exceeds it by at most one satoshi for each. This is where the capacity fits 64 bits.
  pub get_balance-lightning :
      (onchain : Balance) (nodes : List (Bytes × Node f l)) (s : c.State) (b : MutinyBalance)
      → capacity (all_channels f l c c.list_usable_channels nodes s) < 2 ^ 64
      → get_balance f l c (ok onchain) nodes s ≡ ok b
      → (b.lightning ≡ capacity (all_channels f l c c.list_usable_channels nodes s) / 1000)
        × (shown_total (shown_channels f l c (all_channels f l c c.list_usable_channels nodes s))
            ≤ b.lightning)
        × (b.lightning
            ≤ shown_total (shown_channels f l c (all_channels f l c c.list_usable_channels nodes s))
              + length (all_channels f l c c.list_usable_channels nodes s))
  unfolding get_balance to_sats
  get_balance-lightning onchain nodes s b small h =
      let ds = all_channels f l c c.list_usable_channels nodes s in
      let exact : b.lightning ≡ capacity ds / 1000 =
        ground (arith, h, sum_msats-capacity ds small) in
      let (low, high) = shown-between ds in (exact, rw exact low, rw exact high)
