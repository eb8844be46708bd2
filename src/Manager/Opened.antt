-- ===== src/Manager/Opened.antt =====
-- Channels and balances of node-manager/src/nodemanager.rs at concrete inputs.
use mutiny_web_poc.Prelude.{
  ℕ, ◌+◌, ◌/◌, ◌≤◌, true, none, some, List, [], ◌∷◌, Bytes, codes, ◌≡◌, ◌⊎◌, refl, arith,
  partial_eq_bytes, length,
}
use mutiny_web_poc.Prelude.Outcome.{◌>>>◌, ok, err, map_err}
use mutiny_web_poc.Errors.Js
use mutiny_web_poc.Payment.Sample.{sample_formats}
use mutiny_web_poc.Node.{Node}
use mutiny_web_poc.Node.Tests.{sample_lightning, sample_node}
use mutiny_web_poc.Manager.Channels.{
  ChannelDetails, ChannelManagers, Balance, MutinyBalance, close_channel, get_balance,
  shown_channels, all_channels,
}
use mutiny_web_poc.Manager.Closing.{NoneHas, IsChannel, close_channel-closes}
use mutiny_web_poc.Manager.Balances.{capacity, shown_total, get_balance-lightning}

-- A channel is its identifier, its capacity and its outpoint.
abbrev channel : Bytes → ℕ → Bytes → ChannelDetails Bytes Bytes
channel id msat txo = record {
  channel_id = id;
  node_id = codes "03b";
  outbound_capacity_msat = msat;
  channel_value_satoshis = 100;
  unspendable_punishment_reserve = none;
  funding_txo = some txo;
  is_channel_ready = true;
}

-- The state is the channels that were closed.
abbrev managers : ChannelManagers sample_formats sample_lightning
managers = record {
  OutPoint = Bytes;
  State = List Bytes;
  outpoint_from_str = some;
  outpoint_to_string = λ o. o;
  list_channels =
      λ n s. channel (codes "c1") 1700 (codes "a:0") ∷ channel (codes "c2") 1400 (codes "b:1") ∷ [];
  list_usable_channels =
      λ n s. channel (codes "c1") 1700 (codes "a:0") ∷ channel (codes "c2") 1400 (codes "b:1") ∷ [];
  create_channel = λ n k amount s. (ok (codes "c3"), s);
  close_channel = λ n id k s. (ok tt, id ∷ s);
}

abbrev nodes : List (Bytes × Node sample_formats sample_lightning)
nodes = (codes "02a", sample_node) ∷ []

close_channel-closes_example :
    (NoneHas sample_formats sample_lightning managers (codes "b:1") nodes []
      × (close_channel sample_formats sample_lightning managers nodes (codes "b:1") []
          ≡ (err Js.channel_closing_failed, [])))
    ⊎ ((node : Node sample_formats sample_lightning) × (d : ChannelDetails Bytes Bytes) × IsChannel
          sample_formats sample_lightning managers
          (codes "b:1")
          nodes
          []
          node
          d
        × (close_channel sample_formats sample_lightning managers nodes (codes "b:1") [] ≡ (
          map_err
              (λ e. Js.channel_closing_failed)
              (managers.close_channel node d.channel_id d.node_id []).0,
          (managers.close_channel node d.channel_id d.node_id []).1,
        )))
close_channel-closes_example =
    close_channel-closes sample_formats sample_lightning managers nodes (codes "b:1") (codes "b:1")
      [] refl

closed :
    close_channel sample_formats sample_lightning managers nodes (codes "b:1") []
    ≡ (ok tt, codes "c2" ∷ [])
unfolding close_channel ◌>>>◌
closed = refl

abbrev onchain : Balance
onchain = record { confirmed = 5; trusted_pending = 1; untrusted_pending = 2; immature = 0 }

abbrev balance : MutinyBalance
balance = record { confirmed = 6; unconfirmed = 2; lightning = 3 }

abbrev usable : List (ChannelDetails Bytes Bytes)
usable =
    all_channels sample_formats sample_lightning managers managers.list_usable_channels nodes []

get_balance-lightning_example :
    (3 ≡ capacity sample_formats sample_lightning managers usable / 1000)
    × (shown_total (shown_channels sample_formats sample_lightning managers usable) ≤ 3)
    × (3
        ≤ shown_total (shown_channels sample_formats sample_lightning managers usable)
          + length usable)
unfolding get_balance all_channels
get_balance-lightning_example =
    get_balance-lightning sample_formats sample_lightning managers onchain nodes [] balance
      (omega arith) refl
