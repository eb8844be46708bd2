-- ===== src/Manager/Channels.antt =====
-- Channels and balances of a node manager: MutinyChannel, MutinyBalance, open_channel,
-- close_channel, list_channels and get_balance of node-manager/src/nodemanager.rs, over
-- Node::open_channel of node.rs. Log lines and the conversion to values of JavaScript are left out.
use mutiny_web_poc.Prelude.{
  ℕ, ◌+◌, ◌%◌, ◌^◌, Bool, false, Option, none, some, List, [], ◌∷◌, ◌++◌, Bytes, ◌==◌, PartialEq,
  partial_eq_bytes,
}
use mathlib.Core.Option
use mutiny_web_poc.Prelude.Assoc
use mutiny_web_poc.Prelude.Outcome.{Outcome, ok, err, panic, Action, ◌>>>◌, map_err}
use mutiny_web_poc.Storage.Encrypt.{expect}
use mutiny_web_poc.Errors.{MutinyError, channel_creation_failed, BdkError, js_from}
use mutiny_web_poc.Errors.Js
use mutiny_web_poc.Errors.Js.{MutinyJsError}
use mutiny_web_poc.Payment.{Formats}
use mutiny_web_poc.Node.{Lightning, Node, to_sats}
use mutiny_web_poc.Manager.Invoices.{or_err, or_panic, find}

-- What the code reads of LDK's `ChannelDetails`.
pub record ChannelDetails (PublicKey OutPoint : Type 0) : Type 0 where
  pub channel_id : Bytes
  pub node_id : PublicKey
  pub outbound_capacity_msat : ℕ
  pub channel_value_satoshis : ℕ
  pub unspendable_punishment_reserve : Option ℕ
  pub funding_txo : Option OutPoint
  pub is_channel_ready : Bool

-- `MutinyChannel`
pub record MutinyChannel : Type 0 where
  pub balance : ℕ
  pub size : ℕ
  pub reserve : ℕ
  pub outpoint : Option Bytes
  pub peer : Bytes
  pub confirmed : Bool

-- `bdk::Balance`
pub record Balance : Type 0 where
  pub confirmed : ℕ
  pub trusted_pending : ℕ
  pub untrusted_pending : ℕ
  pub immature : ℕ

-- `MutinyBalance`
pub record MutinyBalance : Type 0 where
  pub confirmed : ℕ
  pub unconfirmed : ℕ
  pub lightning : ℕ

-- `LdkError` is whatever the calls of LDK's channel manager fail with.
pub data LdkError : Type 0 where
  api_error : LdkError

-- The channel managers of the nodes; State is what they have.
pub record ChannelManagers (f : Formats) (l : Lightning f) : Type 1 where
  pub OutPoint : Type 0
  pub State : Type 0
  pub outpoint_from_str : Bytes → Option OutPoint
  pub outpoint_to_string : OutPoint → Bytes
  pub list_channels : Node f l → State → List (ChannelDetails f.PublicKey OutPoint)
  pub list_usable_channels : Node f l → State → List (ChannelDetails f.PublicKey OutPoint)
  pub create_channel : Node f l → f.PublicKey → ℕ → Action LdkError State Bytes
  pub close_channel : Node f l → Bytes → f.PublicKey → Action LdkError State (Unit {0})

module _ (f : Formats) (l : Lightning f) (c : ChannelManagers f l)
    ⦃outpoint_eq : PartialEq c.OutPoint⦄ where
  abbrev pub Details : Type 0
  Details = ChannelDetails f.PublicKey c.OutPoint

  -- `From<&ChannelDetails>` for `MutinyChannel`
  unfoldable pub from_details : Details → MutinyChannel
  unfolding to_sats
  from_details d = record {
    balance = to_sats d.outbound_capacity_msat;
    size = d.channel_value_satoshis;
    reserve = elim d.unspendable_punishment_reserve [ some sats ↦ sats | none ↦ 0 ];
    outpoint = Option.map c.outpoint_to_string d.funding_txo;
    peer = l.pubkey_to_hex d.node_id;
    confirmed = d.is_channel_ready;
  }

  abbrev pub Call {ℓ} : Type ℓ → Type ℓ
  Call A = Action MutinyJsError c.State A

  unfoldable pub answer {ℓ} : {A : Type ℓ} → Outcome MutinyJsError A → Call A
  answer r s = (r, s)

  -- `Node::open_channel`
  unfoldable pub open_node_channel : Node f l → f.PublicKey → ℕ → Action MutinyError c.State Bytes
  open_node_channel node pubkey amount_sat s =
      let r = c.create_channel node pubkey amount_sat s in
      (map_err (λ e. channel_creation_failed) r.0, r.1)

  abbrev pub has_id : Bytes → Details → Bool
  has_id chan_id d = d.channel_id == chan_id

  -- The channel that was opened, if LDK lists it.
  unfoldable pub opened : Node f l → Bytes → Call MutinyChannel
  unfolding from_details
  opened node chan_id s = elim (find (has_id chan_id) (c.list_channels node s)) [
    | some channel ↦ (ok (from_details channel), s)
    | none ↦ (err Js.channel_creation_failed, s)
  ]

  unfoldable pub call_open : Node f l → f.PublicKey → ℕ → Call Bytes
  unfolding open_node_channel
  call_open node node_id amount s =
      let r = open_node_channel node node_id amount s in (map_err js_from r.0, r.1)

  unfoldable pub open_channel : List (Bytes × Node f l) → Bytes → Bytes → ℕ → Call MutinyChannel
  unfolding answer call_open opened
  open_channel nodes from_node to_pubkey amount =
      answer (or_panic (Assoc.get from_node nodes)) >>> λ node.
      answer (or_err Js.pubkey_invalid (f.pubkey_from_str to_pubkey)) >>> λ node_id.
      call_open node node_id amount >>> λ chan_id. opened node chan_id

  abbrev pub has_outpoint : c.OutPoint → Details → Bool
  has_outpoint outpoint d = elim d.funding_txo [ some txo ↦ txo == outpoint | none ↦ false ]

  -- The first channel of any node with an outpoint.
  unfoldable pub find_channel :
      c.OutPoint → List (Bytes × Node f l) → c.State → Option (Node f l × Details)
  find_channel outpoint [] s = none
  find_channel outpoint ((k, n) ∷ nodes) s =
      elim (find (has_outpoint outpoint) (c.list_channels n s)) [
        | some channel ↦ some (n, channel)
        | none ↦ find_channel outpoint nodes s
      ]

  unfoldable pub close_found : Option (Node f l × Details) → Call (Unit {0})
  close_found none s = (err Js.channel_closing_failed, s)
  close_found (some (node, channel)) s =
      let r = c.close_channel node channel.channel_id channel.node_id s in
      (map_err (λ e. Js.channel_closing_failed) r.0, r.1)

  unfoldable pub close_channel : List (Bytes × Node f l) → Bytes → Call (Unit {0})
  unfolding answer find_channel close_found
  close_channel nodes outpoint = answer (expect (c.outpoint_from_str outpoint)) >>> λ o.
      λ s. close_found (find_channel o nodes s) s

  abbrev pub shown_channels : List Details → List MutinyChannel
  shown_channels [] = []
  shown_channels (d ∷ ds) = from_details d ∷ shown_channels ds

  -- The channels of all nodes.
  unfoldable pub all_channels :
      (Node f l → c.State → List Details) → List (Bytes × Node f l) → c.State → List Details
  all_channels channels_of [] s = []
  all_channels channels_of ((k, n) ∷ nodes) s = channels_of n s ++ all_channels channels_of nodes s

  unfoldable pub list_channels : List (Bytes × Node f l) → c.State → List MutinyChannel
  unfolding all_channels
  list_channels nodes s = shown_channels (all_channels c.list_channels nodes s)

  -- `sum` of `u64`, which wraps around.
  abbrev pub sum_msats : List Details → ℕ
  sum_msats [] = 0
  sum_msats (d ∷ ds) = (d.outbound_capacity_msat + sum_msats ds) % 2 ^ 64

  unfoldable pub get_balance :
      Outcome BdkError Balance
      → List (Bytes × Node f l)
      → c.State
      → Outcome MutinyJsError MutinyBalance
  unfolding all_channels to_sats
  get_balance (ok onchain) nodes s = ok (record {
    confirmed = (onchain.confirmed + onchain.trusted_pending) % 2 ^ 64;
    unconfirmed = (onchain.untrusted_pending + onchain.immature) % 2 ^ 64;
    lightning = to_sats (sum_msats (all_channels c.list_usable_channels nodes s));
  })
  get_balance (err e) nodes s = err Js.wallet_operation_failed
  get_balance panic nodes s = panic
